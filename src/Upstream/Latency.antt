-- ===== src/Upstream/Latency.antt =====
-- The latency tracker: which upstreams count as measured.
use dnsproxy_rs.Upstream.{
  Floats, u64_max, new_tracker, default_tracker, average_with, record_latency, average,
}
use dnsproxy_rs.Prelude.{
  ℕ, ◌*◌, ◌<◌, ◌≡◌, refl, ◌↔◌, ◌⊎◌, ◌^◌, false, none, some, arith, List, [], ◌∷◌, ◌==◌, inl, inr,
  min, ◌/◌,
}

module _ (f : Floats) where
  -- The atomic of a fresh tracker after the samples, the first one last.
  unfoldable pub record_all : List ℕ → ℕ
  record_all [] = new_tracker
  record_all (t ∷ ts) = record_latency f t (record_all ts)

  -- Each sample takes less than 2^50 microseconds, about 35 years.
  abbrev pub AllShort : List ℕ → Type 0
  AllShort [] = Unit
  AllShort (t ∷ ts) = (t < 2 ^ 50 * 1000) × AllShort ts

  -- Of two values that f64 holds to a quarter, the rounded average is at most the greater.
  abbrev pub AveragesFit : Type 0
  AveragesFit =
      (prev sample : ℕ) → prev < 2 ^ 50 → sample < 2 ^ 50 → average_with f prev sample < 2 ^ 50

  record-measured :
      AveragesFit
      → (t prev : ℕ) → t < 2 ^ 50 * 1000
      → (prev ≡ u64_max) ⊎ (prev < 2 ^ 50)
      → record_latency f t prev < 2 ^ 50
  unfolding record_latency
  record-measured fit t prev short (inl fresh) = rw fresh (omega arith)
  record-measured fit t prev short (inr small) =
      let used : (prev == u64_max) ≡ false = ground arith in
      rw used (fit prev (min (t / 1000) u64_max) small (omega arith))

  record_all-fits :
      AveragesFit
      → (ts : List ℕ) → AllShort ts
      → (record_all ts ≡ u64_max) ⊎ (record_all ts < 2 ^ 50)
  unfolding record_all
  record_all-fits fit [] short = inl refl
  record_all-fits fit (t ∷ ts) short =
      inr (record-measured fit t (record_all ts) short.0 (record_all-fits fit ts short.1))

  -- A fresh tracker has no average exactly as long as no exchange has been recorded, if every
  -- exchange takes less than 2^50 microseconds and the rounded averages stay below that bound.
  pub average-record_all :
      (ts : List ℕ) → AveragesFit → AllShort ts → (average (record_all ts) ≡ none) ↔ (ts ≡ [])
  unfolding average record_all
  average-record_all [] fit short = (λ _. refl, λ _. refl)
  average-record_all (t ∷ ts) fit short =
      let measured : record_all (t ∷ ts) < 2 ^ 50 =
        record-measured fit t (record_all ts) short.0 (record_all-fits fit ts short.1) in
      (λ e. absurd (ground arith), λ e. cc)

-- The derived `Default` is no fresh tracker: it reports an average of zero.
default_tracker-average : average default_tracker ≡ some 0
unfolding average
default_tracker-average = refl

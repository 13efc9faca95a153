-- ===== src/Cache/Ttl.antt =====
-- The lifetime that a response is stored with, and the lifetimes that a hit shows.
use dnsproxy_rs.Cache.{
  CacheOptions, CacheEntry, second, minimum, raise_ttl, cap_ttl, is_cacheable, cacheable_records,
  set_ttl, ttls, response_ttl, remaining, refreshed,
}
use dnsproxy_rs.Cache.Sections.{EachRecord, SomeRecord, EachRecord-cacheable, SomeRecord-cacheable}
use native.Mathlib.Decide.{dec_le, ℕ_discrete}
use dnsproxy_rs.Dns.{Hickory, Message, Record, opt}
use dnsproxy_rs.Prelude.{
  ℕ, ◌^◌, ◌+◌, ◌-◌, ◌*◌, ◌≤◌, ◌<◌, ◌≡◌, refl, ◌↔◌, inl, inr, Option-cases, List, [], ◌∷◌, Option,
  none, some, min, arith, All, Any, if◌then◌else◌, subst, ◌≢◌, ◌⊎◌,
}

-- `t` is not above the ceiling, if there is one.
abbrev pub Under : Option ℕ → ℕ → Type 0
Under none t = Unit
Under (some c) t = t ≤ c

minimum-none : (xs : List ℕ) → minimum xs ≡ none → xs ≡ []
unfolding minimum
minimum-none [] e = refl
minimum-none (x ∷ xs) e = absurd (ground arith)

All-le : (xs : List ℕ) {a b : ℕ} → a ≤ b → All (λ x. b ≤ x) xs → All (λ x. a ≤ x) xs
All-le [] h all = tt
All-le (x ∷ xs) h all = (omega arith, All-le xs h all.1)

minimum-le : (xs : List ℕ) {m : ℕ} → minimum xs ≡ some m → All (λ x. m ≤ x) xs × Any (λ x. x ≡ m) xs
unfolding minimum
minimum-le [] e = cc
minimum-le (x ∷ xs) {m} e = elim (Option-cases (minimum xs)) [
  | inl empty ↦
      let same : x ≡ m = ground arith in ((omega arith, rw (minimum-none xs empty) tt), inl same)
  | inr (k, found) ↦
      let (low, hit) = minimum-le xs found in
      let lower : m ≡ min x k = ground arith in
      let below : All (λ y. m ≤ y) xs = All-le xs (omega arith) low in
      elim (dec_le x k) [
        | yes first ↦ ((omega arith, below), inl (omega arith))
        | no later ↦
            ((omega arith, below), inr (subst (λ n. Any (λ y. y ≡ n) xs) (omega arith) hit))
      ]
]

-- What the two adjustments do to the lifetime `x`.
clamp_value :
    (floor x : ℕ) (ceiling : Option ℕ)
    → let t = cap_ttl ceiling (raise_ttl floor x) in
      (t ≡ x) ⊎ ((t ≡ floor) × (x < t)) ⊎ (ceiling ≡ some t)
unfolding cap_ttl raise_ttl
clamp_value floor x none = ground arith
clamp_value floor x (some c) = ground arith

clamp-floor :
    (floor x : ℕ) (ceiling : Option ℕ)
    → let t = cap_ttl ceiling (raise_ttl floor x) in (floor ≤ t) ⊎ (ceiling ≡ some t)
unfolding cap_ttl raise_ttl
clamp-floor floor x none = ground arith
clamp-floor floor x (some c) = ground arith

clamp-above :
    (floor x : ℕ) (ceiling : Option ℕ)
    → let t = cap_ttl ceiling (raise_ttl floor x) in (t ≤ x) ⊎ (t ≤ floor)
unfolding cap_ttl raise_ttl
clamp-above floor x none = ground arith
clamp-above floor x (some c) = ground arith

clamp-ceiling :
    (floor x : ℕ) (ceiling : Option ℕ) → Under ceiling (cap_ttl ceiling (raise_ttl floor x))
unfolding cap_ttl raise_ttl
clamp-ceiling floor x none = tt
clamp-ceiling floor x (some c) = ground arith

module _ {h : Hickory} where
  All-ttls : (n : ℕ) (rs : List (Record h)) → All (λ x. n ≤ x) (ttls rs) → All (λ r. n ≤ r.ttl) rs
  All-ttls n [] all = tt
  All-ttls n (r ∷ rs) all = (all.0, All-ttls n rs all.1)

  Any-ttls : (n : ℕ) (rs : List (Record h)) → Any (λ x. x ≡ n) (ttls rs) → Any (λ r. r.ttl ≡ n) rs
  Any-ttls n (r ∷ rs) (inl here) = inl here
  Any-ttls n (r ∷ rs) (inr there) = inr (Any-ttls n rs there)
  Any-ttls n [] any = any

  ttls-nil : (rs : List (Record h)) → ttls rs ≡ [] → rs ≡ []
  ttls-nil [] e = refl
  ttls-nil (r ∷ rs) e = cc

  -- The lifetime `t` nanoseconds fits the response and the options.
  pub record Fits (o : CacheOptions) (resp : Message h) (t : ℕ) : Type 0 where
    -- the lowest lifetime among the records that count, in seconds
    pub lowest : ℕ
    pub is_lowest : EachRecord (λ r. lowest ≤ r.ttl) resp
    pub attained : SomeRecord (λ r. r.ttl ≡ lowest) resp
    -- that lifetime, or the floor above it, or the ceiling
    pub value :
        (t ≡ lowest * second) ⊎ ((t ≡ o.min_ttl) × (lowest * second < t)) ⊎ (o.max_ttl ≡ some t)
    pub over_floor : (o.min_ttl ≤ t) ⊎ (o.max_ttl ≡ some t)
    pub not_above : (t ≤ lowest * second) ⊎ (t ≤ o.min_ttl)
    pub under_ceiling : Under o.max_ttl t

  -- A stored lifetime fits: it is the lowest lifetime of the records other than OPT in the three
  -- sections, raised to the floor, and never above the ceiling.
  pub response_ttl-Fits :
      (o : CacheOptions) (resp : Message h) {t : ℕ} → response_ttl o resp ≡ some t → Fits o resp t
  unfolding response_ttl
  response_ttl-Fits o resp {t} e = elim (Option-cases (minimum (ttls rs))) [
    | inl empty ↦ absurd (ground arith)
    | inr (s, found) ↦
        let same : cap_ttl o.max_ttl (raise_ttl o.min_ttl (s * second)) ≡ t = ground arith in
        let bounds = minimum-le (ttls rs) found in
        record {
          lowest = s;
          is_lowest = EachRecord-cacheable _ resp (All-ttls s rs bounds.0);
          attained = SomeRecord-cacheable _ resp (Any-ttls s rs bounds.1);
          value = rw same at (clamp_value o.min_ttl (s * second) o.max_ttl);
          over_floor = rw same at (clamp-floor o.min_ttl (s * second) o.max_ttl);
          not_above = rw same at (clamp-above o.min_ttl (s * second) o.max_ttl);
          under_ceiling = rw same at (clamp-ceiling o.min_ttl (s * second) o.max_ttl);
        }
  ]
    where
      rs : List (Record h)
      rs = cacheable_records resp

  -- Nothing is stored exactly when no section has a record other than OPT.
  pub response_ttl-none_iff :
      (o : CacheOptions) (resp : Message h)
      → (response_ttl o resp ≡ none) ↔ (cacheable_records resp ≡ [])
  unfolding response_ttl
  response_ttl-none_iff o resp = elim (Option-cases (minimum (ttls rs))) [
    | inl empty ↦ (λ _. ttls-nil rs (minimum-none (ttls rs) empty), λ _. ground arith)
    | inr (s, found) ↦ (
      λ e. absurd (ground arith),
      λ e. let gone : none ≡ some s = rw e at found in absurd (cc gone),
    )
  ]
    where
      rs : List (Record h)
      rs = cacheable_records resp

  -- What a hit makes of a record: an OPT record is unchanged, any other shows the remaining seconds.
  abbrev pub Shown : ℕ → Record h → Record h → Type 0
  Shown t r r' =
      (r.record_type ≡ opt) × (r' ≡ r) ⊎ (r.record_type ≢ opt) × (r' ≡ record r { ttl = t })

  abbrev pub ShownAll : ℕ → List (Record h) → List (Record h) → Type 0
  ShownAll t [] [] = Unit
  ShownAll t (r ∷ rs) (r' ∷ rs') = Shown t r r' × ShownAll t rs rs'
  ShownAll t _ _ = ⊥

  set_ttl-Shown :
      (t : ℕ) (r : Record h) → Shown t r (if is_cacheable r then record r { ttl = t } else r)
  set_ttl-Shown t r = elim (ℕ_discrete r.record_type opt) [
    | yes p ↦ inl (p, ground arith)
    | no p ↦ inr (p, ground arith)
  ]

  set_ttl-ShownAll : (t : ℕ) (rs : List (Record h)) → ShownAll t rs (set_ttl t rs)
  unfolding set_ttl
  set_ttl-ShownAll t [] = tt
  set_ttl-ShownAll t (r ∷ rs) = (set_ttl-Shown t r, set_ttl-ShownAll t rs)

  -- What a hit returns for an entry.
  pub record Served (e : CacheEntry h) (id now : ℕ) (m : Message h) : Type 0 where
    pub own_id : m.id ≡ id
    pub same_queries : m.queries ≡ e.response.queries
    pub same_edns : m.edns ≡ e.response.edns
    pub same_truncation : m.truncation ≡ e.response.truncation
    pub same_checking : m.checking_disabled ≡ e.response.checking_disabled
    -- all that the program does not look at, the response code included
    pub same_rest : m.rest ≡ e.response.rest
    pub answers : ShownAll (remaining e now) e.response.answers m.answers
    pub authorities : ShownAll (remaining e now) e.response.authorities m.authorities
    pub additionals : ShownAll (remaining e now) e.response.additionals m.additionals
    -- the lifetime shown is what is left, in whole seconds if that fits a u32
    pub to_the_second :
        (e.ttl < (remaining e now + 1) * second + (now - e.stored_at)) ⊎ (2 ^ 32 * second ≤ e.ttl)
    pub not_longer : remaining e now * second + (now - e.stored_at) ≤ e.ttl

  pub refreshed-Served :
      (e : CacheEntry h) (id now : ℕ)
      → now - e.stored_at < e.ttl
      → Served e id now (refreshed e id now)
  unfolding refreshed
  refreshed-Served e id now fresh = record {
    own_id = refl;
    same_queries = refl;
    same_edns = refl;
    same_truncation = refl;
    same_checking = refl;
    same_rest = refl;
    answers = set_ttl-ShownAll _ e.response.answers;
    authorities = set_ttl-ShownAll _ e.response.authorities;
    additionals = set_ttl-ShownAll _ e.response.additionals;
    not_longer = omega arith;
    to_the_second = elim (dec_le (2 ^ 32 * second) e.ttl) [
      | yes large ↦ inr large
      | no small ↦ inl (omega arith)
    ];
  }

  All-shorten :
      (a b : ℕ) (rs : List (Record h))
      → a ≤ b
      → All (λ r. r.record_type ≢ opt → b ≤ r.ttl) rs
      → All (λ r. r.record_type ≢ opt → a ≤ r.ttl) rs
  All-shorten a b [] le all = tt
  All-shorten a b (r ∷ rs) le all =
      (λ not_opt. let long = all.0 not_opt in omega arith, All-shorten a b rs le all.1)

  -- Without a floor, the lifetime that a hit shows is at most that of each record of the stored
  -- response that counts.
  pub remaining-le :
      (o : CacheOptions) (e : CacheEntry h) (now : ℕ)
      → o.min_ttl ≡ 0
      → response_ttl o e.response ≡ some e.ttl
      → EachRecord (λ r. remaining e now ≤ r.ttl) e.response
  unfolding remaining
  remaining-le o e now no_floor stored =
      let fits = response_ttl-Fits o e.response stored in
      let below : e.ttl ≤ fits.lowest * second = elim fits.not_above [
        | inl low ↦ low
        | inr zero_ttl ↦ omega arith
      ] in
      let left : remaining e now ≤ fits.lowest = omega arith in
      let (first, next, last) = fits.is_lowest in
      (
        All-shorten _ fits.lowest e.response.answers left first,
        All-shorten _ fits.lowest e.response.authorities left next,
        All-shorten _ fits.lowest e.response.additionals left last,
      )

-- ===== src/Exec/Yields.antt =====
-- What an action returns, if it succeeds: one rule for each way to build an action.
use dnsproxy_rs.Error.{DohError, Result, ok, err, panic}
use dnsproxy_rs.Exec.{Exec, done, lift, go_on, ◌>>=◌, timed}
use dnsproxy_rs.Prelude.{
  ℕ, Option, none, some, ◌≡◌, refl, subst, arith, Option-cases, inl, inr, Bool, true, false,
  if◌then◌else◌,
}

module _ {W A : Type 0} (P : A → Type 0) where
  -- what `m` returns satisfies `P`
  pub record Yields (m : Exec W A) : Type 0 where
    pub at : (w : W) {a : A} → (m w).0 ≡ ok a → P a

module _ {W A : Type 0} {P : A → Type 0} where
  pub lift-Yields : (r : Result A) → ((a : A) → r ≡ ok a → P a) → Yields {W = W} P (lift r)
  lift-Yields r p = record { at = λ w {a} e. p a e }

  pub done-Yields : (a : A) → P a → Yields {W = W} P (done a)
  done-Yields a p = lift-Yields (ok a) λ b e. let same : a ≡ b = cc e in subst P same p

  pub if-Yields :
      (b : Bool) (m n : Exec W A) → Yields P m → Yields P n → Yields P (if b then m else n)
  if-Yields true m n p q = p
  if-Yields false m n p q = q

  pub timed-Yields :
      (expires : ℕ → W → Option W) (e : DohError) (limit : Option ℕ) (m : Exec W A)
      → Yields P m
      → Yields P (timed expires e limit m)
  unfolding timed
  timed-Yields expires e none m p = record { at = λ w same. p.at w same }
  timed-Yields expires e (some d) m p = record {
    at = λ w same. elim (Option-cases (expires d w)) [
      | inl late ↦ p.at w (rw (late, timed) at same)
      | inr (w', late) ↦ absurd (cc (rw (late, timed) at same))
    ];
  }

module _ {W A B : Type 0} {P : B → Type 0} where
  go_on-Yields :
      (r : Result A) (f : A → Exec W B)
      → ((a : A) → r ≡ ok a → Yields P (f a))
      → Yields P (go_on r f)
  go_on-Yields panic f p = record { at = λ w e. absurd (cc e) }
  go_on-Yields (err x) f p = record { at = λ w e. absurd (cc e) }
  go_on-Yields (ok a) f p = record { at = λ w e. (p a refl).at w e }

  pub >>=-Yields :
      (m : Exec W A) (f : A → Exec W B) → ((a : A) → Yields P (f a)) → Yields P (m >>= f)
  unfolding ◌>>=◌
  >>=-Yields m f p = record { at = λ w e. (go_on-Yields (m w).0 f (λ a _. p a)).at (m w).1 e }

  -- the rest may use what the first action returned
  pub >>=-lift-Yields :
      (r : Result A) (f : A → Exec W B)
      → ((a : A) → r ≡ ok a → Yields P (f a))
      → Yields P (lift r >>= f)
  unfolding ◌>>=◌
  >>=-lift-Yields r f p = record { at = λ w e. (go_on-Yields r f p).at w e }

module _ {W A B : Type 0} where
  go_on-ran :
      (r : Result A) (f : A → Exec W B) (w : W) {b : B} {w' : W}
      → go_on r f w ≡ (ok b, w')
      → (a : A) × (r ≡ ok a) × (f a w ≡ (ok b, w'))
  go_on-ran panic f w e = absurd (cc e)
  go_on-ran (err x) f w e = absurd (cc e)
  go_on-ran (ok a) f w e = (a, refl, e)

  -- where a chain succeeds, so do its actions
  pub >>=-ran :
      (m : Exec W A) (f : A → Exec W B) (w : W) {b : B} {w' : W}
      → (m >>= f) w ≡ (ok b, w')
      → (a : A) × ((m w).0 ≡ ok a) × (f a (m w).1 ≡ (ok b, w'))
  unfolding ◌>>=◌
  >>=-ran m f w e = go_on-ran (m w).0 f (m w).1 e

  -- the first action of a chain succeeds
  pub >>=-run :
      (m : Exec W A) (f : A → Exec W B) (w : W) {a : A} {w' : W}
      → m w ≡ (ok a, w')
      → (m >>= f) w ≡ f a w'
  unfolding ◌>>=◌
  >>=-run m f w e = ground arith

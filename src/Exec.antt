-- ===== src/Exec.antt =====
-- Asynchronous functions: what one returns, and the world that it leaves, which stays changed where
-- it fails.
pub mod Yields
use dnsproxy_rs.Error.{DohError, timeout, Result, ok, err, panic}
use dnsproxy_rs.Prelude.Text.{Text}
use dnsproxy_rs.Prelude.{ℕ, Option, none, some, ◌⊎◌, inl, inr}

abbrev pub Exec {ℓ} : Type ℓ → Type ℓ → Type ℓ
Exec W A = W → Result A × W

-- A library call, which returns a value or the text of its error.
abbrev pub Call {ℓ} : Type ℓ → Type 0 → Type ℓ
Call W A = W → (Text ⊎ A) × W

module _ {ℓ} {W A : Type ℓ} where
  abbrev pub done : A → Exec W A
  done a w = (ok a, w)

  abbrev pub lift : Result A → Exec W A
  lift r w = (r, w)

module _ {ℓ} {W A B : Type ℓ} where
  abbrev pub go_on : Result A → (A → Exec W B) → Exec W B
  go_on panic f w = (panic, w)
  go_on (err e) f w = (err e, w)
  go_on (ok a) f w = f a w

  infixl 5 ◌>>=◌
  unfoldable pub ◌>>=◌ : Exec W A → (A → Exec W B) → Exec W B
  ◌>>=◌ m f w = let (r, w') = m w in go_on r f w'

module _ {ℓ} {W B : Type ℓ} where
  infixl 5 ◌>>◌
  abbrev pub ◌>>◌ : Exec W (Unit {ℓ}) → Exec W B → Exec W B
  m >> n = m >>= λ _. n

module _ {A : Type 0} where
  -- `map_err` on a call
  abbrev pub map_err : (Text → DohError) → Text ⊎ A → Result A
  map_err e (inl text) = err (e text)
  map_err e (inr a) = ok a

module _ {W A : Type 0} where
  unfoldable pub call : (Text → DohError) → Call W A → Exec W A
  call e f w = let (r, w') = f w in (map_err e r, w')

  -- `tokio::time::timeout` where a duration is set: `expires` says whether it is over before the
  -- action is, and the world at that moment.
  unfoldable pub timed : (ℕ → W → Option W) → DohError → Option ℕ → Exec W A → Exec W A
  timed expires e none m w = m w
  timed expires e (some d) m w = elim (expires d w) [ none ↦ m w | some w' ↦ (err e, w') ]

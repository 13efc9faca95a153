-- ===== src/UpstreamConfig/Maps.antt =====
-- The laws of the maps keyed by text.
use dnsproxy_rs.Prelude.Text.{Text, text_eq, text_eq_iff}
use dnsproxy_rs.Prelude.{◌≡◌, refl, [], ◌∷◌, Option, none, some, arith, if◌then◌else◌}
use dnsproxy_rs.UpstreamConfig.{Map, lookup, change}

abbrev pub or_else {ℓ} : {A : Type ℓ} → A → Option A → A
or_else d none = d
or_else d (some a) = a

module _ {V : Type 0} where
  -- A change shows under its key, and under no other.
  pub lookup-change :
      (k j : Text) (d : V) (f : V → V) (m : Map V)
      → lookup j (change k d f m)
        ≡ (if text_eq k j then some (f (or_else d (lookup j m))) else lookup j m)
  unfolding lookup change
  lookup-change k j d f [] = refl
  lookup-change k j d f ((i, v) ∷ m) =
      ground (arith, text_eq_iff k j, text_eq_iff i k, text_eq_iff i j, lookup-change k j d f m)

-- ===== src/Client/Reuse/Yields.antt =====
-- What an exchange over a kept connection returns is what one attempt returned.
use dnsproxy_rs.Client.Reuse.Attempts.{
  Attempts, unconnected, answered, failed, not_renewed, retried, panicked_opening, panicked_asking,
  panicked_renewing, exchange-Attempts,
}
use dnsproxy_rs.Client.Reuse.{exchange}
use dnsproxy_rs.Error.{Result, ok}
use dnsproxy_rs.Exec.{Exec}
use dnsproxy_rs.Prelude.{◌≡◌, ap, ◌∙◌, Option}

module _ {C W M : Type 0} (open_new : Exec W C) (renew : C → Exec W C)
    (attempt : C → W → Result M × C × W) (P : M → Type 0)
    (sound : (c : C) (w : W) (m : M) → (attempt c w).0 ≡ ok m → P m) where
  Attempts-sound :
      {kept kept' : Option C} {w w' : W} {r : Result M} {m : M}
      → Attempts open_new renew attempt kept w r kept' w'
      → r ≡ ok m
      → P m
  Attempts-sound (unconnected e none_kept made) same = absurd (cc same)
  Attempts-sound {m = m'} (answered {c} {w' = w} m connected asked) same =
      sound c w m' (ap (λ x. x.0) asked ∙ same)
  Attempts-sound (failed e connected asked final) same = absurd (cc same)
  Attempts-sound (not_renewed e e' kept asked again made) same = absurd (cc same)
  Attempts-sound {m = m} (retried {d = d} {w'' = w} e kept asked again made asked_again) same =
      sound d w m (ap (λ x. x.0) asked_again ∙ same)
  Attempts-sound (panicked_opening kept made) same = absurd (cc same)
  Attempts-sound (panicked_asking connected asked) same = absurd (cc same)
  Attempts-sound (panicked_renewing e kept asked again made) same = absurd (cc same)

  pub exchange-sound :
      (kept : Option C) (w : W) (m : M) → (exchange open_new renew attempt kept w).0 ≡ ok m → P m
  exchange-sound kept w m same =
      Attempts-sound (exchange-Attempts open_new renew attempt kept w) same

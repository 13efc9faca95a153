-- ===== src/Failover/Outcome.antt =====
-- What the loop returns, by what the things tried return.
use mathlib.Core.HLevel.{⊥_prop}
use mathlib.Core.List.{Mem, not-mem-nil, mem-cons}
use mathlib.Core.Logic.Or
use dnsproxy_rs.Error.{DohError, Result, ok, err, panic, is_ok}
use dnsproxy_rs.Failover.Ends.{Failed, none_asked, one_failed, Ends, answered, crashed, exhausted}
use dnsproxy_rs.Prelude.{◌≡◌, ◌≢◌, refl, ap, ◌∙◌, true, false, List, Option, none, some}

module _ {M T S : Type 0} (nobody : DohError) (ask : T → S → Result M × S) where
  -- Where the loop answers, one of them did.
  pub Ends-sound :
      (P : M → Type 0)
      → ((u : T) (s : S) (m : M) → (ask u s).0 ≡ ok m → P m)
      → {us : List T} {last : Option DohError} {s s' : S} {r : Result M} {m : M}
      → Ends nobody ask us last s r s'
      → r ≡ ok m
      → P m
  Ends-sound P sound {m = m'} (answered before after u {s' = s'} split failed asked) same =
      sound u s' m' (ap (λ x. x.0) asked ∙ same)
  Ends-sound P sound (crashed before after u split failed asked) same = absurd (cc same)
  Ends-sound P sound (exhausted {last' = none} failed r) same = absurd (cc (r, same))
  Ends-sound P sound (exhausted {last' = some e} failed r) same = absurd (cc (r, same))

  err-or-ok :
      (u v : T) (s s' : S) (e : DohError)
      → ask v s ≡ (err e, s')
      → is_ok (ask u s).0 ≡ true
      → u ≡ v
      → ⊥
  err-or-ok u v s s' e asked live same =
      let failed : is_ok (ask u s).0 ≡ false =
        ap (λ x. is_ok (ask x s).0) same ∙ ap (λ x. is_ok x.0) asked in
      cc (failed, live)

  Failed-none :
      {us : List T} {last last' : Option DohError} {s s' : S} (u : T)
      → Failed nobody ask us last s last' s'
      → Mem u us
      → ((s : S) → is_ok (ask u s).0 ≡ true)
      → ⊥
  Failed-none u none_asked m live = not-mem-nil m
  Failed-none u (one_failed {u = v} {s = s} {s' = s'} e asked more) m live =
      Or.elim ⊥_prop (mem-cons.0 m) (λ same. err-or-ok u v s s' e asked (live s) same)
        (λ later. Failed-none u more later live)

  -- If one of them answers whenever it is asked, and none panics, the loop answers.
  pub Ends-ok :
      {us : List T} {last : Option DohError} {s s' : S} {r : Result M} (u : T)
      → Ends nobody ask us last s r s'
      → Mem u us
      → ((s : S) → is_ok (ask u s).0 ≡ true)
      → ((v : T) (s : S) → (ask v s).0 ≢ panic)
      → is_ok r ≡ true
  Ends-ok u (answered before after v split failed asked) m live safe = refl
  Ends-ok u (crashed before after v {s' = s'} split failed asked) m live safe =
      absurd (safe v s' (ap (λ x. x.0) asked))
  Ends-ok u (exhausted failed r) m live safe = absurd (Failed-none u failed m live)

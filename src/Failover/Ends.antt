-- ===== src/Failover/Ends.antt =====
-- How a loop over things to try ends.
use dnsproxy_rs.Error.{DohError, Result, ok, err, panic}
use dnsproxy_rs.Failover.{try_each, last_or}
use dnsproxy_rs.Prelude.{◌≡◌, refl, List, [], ◌∷◌, ◌++◌, Option, some, ap, arith}

module _ {M T S : Type 0} (nobody : DohError) (ask : T → S → Result M × S) where
  -- Each upstream of the list was asked, in order, and failed; `last` is the last error so far.
  pub data Failed : List (T) → Option DohError → S → Option DohError → S → Type 0 where
    none_asked : {last : Option DohError} {s : S} → Failed [] last s last s
    one_failed :
        {u : T} {us : List (T)} {last last' : Option DohError} {s s' s'' : S} (e : DohError)
        → ask u s ≡ (err e, s')
        → Failed us (some e) s' last' s''
        → Failed (u ∷ us) last s last' s''

  -- How the loop over `us` from the state `s` ends.
  pub data Ends (us : List (T)) (last : Option DohError) (s : S) : Result M → S → Type 0 where
    -- the first upstream that answers, behind those that failed; the others are not asked
    answered :
        (before after : List (T)) (u : T) {last' : Option DohError} {s' s'' : S} {resp : M}
        → us ≡ before ++ u ∷ after
        → Failed before last s last' s'
        → ask u s' ≡ (ok resp, s'')
        → Ends us last s (ok resp) s''
    crashed :
        (before after : List (T)) (u : T) {last' : Option DohError} {s' s'' : S}
        → us ≡ before ++ u ∷ after
        → Failed before last s last' s'
        → ask u s' ≡ (panic, s'')
        → Ends us last s panic s''
    -- every upstream failed: the last error, or that there is no upstream
    exhausted :
        {last' : Option DohError} {s' : S} {r : Result M}
        → Failed us last s last' s'
        → r ≡ last_or nobody ask last'
        → Ends us last s r s'

  Ends-cons :
      {u : T} {us : List (T)} {last : Option DohError} {s s' s'' : S} {r : Result M} (e : DohError)
      → ask u s ≡ (err e, s')
      → Ends us (some e) s' r s''
      → Ends (u ∷ us) last s r s''
  Ends-cons {u} e a (answered before after v split failed got) =
      answered (u ∷ before) after v (ap (◌∷◌ u) split) (one_failed e a failed) got
  Ends-cons {u} e a (crashed before after v split failed got) =
      crashed (u ∷ before) after v (ap (◌∷◌ u) split) (one_failed e a failed) got
  Ends-cons e a (exhausted failed r) = exhausted (one_failed e a failed) r

  module _ (u : T) (us : List (T)) (last : Option DohError) (s : S) {s' : S} where
    try_each-ok :
        {resp : M} → ask u s ≡ (ok resp, s') → try_each nobody ask (u ∷ us) last s ≡ (ok resp, s')
    unfolding try_each
    try_each-ok a = ground arith

    try_each-panic : ask u s ≡ (panic, s') → try_each nobody ask (u ∷ us) last s ≡ (panic, s')
    unfolding try_each
    try_each-panic a = ground arith

    try_each-err :
        {e : DohError}
        → ask u s ≡ (err e, s')
        → try_each nobody ask (u ∷ us) last s ≡ try_each nobody ask us (some e) s'
    unfolding try_each
    try_each-err a = ground arith

  try_each-step :
      (u : T) (us : List (T)) (last : Option DohError) (s s' : S) (r : Result M)
      → ask u s ≡ (r, s')
      → ((e : DohError)
          → Ends us
              (some e)
              s'
              (try_each nobody ask us (some e) s').0
              (try_each nobody ask us (some e) s').1)
      → Ends
          (u ∷ us)
          last
          s
          (try_each nobody ask (u ∷ us) last s).0
          (try_each nobody ask (u ∷ us) last s).1
  try_each-step u us last s s' (ok resp) a rest =
      rw (try_each-ok u us last s a) (answered [] us u refl none_asked a)
  try_each-step u us last s s' (err e) a rest =
      rw (try_each-err u us last s a) (Ends-cons e a (rest e))
  try_each-step u us last s s' panic a rest =
      rw (try_each-panic u us last s a) (crashed [] us u refl none_asked a)

  -- The loop always ends with the first answer, with a panic, or with every upstream asked once.
  pub try_each-Ends :
      (us : List (T)) (last : Option DohError) (s : S)
      → Ends us last s (try_each nobody ask us last s).0 (try_each nobody ask us last s).1
  unfolding try_each
  try_each-Ends [] last s = exhausted none_asked refl
  try_each-Ends (u ∷ us) last s =
      try_each-step u us last s (ask u s).1 (ask u s).0 refl
        (λ e. try_each-Ends us (some e) (ask u s).1)

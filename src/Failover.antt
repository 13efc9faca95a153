-- ===== src/Failover.antt =====
-- The loops that try one thing after the other until one succeeds: the upstreams of a query
-- (src/client/upstream_config.rs) and the addresses of a host (src/client/bootstrap.rs).
pub mod Ends
pub mod Outcome
use dnsproxy_rs.Error.{DohError, Result, ok, err, panic}
use dnsproxy_rs.Prelude.{List, [], ◌∷◌, Option, none, some}

-- The loop, over any way to ask one of them in a state `S`; `nobody` is the error of the empty list.
module _ {M T S : Type 0} (nobody : DohError) (ask : T → S → Result M × S) where
  abbrev pub last_or : Option DohError → Result M
  last_or none = err (nobody)
  last_or (some e) = err e

  unfoldable pub try_each : List (T) → Option DohError → S → Result M × S
  try_each [] last_err s = (last_or last_err, s)
  try_each (u ∷ us) last_err s =
      let (r, s') = ask u s in
      let rest = λ (e : DohError). try_each us (some e) s' in
      elim r [ ok resp ↦ (ok resp, s') | err e ↦ rest e | panic ↦ (panic, s') ]

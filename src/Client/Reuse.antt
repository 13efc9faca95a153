-- ===== src/Client/Reuse.antt =====
-- What `DoqUpstream::exchange` (src/client/doq.rs), `DohUpstream::exchange` and `exchange_h3`
-- (src/client/doh.rs) do with a connection that is kept from one exchange to the next. The state is
-- what the mutex holds, beside the world.
pub mod Attempts
pub mod Yields
use dnsproxy_rs.Error.{DohError, should_retry, Result, ok, err, panic}
use dnsproxy_rs.Exec.{Exec}
use dnsproxy_rs.Prelude.{Bool, true, false, ◌&&◌, Option, none, some, if◌then◌else◌}

-- A kept connection of type `C`, in a world `W`; answers are of type `M`. `open` makes a connection,
-- `renew` makes the one for a retry, and `attempt` asks over a connection, which it may change.
module _ {C W M : Type 0} (open_new : Exec W C) (renew : C → Exec W C)
    (attempt : C → W → Result M × C × W) where
  unfoldable pub keep_new : Result C → W → Result (C × Bool) × Option C × W
  keep_new panic w = (panic, none, w)
  keep_new (err e) w = (err e, none, w)
  keep_new (ok c) w = (ok (c, false), some c, w)

  -- the connection, and whether it was kept: `get_conn`, `get_client` and `get_h3_transport`
  unfoldable pub get : Option C → W → Result (C × Bool) × Option C × W
  unfolding keep_new
  get (some c) w = (ok (c, true), some c, w)
  get none w = let (r, w') = open_new w in keep_new r w'

  unfoldable pub retry_on : C → Result C → W → Result M × Option C × W
  retry_on c panic w = (panic, some c, w)
  retry_on c (err e) w = (err e, some c, w)
  retry_on c (ok d) w = let (r, d', w') = attempt d w in (r, some d', w')

  -- the retry over a new connection, which replaces the kept one
  unfoldable pub retry : C → W → Result M × Option C × W
  unfolding retry_on
  retry c w = let (r, w') = renew c w in retry_on c r w'

  -- behind the first attempt
  unfoldable pub settle : Bool → Result M → C → W → Result M × Option C × W
  unfolding retry
  settle was_cached panic c w = (panic, some c, w)
  settle was_cached (ok m) c w = (ok m, some c, w)
  settle was_cached (err e) c w =
      let again = retry c w in if was_cached && should_retry e then again else (err e, none, w)

  unfoldable pub exchange_with : Result (C × Bool) × Option C × W → Result M × Option C × W
  unfolding settle
  exchange_with (panic, kept, w) = (panic, kept, w)
  exchange_with (err e, kept, w) = (err e, kept, w)
  exchange_with (ok (c, was_cached), kept, w) =
      let (r, c', w') = attempt c w in settle was_cached r c' w'

  unfoldable pub exchange : Option C → W → Result M × Option C × W
  unfolding exchange_with get
  exchange kept w = exchange_with (get kept w)

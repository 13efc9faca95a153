-- ===== src/UpstreamConfig/Exchange.antt =====
-- `UpstreamConfig::exchange`: the upstreams of a query's name, one after the other.
pub mod Failover
pub mod Outcome
use dnsproxy_rs.Dns.{Hickory, Message, Query}
use dnsproxy_rs.Error.{DohError, bootstrap, no_upstreams, Result, ok, err, panic}
use dnsproxy_rs.Failover.{try_each}
use dnsproxy_rs.Prelude.Text.{Text}
use dnsproxy_rs.Prelude.{ℕ, List, [], ◌∷◌, Option, none, some}
use dnsproxy_rs.Upstream
use dnsproxy_rs.Upstream.{Floats, Tracked, Latencies}
use dnsproxy_rs.UpstreamConfig.Order.{upstreams_for}
use dnsproxy_rs.UpstreamConfig.{Config}

module _ {h : Hickory} {U W : Type 0} (to_ascii : h.Name → Text) (f : Floats)
    (inner : U → Message h → W → Result (Message h) × W) (elapsed : Tracked U → W → ℕ)
    (shuffle : List (Tracked U) → List (Tracked U)) where
  abbrev pub query_name : List (Query h) → Text
  query_name [] = []
  query_name (q ∷ qs) = to_ascii q.name

  abbrev pub ask : Message h → Tracked U → Latencies × W → Result (Message h) × (Latencies × W)
  ask req u (l, w) = Upstream.exchange f inner u (elapsed u w) req (l, w)

  unfoldable pub exchange :
      Config U → Message h → Latencies × W → Result (Message h) × Config U × (Latencies × W)
  unfolding upstreams_for try_each Upstream.exchange
  exchange c req (l, w) =
      let (us, c') = upstreams_for shuffle l c (query_name req.queries) in
      let (r, s) = try_each (bootstrap no_upstreams) (ask req) us none (l, w) in (r, c', s)

  -- the handler of `into_handler`, whose state is the configuration too
  unfoldable pub handle :
      Message h → Config U × (Latencies × W) → Result (Message h) × (Config U × (Latencies × W))
  unfolding exchange
  handle req (c, s) = let (r, c', s') = exchange c req s in (r, (c', s'))

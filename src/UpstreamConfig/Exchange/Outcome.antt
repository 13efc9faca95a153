-- ===== src/UpstreamConfig/Exchange/Outcome.antt =====
-- What a query through the configuration returns, by what its upstreams return.
use mathlib.Core.List.{Mem, Perm}
use mathlib.Core.List.Perm
use dnsproxy_rs.Dns.{Hickory, Message}
use dnsproxy_rs.Error.{Result, ok, panic, is_ok}
use dnsproxy_rs.Failover.Outcome.{Ends-sound, Ends-ok}
use dnsproxy_rs.Prelude.Text.{Text}
use dnsproxy_rs.Prelude.{ℕ, ◌≡◌, ◌≢◌, true, List, none}
use dnsproxy_rs.Upstream
use dnsproxy_rs.Upstream.{Floats, Tracked, Latencies}
use dnsproxy_rs.UpstreamConfig.Exchange.Failover.{exchange-Exchanged, upstreams_for-perm}
use dnsproxy_rs.UpstreamConfig.Order.{upstreams_for}
use dnsproxy_rs.Failover.Ends.{try_each-Ends}
use dnsproxy_rs.UpstreamConfig.Exchange.{query_name, ask, exchange}
use dnsproxy_rs.UpstreamConfig.Lookup.{group_for}
use dnsproxy_rs.UpstreamConfig.{Config}
use dnsproxy_rs.Error.{bootstrap, no_upstreams}

module _ {h : Hickory} {U W : Type 0} (to_ascii : h.Name → Text) (f : Floats)
    (inner : U → Message h → W → Result (Message h) × W) (elapsed : Tracked U → W → ℕ)
    (shuffle : List (Tracked U) → List (Tracked U))
    (shuffled : (us : List (Tracked U)) → Perm (shuffle us) us) (c : Config U) (req : Message h)
    (l : Latencies) (w : W) where
  -- What the configuration returns, one of its upstreams returned.
  pub exchange-sound :
      (P : Message h → Type 0)
      → ((u : U) (w : W) (m : Message h) → (inner u req w).0 ≡ ok m → P m)
      → (m : Message h) → (exchange to_ascii f inner elapsed shuffle c req (l, w)).0 ≡ ok m
      → P m
  unfolding Upstream.exchange
  exchange-sound P sound m e =
      Ends-sound (bootstrap no_upstreams) (ask to_ascii f inner elapsed shuffle req) P
        (λ u s m e. sound u.upstream s.1 m e)
        (exchange-Exchanged to_ascii f inner elapsed shuffle shuffled c req l w).ends e

  -- If shuffle permutes, some upstream of the group that the query is routed to answers whenever it
  -- is asked, and no upstream panics, then the query is answered: whatever the mode, the cursor and
  -- the latencies are, and however the other upstreams fail.
  pub exchange-ok :
      (u : Tracked U)
      → Mem u (group_for c (query_name to_ascii f inner elapsed shuffle req.queries)).upstreams
      → ((w : W) → is_ok (inner u.upstream req w).0 ≡ true)
      → ((v : U) (w : W) → (inner v req w).0 ≢ panic)
      → is_ok (exchange to_ascii f inner elapsed shuffle c req (l, w)).0 ≡ true
  unfolding exchange Upstream.exchange
  exchange-ok u member live safe =
      let name = query_name to_ascii f inner elapsed shuffle req.queries in
      let asking = ask to_ascii f inner elapsed shuffle req in
      Ends-ok (bootstrap no_upstreams) asking u
        (try_each-Ends (bootstrap no_upstreams) asking (upstreams_for shuffle l c name).0 none
          (l, w))
        ((Perm.mem_iff (upstreams_for-perm shuffle l shuffled c name)).1 member) (λ s. live s.1)
        (λ v s. safe v.upstream s.1)

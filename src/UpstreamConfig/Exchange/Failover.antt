-- ===== src/UpstreamConfig/Exchange/Failover.antt =====
-- The failover of a query from upstream to upstream.
use mathlib.Core.List.{Perm}
use dnsproxy_rs.Dns.{Hickory, Message}
use dnsproxy_rs.Error.{bootstrap, no_upstreams, Result}
use dnsproxy_rs.Prelude.Text.{Text, to_ascii_lowercase}
use dnsproxy_rs.Prelude.{ℕ, ◌≢◌, refl, List, none}
use dnsproxy_rs.Upstream.{Floats, Tracked, Latencies}
use dnsproxy_rs.Failover.Ends.{Ends, try_each-Ends}
use dnsproxy_rs.UpstreamConfig.Exchange.{query_name, ask, exchange}
use dnsproxy_rs.UpstreamConfig.Lookup.Routing.{Routes, group_for-Routes}
use dnsproxy_rs.UpstreamConfig.Lookup.{
  Search, found, unmatched, stuck, rule_for, or_default, group_for,
}
use dnsproxy_rs.UpstreamConfig.Lookup.Specific.{rule_for-ne-stuck}
use dnsproxy_rs.UpstreamConfig.Order.All.{ordered_by-perm}
use dnsproxy_rs.UpstreamConfig.Order.{upstreams_in, upstreams_for}
use dnsproxy_rs.UpstreamConfig.{Group, Config}

module _ {U : Type 0} (shuffle : List (Tracked U) → List (Tracked U)) (l : Latencies)
    (shuffled : (us : List (Tracked U)) → Perm (shuffle us) us) where
  upstreams_in-perm :
      (c : Config U) (r : Search (Group U))
      → r ≢ stuck
      → Perm (upstreams_in shuffle l c r).0 (or_default r c.default_upstreams).upstreams
  unfolding upstreams_in
  upstreams_in-perm c (found d g) e = (ordered_by-perm shuffle l shuffled c.mode g).0
  upstreams_in-perm c unmatched e =
      (ordered_by-perm shuffle l shuffled c.mode c.default_upstreams).0
  upstreams_in-perm c stuck e = absurd (e refl)

  -- The upstreams for a name are those of the name's group, each as often as the group lists it.
  pub upstreams_for-perm :
      (c : Config U) (fqdn : Text)
      → Perm (upstreams_for shuffle l c fqdn).0 (group_for c fqdn).upstreams
  unfolding upstreams_for group_for
  upstreams_for-perm c fqdn =
      upstreams_in-perm c (rule_for c.domain_upstreams fqdn)
        (rule_for-ne-stuck c.domain_upstreams fqdn)

module _ {h : Hickory} {U W : Type 0} (to_ascii : h.Name → Text) (f : Floats)
    (inner : U → Message h → W → Result (Message h) × W) (elapsed : Tracked U → W → ℕ)
    (shuffle : List (Tracked U) → List (Tracked U))
    (shuffled : (us : List (Tracked U)) → Perm (shuffle us) us) where
  -- What a query through the configuration does.
  pub record Exchanged (c : Config U) (req : Message h) (s : Latencies × W) (r : Result (Message h))
      (s' : Latencies × W) : Type 0 where
    pub group : Group U
    pub routed :
        Routes c.domain_upstreams c.default_upstreams
          (to_ascii_lowercase (query_name to_ascii f inner elapsed shuffle req.queries))
          group
    pub tried : List (Tracked U)
    pub whole_group : Perm tried group.upstreams
    pub ends :
        Ends (bootstrap no_upstreams) (ask to_ascii f inner elapsed shuffle req) tried none s r s'

  -- If shuffle permutes: a query is routed by the most specific rule of its name; the upstreams of that rule's group are
  -- asked one after the other, each once, until one answers, and the last error is returned if none
  -- does.
  pub exchange-Exchanged :
      (c : Config U) (req : Message h) (l : Latencies) (w : W)
      → let r = exchange to_ascii f inner elapsed shuffle c req (l, w) in
        Exchanged c req (l, w) r.0 r.2
  unfolding exchange
  exchange-Exchanged c req l w =
      let name = query_name to_ascii f inner elapsed shuffle req.queries in
      record {
        group = group_for c name;
        routed = group_for-Routes c name;
        tried = (upstreams_for shuffle l c name).0;
        whole_group = upstreams_for-perm shuffle l shuffled c name;
        ends =
            try_each-Ends (bootstrap no_upstreams) (ask to_ascii f inner elapsed shuffle req)
              (upstreams_for shuffle l c name).0 none (l, w);
      }

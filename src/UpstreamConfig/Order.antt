-- ===== src/UpstreamConfig/Order.antt =====
-- `UpstreamGroup::ordered` and `UpstreamConfig::upstreams_for`. A call that rotates the group
-- returns it with the cursor moved.
pub mod Rotation
pub mod All
use dnsproxy_rs.Prelude.Text.{Text}
use dnsproxy_rs.Prelude.Sort.{sort_by}
use dnsproxy_rs.Prelude.{
  ℕ, ◌+◌, ◌%◌, ◌^◌, Bool, true, false, List, [], ◌∷◌, ◌++◌, Option, none, some, length, leb, take,
  drop, if◌then◌else◌,
}
use dnsproxy_rs.Upstream.{Tracked, Latencies, average}
use dnsproxy_rs.UpstreamConfig.Lookup.{Search, found, unmatched, stuck, rule_for}
use dnsproxy_rs.UpstreamConfig.{
  Mode, ordered, round_robin, load_balance, Group, Map, change, Config,
}

-- `Option`'s order, with `None` first
abbrev pub option_le : Option ℕ → Option ℕ → Bool
option_le none b = true
option_le (some a) none = false
option_le (some a) (some b) = leb a b

abbrev pub is_some : Option ℕ → Bool
is_some none = false
is_some (some a) = true

module _ {U : Type 0} where
  unfoldable pub rotated : ℕ → List (Tracked U) → List (Tracked U)
  rotated cursor us = let start = cursor % length us in drop start us ++ take start us

  -- The arm of the mode `RoundRobin`, on the group's upstreams; `fetch_add` wraps around.
  unfoldable pub next_round : Group U → List (Tracked U) → List (Tracked U) × Group U
  unfolding rotated
  next_round g [] = ([], g)
  next_round g (u ∷ us) = (
    rotated g.round_robin_cursor (u ∷ us),
    record g { round_robin_cursor = (g.round_robin_cursor + 1) % 2 ^ 64 },
  )

module _ {U : Type 0} (shuffle : List (Tracked U) → List (Tracked U)) (l : Latencies) where
  abbrev pub latency : Tracked U → Option ℕ
  latency u = average (l u.id)

  -- the loop that fills `tested` and `untested`
  unfoldable pub tested : List (Tracked U) → List (Tracked U)
  tested [] = []
  tested (u ∷ us) = if is_some (latency u) then u ∷ tested us else tested us

  unfoldable pub untested : List (Tracked U) → List (Tracked U)
  untested [] = []
  untested (u ∷ us) = if is_some (latency u) then untested us else u ∷ untested us

  unfoldable pub balanced : List (Tracked U) → List (Tracked U)
  unfolding tested untested sort_by
  balanced us =
      shuffle (untested us) ++ sort_by (λ u v. option_le (latency u) (latency v)) (tested us)

  unfoldable pub ordered_by : Mode → Group U → List (Tracked U) × Group U
  unfolding balanced next_round
  ordered_by ordered g = (g.upstreams, g)
  ordered_by round_robin g = next_round g g.upstreams
  ordered_by load_balance g = (balanced g.upstreams, g)

  unfoldable pub upstreams_in : Config U → Search (Group U) → List (Tracked U) × Config U
  unfolding ordered_by change
  upstreams_in c (found d g) =
      let (us, g') = ordered_by c.mode g in
      (us, record c { domain_upstreams = change d g' (λ _. g') c.domain_upstreams })
  upstreams_in c unmatched =
      let (us, g') = ordered_by c.mode c.default_upstreams in
      (us, record c { default_upstreams = g' })
  upstreams_in c stuck = ([], c)

  unfoldable pub upstreams_for : Config U → Text → List (Tracked U) × Config U
  unfolding upstreams_in rule_for
  upstreams_for c fqdn = upstreams_in c (rule_for c.domain_upstreams fqdn)

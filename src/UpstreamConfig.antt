-- ===== src/UpstreamConfig.antt =====
-- src/client/upstream_config.rs: the upstream list, its rules, and how a query is routed. The
-- `HashMap` of rules is an association list, and so is the index that shares equal upstreams.
pub mod Maps
pub mod Line
pub mod Parse
pub mod Lookup
pub mod Order
pub mod Exchange
use dnsproxy_rs.Prelude.Text.{Text, text_eq}
use dnsproxy_rs.Prelude.{
  ℕ, ◌+◌, ◌%◌, ◌^◌, Bool, true, false, List, [], ◌∷◌, ◌++◌, Option, none, some, if◌then◌else◌,
}
use dnsproxy_rs.Upstream.{Tracked}

-- `UpstreamMode`
pub data Mode : Type 0 where
  ordered round_robin load_balance : Mode

-- `UpstreamGroup`
pub record Group (U : Type 0) : Type 0 where
  pub upstreams : List (Tracked U)
  pub round_robin_cursor : ℕ

-- A `HashMap` keyed by text: `get`, and `insert` or the change of an entry in place.
abbrev pub Map : Type 0 → Type 0
Map V = List (Text × V)

module _ {V : Type 0} where
  unfoldable pub lookup : Text → Map V → Option V
  lookup k [] = none
  lookup k ((j, v) ∷ m) = if text_eq j k then some v else lookup k m

  -- `entry(k).or_insert(d)` with the change `f`
  unfoldable pub change : Text → V → (V → V) → Map V → Map V
  change k d f [] = (k, f d) ∷ []
  change k d f ((j, v) ∷ m) = if text_eq j k then (j, f v) ∷ m else (j, v) ∷ change k d f m

module _ {U : Type 0} where
  abbrev pub empty_group : Group U
  empty_group = record { upstreams = []; round_robin_cursor = 0 }

  -- `UpstreamGroup::push`
  abbrev pub push : Tracked U → Group U → Group U
  push u g = record g { upstreams = g.upstreams ++ u ∷ [] }

-- `UpstreamConfig`
pub record Config (U : Type 0) : Type 0 where
  pub domain_upstreams : Map (Group U)
  pub default_upstreams : Group U
  pub mode : Mode

-- ===== src/UpstreamConfig/Lookup.antt =====
-- `UpstreamConfig::group_for`: the rule of the most specific domain, or the default group.
pub mod Specific
pub mod Routing
use dnsproxy_rs.Prelude.Text.{Text, is_empty, split_once_char, to_ascii_lowercase}
use dnsproxy_rs.Prelude.{
  ℕ, zero, suc, ◌≤◌, ◌<◌, ◌≡◌, refl, ◌⊎◌, inl, inr, true, false, List, [], ◌∷◌, Option, none, some,
  ◌==◌, if◌then◌else◌, length, arith, Bool-cases, Option-cases,
}
use dnsproxy_rs.UpstreamConfig.{Group, Map, lookup, Config}

-- How the search ends; `stuck` means that the fuel ran out.
pub data Search (V : Type 0) : Type 0 where
  found : Text → V → Search V
  unmatched : Search V
  stuck : Search V

-- where the loop goes on: the part behind the first dot, unless it is empty
unfoldable pub parent : Option (Text × Text) → Option Text
parent none = none
parent (some (label, [])) = none
parent (some (label, c ∷ cs)) = some (c ∷ cs)

module _ {V : Type 0} where
  -- the loop of `group_for`
  unfoldable pub search_rules : ℕ → Map V → Text → Search V
  unfolding lookup parent split_once_char
  search_rules zero rules suffix = stuck
  search_rules (suc fuel) rules suffix = elim (lookup suffix rules) [
    | some v ↦ found suffix v
    | none ↦ elim (parent (split_once_char b'.' suffix)) [
      | none ↦ unmatched
      | some rest ↦ search_rules fuel rules rest
    ]
  ]

  -- the search from the lowercased name
  unfoldable pub rule_for : Map V → Text → Search V
  unfolding search_rules to_ascii_lowercase
  rule_for [] fqdn = unmatched
  rule_for (r ∷ rules) fqdn =
      let lower = to_ascii_lowercase fqdn in search_rules (suc (length lower)) (r ∷ rules) lower

module _ {U : Type 0} where
  abbrev pub or_default : Search (Group U) → Group U → Group U
  or_default (found s g) d = g
  or_default unmatched d = d
  or_default stuck d = d

  unfoldable pub group_for : Config U → Text → Group U
  unfolding rule_for
  group_for c fqdn = or_default (rule_for c.domain_upstreams fqdn) c.default_upstreams

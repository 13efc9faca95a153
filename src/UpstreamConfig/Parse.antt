-- ===== src/UpstreamConfig/Parse.antt =====
-- `UpstreamConfig::parse_with_mode`: the loop over the lines of the upstream list.
pub mod Errors
pub mod Groups
pub mod Refinement
pub mod Known
pub mod Sharing
use dnsproxy_rs.Prelude.Text.{Text, is_empty, trim}
use dnsproxy_rs.Prelude.{
  ℕ, ◌+◌, Bool, true, false, ◌||◌, List, [], ◌∷◌, ◌++◌, Option, none, some, ◌==◌, if◌then◌else◌,
}
use dnsproxy_rs.Upstream.{Tracked}
use dnsproxy_rs.UpstreamConfig.Line.{LineError, Split, parts, refused, split_config_line}
use dnsproxy_rs.UpstreamConfig.{
  Mode, ordered, Group, Map, lookup, change, empty_group, push, Config,
}

-- What `parse_any_upstream` returns; `E` are its messages.
pub data Parsed (E U : Type 0) : Type 0 where
  built : U → Parsed E U
  failed : E → Parsed E U

pub data ConfigError (E : Type 0) : Type 0 where
  line : LineError → ConfigError E
  upstream : Text → E → ConfigError E

-- The variables of the loop; `next` numbers the allocations.
pub record State (E U : Type 0) : Type 0 where
  pub upstream_index : Map (Tracked U)
  pub domain_upstreams : Map (Group U)
  pub default_upstreams : Group U
  pub errors : List (ℕ × ConfigError E)
  pub next : ℕ

pub data Outcome (E U : Type 0) : Type 0 where
  config : Config U → Outcome E U
  rejected : List (ℕ × ConfigError E) → Outcome E U

-- `line.is_empty() || line.starts_with('#')`
unfoldable pub is_skipped : Text → Bool
is_skipped [] = true
is_skipped (c ∷ cs) = c == b'#'

module _ {U : Type 0} where
  -- the loop `for domain in &domains`
  unfoldable pub push_domains : List Text → Tracked U → Map (Group U) → Map (Group U)
  unfolding change
  push_domains [] u m = m
  push_domains (d ∷ ds) u m = push_domains ds u (change d empty_group (push u) m)

module _ {E U : Type 0} where
  abbrev pub start : State E U
  start = record {
    upstream_index = [];
    domain_upstreams = [];
    default_upstreams = empty_group;
    errors = [];
    next = 0;
  }

  -- Registers the upstream as a default, or under each domain.
  unfoldable pub register : List Text → Tracked U → State E U → State E U
  unfolding push_domains
  register [] u s = record s { default_upstreams = push u s.default_upstreams }
  register (d ∷ ds) u s = record s { domain_upstreams = push_domains (d ∷ ds) u s.domain_upstreams }

  abbrev pub report : ℕ → ConfigError E → State E U → State E U
  report idx e s = record s { errors = s.errors ++ (idx, e) ∷ [] }

module _ {E U : Type 0} (parse_any_upstream : Text → Parsed E U) where
  unfoldable pub build : ℕ → List Text → Text → Parsed E U → State E U → State E U
  unfolding register change
  build idx domains u (failed e) s = report idx (upstream u e) s
  build idx domains u (built b) s =
      let t : Tracked U = record { id = s.next; upstream = b } in
      register domains t
        (record s { upstream_index = change u t (λ _. t) s.upstream_index; next = s.next + 1 })

  -- One pass of `for u in &upstream_strs`.
  unfoldable pub add_upstream : ℕ → List Text → Text → State E U → State E U
  unfolding build lookup
  add_upstream idx domains u s = elim (lookup u s.upstream_index) [
    | some existing ↦ register domains existing s
    | none ↦ build idx domains u (parse_any_upstream u) s
  ]

  unfoldable pub add_upstreams : ℕ → List Text → List Text → State E U → State E U
  unfolding add_upstream
  add_upstreams idx domains [] s = s
  add_upstreams idx domains (u ∷ us) s = add_upstreams idx domains us (add_upstream idx domains u s)

  unfoldable pub add_split : ℕ → Split → State E U → State E U
  unfolding add_upstreams
  add_split idx (refused e) s = report idx (line e) s
  add_split idx (parts upstream_strs domains) s = add_upstreams idx domains upstream_strs s

  -- One pass of the loop over the lines.
  unfoldable pub add_line : ℕ → Text → State E U → State E U
  unfolding add_split is_skipped split_config_line trim
  add_line idx l s = if is_skipped (trim l) then s else add_split idx (split_config_line (trim l)) s

  unfoldable pub add_lines : ℕ → List Text → State E U → State E U
  unfolding add_line
  add_lines idx [] s = s
  add_lines idx (l ∷ ls) s = add_lines (idx + 1) ls (add_line idx l s)

  unfoldable pub finish : Mode → State E U → List (ℕ × ConfigError E) → Outcome E U
  finish mode s [] = config (record {
    domain_upstreams = s.domain_upstreams;
    default_upstreams = s.default_upstreams;
    mode = mode;
  })
  finish mode s (e ∷ es) = rejected (e ∷ es)

  unfoldable pub parse_with_mode : List Text → Mode → Outcome E U
  unfolding add_lines finish
  parse_with_mode lines mode = let s = add_lines 0 lines start in finish mode s s.errors

  -- `UpstreamConfig::parse`
  unfoldable pub parse : List Text → Outcome E U
  unfolding parse_with_mode
  parse lines = parse_with_mode lines ordered

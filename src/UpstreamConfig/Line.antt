-- ===== src/UpstreamConfig/Line.antt =====
-- `split_config_line`: one line of the upstream list.
use dnsproxy_rs.Prelude.Text.{
  Text, strip_prefix, split_once, split, split_whitespace, to_ascii_lowercase,
}
use dnsproxy_rs.Prelude.{List, [], ◌∷◌, ◌++◌, Option, none, some}

-- The messages of a refused line.
pub data LineError : Type 0 where
  missing_bracket no_upstreams empty_domain : LineError

pub data Split : Type 0 where
  -- upstreams and domains
  parts : List Text → List Text → Split
  refused : LineError → Split

-- the loop over the domains
abbrev pub more_domain : Text → Option (List Text) → Option (List Text)
more_domain d none = none
more_domain d (some ds) = some (d ∷ ds)

unfoldable pub domains_of : List Text → Option (List Text)
unfolding to_ascii_lowercase
domains_of [] = some []
domains_of ([] ∷ hosts) = none
domains_of ((c ∷ cs) ∷ hosts) =
    more_domain (to_ascii_lowercase (c ∷ cs) ++ b'.' ∷ []) (domains_of hosts)

unfoldable pub split_rule : Text → Text → Split
unfolding domains_of split split_whitespace
split_rule domains_part [] = refused no_upstreams
split_rule domains_part (c ∷ cs) = elim (domains_of (split b'/' domains_part)) [
  | none ↦ refused empty_domain
  | some domains ↦ parts (split_whitespace (c ∷ cs)) domains
]

unfoldable pub split_config_line : Text → Split
unfolding strip_prefix split_once split_rule
split_config_line line = elim (strip_prefix (b'[' ∷ b'/' ∷ []) line) [
  | none ↦ parts (line ∷ []) []
  | some rest ↦ elim (split_once (b'/' ∷ b']' ∷ []) rest) [
    | none ↦ refused missing_bracket
    | some (domains_part, upstreams_part) ↦ split_rule domains_part upstreams_part
  ]
]

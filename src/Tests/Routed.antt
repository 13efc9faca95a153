-- ===== src/Tests/Routed.antt =====
-- A configuration of three upstreams, of which the first answers no query.
use mathlib.Core.List.Perm
use mathlib.Core.List.{Mem, mem-cons_self, mem-cons_of_mem}
use dnsproxy_rs.UpstreamConfig.Exchange.Outcome.{exchange-ok}
use dnsproxy_rs.Dns.{Message}
use dnsproxy_rs.Error.{Result, ok, err, pack, panic, is_ok}
use dnsproxy_rs.Prelude.{
  ℕ, zero, suc, ◌+◌, ◌*◌, ◌%◌, ◌^◌, ◌<◌, ◌≡◌, refl, ◌≢◌, true, ◌↔◌, List, [], ◌∷◌, get_elem?, arith,
}
use dnsproxy_rs.Prelude.Text.{Text, text_eq, codes, to_ascii_lowercase}
use dnsproxy_rs.Tests.{names, request, reply}
use dnsproxy_rs.Upstream.{Floats, Tracked, Latencies, u64_max, average_with}
use dnsproxy_rs.UpstreamConfig.Exchange.Failover.{Exchanged, exchange-Exchanged}
use dnsproxy_rs.UpstreamConfig.Exchange.{exchange}
use dnsproxy_rs.UpstreamConfig.Lookup.Routing.{Routes, group_for-Routes}
use dnsproxy_rs.UpstreamConfig.Lookup.Specific.{rule_for-ne-stuck}
use dnsproxy_rs.UpstreamConfig.Lookup.{stuck, rule_for, group_for}
use dnsproxy_rs.UpstreamConfig.Order.All.{IsBalanced, ordered_by-IsBalanced}
use dnsproxy_rs.UpstreamConfig.Order.Rotation.{rounds, rounds-ordered_by}
use dnsproxy_rs.UpstreamConfig.Order.{ordered_by}
use dnsproxy_rs.UpstreamConfig.Parse.Errors.{all_errors, parse-errors_iff}
use dnsproxy_rs.UpstreamConfig.Parse.Sharing.{Accepted, parse_with_mode-Accepted}
use dnsproxy_rs.UpstreamConfig.Parse.{
  Parsed, built, failed, ConfigError, line, config, rejected, parse_with_mode,
}
use dnsproxy_rs.UpstreamConfig.Line.{missing_bracket}
use dnsproxy_rs.UpstreamConfig.{ordered, round_robin, load_balance, Group, Config}

-- arithmetic on whole numbers: the average is the older value
abbrev pub whole : Floats
whole = record {
  F64 = ℕ;
  from_u64 = λ n. n;
  to_u64 = λ n. n;
  one = 1;
  ema_alpha = 0;
  plus = ◌+◌;
  minus = λ a b. a;
  times = ◌*◌;
  round = λ n. n;
}

abbrev tracked : ℕ → Tracked ℕ
tracked n = record { id = n; upstream = n }

abbrev example_group : Group ℕ
example_group = record { upstreams = tracked 0 ∷ tracked 1 ∷ []; round_robin_cursor = 0 }

abbrev example_config : Config ℕ
example_config = record {
  domain_upstreams = (codes "example.com", example_group) ∷ [];
  default_upstreams = record { upstreams = tracked 2 ∷ []; round_robin_cursor = 0 };
  mode = round_robin;
}

-- the first upstream fails
abbrev asked : ℕ → Message names → ℕ → Result (Message names) × ℕ
asked zero req w = (err pack, suc w)
asked (suc n) req w = (ok (reply req.id), suc w)

abbrev unmeasured : Latencies
unmeasured n = u64_max

abbrev pub as_is : List (Tracked ℕ) → List (Tracked ℕ)
as_is us = us

abbrev pub name_text : Text → Text
name_text name = name

exchange-Exchanged_example :
    let r =
      exchange name_text whole asked
        (λ u w. 5000)
        as_is
        example_config
        (request 3)
        (unmeasured, 0) in
    Exchanged name_text whole asked
      (λ u w. 5000)
      as_is
      Perm.refl
      example_config
      (request 3)
      (unmeasured, 0)
      r.0
      r.2
exchange-Exchanged_example =
    exchange-Exchanged name_text whole asked (λ u w. 5000) as_is Perm.refl example_config
      (request 3) unmeasured 0

member : Mem (tracked 1) example_group.upstreams
member = mem-cons_of_mem (tracked 0) mem-cons_self

answering : (w : ℕ) → is_ok (asked 1 (request 3) w).0 ≡ true
answering w = refl

no_panic : (v w : ℕ) → (asked v (request 3) w).0 ≢ panic
no_panic zero w e = cc e
no_panic (suc v) w e = cc e

exchange-ok_example :
    is_ok
      (exchange name_text whole asked
        (λ u w. 5000)
        as_is
        example_config
        (request 3)
        (unmeasured, 0)).0
    ≡ true
unfolding group_for text_eq
exchange-ok_example =
    exchange-ok name_text whole asked (λ u w. 5000) as_is Perm.refl example_config (request 3)
      unmeasured 0 (tracked 1) member answering no_panic

group_for-Routes_example :
    Routes example_config.domain_upstreams example_config.default_upstreams
      (to_ascii_lowercase (codes "WWW.Example.com"))
      (group_for example_config (codes "WWW.Example.com"))
group_for-Routes_example = group_for-Routes example_config (codes "WWW.Example.com")

rule_for-ne-stuck_example :
    rule_for example_config.domain_upstreams (codes "WWW.Example.com") ≢ stuck
rule_for-ne-stuck_example =
    rule_for-ne-stuck example_config.domain_upstreams (codes "WWW.Example.com")

ordered_by-IsBalanced_example :
    IsBalanced as_is unmeasured Perm.refl example_group.upstreams
      (ordered_by as_is unmeasured load_balance example_group).0
ordered_by-IsBalanced_example = ordered_by-IsBalanced as_is unmeasured Perm.refl example_group

rounds-ordered_by_example :
    get_elem?
      (ordered_by as_is unmeasured round_robin (rounds as_is unmeasured 3 example_group)).0
      1
    ≡ get_elem? example_group.upstreams ((0 + 3 + 1) % 2)
rounds-ordered_by_example =
    rounds-ordered_by as_is unmeasured 3 example_group 1 (omega arith) (omega arith)

abbrev times : List ℕ
times = 7_000_000 ∷ 9_000_000 ∷ []

kept : (prev sample : ℕ) → prev < 2 ^ 50 → sample < 2 ^ 50 → average_with whole prev sample < 2 ^ 50
unfolding average_with
kept prev sample p s = omega arith

-- an upstream's text is accepted if it is not empty
abbrev from_text : Text → Parsed Text Text
from_text [] = failed []
from_text (c ∷ cs) = built (c ∷ cs)

abbrev good_lines : List Text
good_lines = codes "# upstreams" ∷ codes "9.9.9.9" ∷ codes "[/example.com/]9.9.9.9 1.1.1.1" ∷ []

abbrev good_config : Config Text
good_config =
    let nine : Tracked Text = record { id = 0; upstream = codes "9.9.9.9" } in
    let one : Tracked Text = record { id = 1; upstream = codes "1.1.1.1" } in
    record {
      domain_upstreams =
          (codes "example.com.", record { upstreams = nine ∷ one ∷ []; round_robin_cursor = 0 })
          ∷ [];
      default_upstreams = record { upstreams = nine ∷ []; round_robin_cursor = 0 };
      mode = ordered;
    }

good_lines_parse : parse_with_mode from_text good_lines ordered ≡ config good_config
unfolding parse_with_mode text_eq
good_lines_parse = refl

parse_with_mode-Accepted_example : Accepted from_text good_lines ordered good_config
parse_with_mode-Accepted_example =
    parse_with_mode-Accepted from_text good_lines ordered good_lines_parse

abbrev bad_lines : List Text
bad_lines = codes "9.9.9.9" ∷ codes "[/example.com" ∷ []

abbrev bracket_errors : List (ℕ × ConfigError Text)
bracket_errors = (1, line missing_bracket) ∷ []

bad_lines_parse : parse_with_mode from_text bad_lines ordered ≡ rejected bracket_errors
unfolding parse_with_mode text_eq
bad_lines_parse = refl

parse-errors_iff_example :
    (parse_with_mode from_text bad_lines ordered ≡ rejected bracket_errors)
    ↔ ((bracket_errors ≡ all_errors from_text 0 bad_lines) × (bracket_errors ≢ []))
parse-errors_iff_example = parse-errors_iff from_text bad_lines ordered bracket_errors

-- ===== src/Tests/Resolved.antt =====
-- Resolvers whose addresses are numbers, those above 100 of the family IPv6.
use dnsproxy_rs.Bootstrap.Parallel.{Finds, parallel_lookup-Finds}
use dnsproxy_rs.Bootstrap.{Addresses, parallel_lookup}
use dnsproxy_rs.Error.{Result, ok, err, io}
use dnsproxy_rs.Prelude.Text.{Text}
use dnsproxy_rs.Prelude.{ℕ, List, [], ◌∷◌, none, ltb}

abbrev numbers : Addresses
numbers = record { IpAddr = ℕ; is_ipv6 = λ ip. ltb 100 ip; parse_ip = λ host. none }

abbrev both_families : Text → Result (List ℕ)
both_families host = ok (1 ∷ 201 ∷ 2 ∷ 202 ∷ [])

abbrev arrived : List (Result (List ℕ))
arrived = ok [] ∷ ok (7 ∷ []) ∷ []

parallel_lookup-Finds_example : Finds (err io ∷ arrived) (parallel_lookup (err io ∷ arrived))
parallel_lookup-Finds_example = parallel_lookup-Finds (err io) arrived

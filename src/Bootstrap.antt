-- ===== src/Bootstrap.antt =====
-- src/client/bootstrap.rs: how the address of an upstream is found. Here, what a query returns is an
-- argument; the resolvers that `ParallelResolver` asks at once answer in some order.
pub mod Preferred
pub mod Parallel
pub mod Dial
pub mod Queries
use dnsproxy_rs.Error.{
  DohError, bootstrap, no_resolvers, all_failed, no_addresses, Result, ok, err, panic, ◌>>=◌,
}
use dnsproxy_rs.Prelude.Sort.{sort_by}
use dnsproxy_rs.Prelude.Text.{Text}
use dnsproxy_rs.Prelude.{
  ℕ, Bool, not, ◌||◌, List, [], ◌∷◌, ◌++◌, map, Option, none, some, if◌then◌else◌,
}

-- `IpAddr`
pub record Addresses : Type 1 where
  pub IpAddr : Type 0
  pub is_ipv6 : IpAddr → Bool
  -- `parse::<IpAddr>`
  pub parse_ip : Text → Option IpAddr

module _ {A : Type 0} where
  -- The end of `lookup` of `PlainResolver` and `DohResolver`: the answers to the queries for A and
  -- AAAA, where an error counts only if there is no address.
  abbrev pub or_error : DohError → List A → Result (List A)
  or_error e [] = err e
  or_error e (ip ∷ ips) = ok (ip ∷ ips)

  unfoldable pub join_answers : Result (List A) → Result (List A) → Result (List A)
  join_answers panic aaaa = panic
  join_answers (ok a) (ok aaaa) = ok (a ++ aaaa)
  join_answers (ok a) (err e) = or_error e a
  join_answers (ok a) panic = panic
  join_answers (err e) (ok aaaa) = or_error e aaaa
  join_answers (err e) (err e') = err e'
  join_answers (err e) panic = panic

  -- the loop of `ParallelResolver::lookup`, over the results in the order of their arrival
  unfoldable pub first_answer : List (Result (List A)) → Result (List A)
  first_answer [] = err (bootstrap all_failed)
  first_answer (ok [] ∷ rs) = first_answer rs
  first_answer (ok (ip ∷ ips) ∷ rs) = ok (ip ∷ ips)
  first_answer (err e ∷ rs) = first_answer rs
  first_answer (panic ∷ rs) = panic

  -- `ParallelResolver::lookup`
  unfoldable pub parallel_lookup : List (Result (List A)) → Result (List A)
  unfolding first_answer
  parallel_lookup [] = err (bootstrap no_resolvers)
  parallel_lookup (r ∷ rs) = first_answer (r ∷ rs)

module _ (a : Addresses) where
  open a use {IpAddr, is_ipv6, parse_ip}

  -- the key that addresses are sorted by
  abbrev pub sort_key : Bool → IpAddr → Bool
  sort_key prefer_v6 ip = if prefer_v6 then not (is_ipv6 ip) else is_ipv6 ip

  -- `false` comes before `true`
  abbrev pub not_after : Bool → IpAddr → IpAddr → Bool
  not_after prefer_v6 x y = not (sort_key prefer_v6 x) || sort_key prefer_v6 y

  -- behind the lookup
  unfoldable pub order_addrs : Bool → ℕ → List IpAddr → Result (List (IpAddr × ℕ))
  unfolding sort_by
  order_addrs prefer_v6 port [] = err (bootstrap no_addresses)
  order_addrs prefer_v6 port (ip ∷ ips) =
      ok (map (λ x. (x, port)) (sort_by (not_after prefer_v6) (ip ∷ ips)))

  -- `resolve_addrs`; `lookup` is the resolver, inside the timeout
  unfoldable pub resolve_addrs :
      (Text → Result (List IpAddr)) → Text → ℕ → Bool → Result (List (IpAddr × ℕ))
  unfolding order_addrs
  resolve_addrs lookup host port prefer_v6 = elim (parse_ip host) [
    | some ip ↦ order_addrs prefer_v6 port (ip ∷ [])
    | none ↦ lookup host >>= order_addrs prefer_v6 port
  ]

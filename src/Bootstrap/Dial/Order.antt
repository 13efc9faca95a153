-- ===== src/Bootstrap/Dial/Order.antt =====
-- The addresses that a connection tries.
use dnsproxy_rs.Bootstrap.Dial.{
  Network, Resolver, dial_one, new_dial_context, looked_up, resolve, resolve_dial_context,
}
use dnsproxy_rs.Bootstrap.Preferred.{with_key, resolve_addrs-with_key}
use dnsproxy_rs.Bootstrap.{Addresses, sort_key}
use dnsproxy_rs.Error.{bootstrap, no_addresses, ok}
use dnsproxy_rs.Exec.Yields.{>>=-run}
use dnsproxy_rs.Exec.{done, ◌>>=◌}
use dnsproxy_rs.Failover.Ends.{Ends, try_each-Ends}
use dnsproxy_rs.Prelude.Text.{Text}
use dnsproxy_rs.Prelude.{
  ℕ, ◌≡◌, ◌≢◌, refl, Bool, true, false, not, List, [], ◌∷◌, ◌++◌, map, Option, none, ap, sym, ◌∙◌,
  subst, Bool-cases, inl, inr, append-eq-nil, map-eq-nil,
}
use dnsproxy_rs.Sockets.{Sockets, SocketAddr}

with_key-ne-nil :
    {A : Type 0} (key : A → Bool) (xs : List A)
    → xs ≢ []
    → with_key key false xs ++ with_key key true xs ≢ []
with_key-ne-nil key [] some_x e = some_x refl
with_key-ne-nil key (x ∷ xs) some_x e =
    let (early, late) = append-eq-nil _ (with_key key true (x ∷ xs)) e in
    elim (Bool-cases (key x)) [
      | inl b ↦ absurd (cc (rw b at late))
      | inr b ↦ absurd (cc (rw b at early))
    ]

module _ (a : Addresses) {W : Type 0} (net : Sockets a W) where
  new_dial_context-Ends :
      (timeout : Option ℕ) (addrs : List (SocketAddr a)) (network : Network) (w : W)
      → addrs ≢ []
      → let r = new_dial_context a net timeout addrs network w in
        Ends (bootstrap no_addresses) (dial_one a net timeout network) addrs none w r.0 r.1
  unfolding new_dial_context
  new_dial_context-Ends timeout [] network w some_addr = absurd (some_addr refl)
  new_dial_context-Ends timeout (addr ∷ addrs) network w some_addr =
      try_each-Ends (bootstrap no_addresses) (dial_one a net timeout network) (addr ∷ addrs) none w

  with_key-sort_key :
      (prefer_v6 : Bool) (ips : List a.IpAddr)
      → (with_key (sort_key a prefer_v6) false ips ≡ with_key a.is_ipv6 prefer_v6 ips)
        × (with_key (sort_key a prefer_v6) true ips ≡ with_key a.is_ipv6 (not prefer_v6) ips)
  with_key-sort_key true [] = (refl, refl)
  with_key-sort_key false ips = (refl, refl)
  with_key-sort_key true (ip ∷ ips) =
      let (early, late) = with_key-sort_key true ips in
      elim (Bool-cases (a.is_ipv6 ip)) [
        | inl v6 ↦ (rw v6 (ap (◌∷◌ ip) early), rw v6 late)
        | inr v4 ↦ (rw v4 early, rw v4 (ap (◌∷◌ ip) late))
      ]

  -- the addresses of a host, in the order that they are tried: those of the preferred family first
  abbrev pub preferred : Bool → ℕ → List a.IpAddr → List (SocketAddr a)
  preferred prefer_v6 port ips =
      map (λ ip. (ip, port))
        (with_key a.is_ipv6 prefer_v6 ips ++ with_key a.is_ipv6 (not prefer_v6) ips)

  preferred-sort_key :
      (prefer_v6 : Bool) (port : ℕ) (ips : List a.IpAddr)
      → preferred prefer_v6 port ips
        ≡ map
            (λ ip. (ip, port))
            (with_key (sort_key a prefer_v6) false ips ++ with_key (sort_key a prefer_v6) true ips)
  preferred-sort_key prefer_v6 port ips =
      let (early, late) = with_key-sort_key prefer_v6 ips in rw (early, late) refl

  module _ (timeout : Option ℕ) (resolver : Resolver a net) (host : Text) (port : ℕ)
      (prefer_v6 : Bool) (w : W) {w' : W} {ips : List a.IpAddr} where
    resolve-preferred :
        a.parse_ip host ≡ none
        → looked_up a net timeout resolver host w ≡ (ok ips, w')
        → ips ≢ []
        → resolve a net timeout resolver host port prefer_v6 w
          ≡ (ok (preferred prefer_v6 port ips), w')
    unfolding resolve
    resolve-preferred no_literal found some_ip =
        rw (found, resolve)
          (ap (λ r. (r, w'))
            (resolve_addrs-with_key a (λ _. ok ips) host port prefer_v6 no_literal refl some_ip
              ∙ ap (λ xs. ok xs) (sym (preferred-sort_key prefer_v6 port ips))))

    -- A connection to a host that is no literal address, and for which the lookup finds addresses, is
    -- tried at all of them, first those of the preferred family: the first that connects is used, and
    -- if none does, the last error is returned.
    pub resolve_dial_context-Ends :
        (network : Network)
        → a.parse_ip host ≡ none
        → looked_up a net timeout resolver host w ≡ (ok ips, w')
        → ips ≢ []
        → let r =
            (resolve_dial_context a net timeout resolver host port prefer_v6 >>= λ dial.
            dial network)
              w in
          Ends
            (bootstrap no_addresses)
            (dial_one a net timeout network)
            (preferred prefer_v6 port ips)
            none
            w'
            r.0
            r.1
    unfolding resolve_dial_context
    resolve_dial_context-Ends network no_literal found some_ip =
        let addrs = preferred prefer_v6 port ips in
        let resolved =
          >>=-run (resolve a net timeout resolver host port prefer_v6)
            (λ addrs. done (new_dial_context a net timeout addrs)) w
            (resolve-preferred no_literal found some_ip) in
        let dialed =
          >>=-run (resolve_dial_context a net timeout resolver host port prefer_v6)
            (λ dial. dial network) w resolved in
        subst
          (λ r.
            Ends (bootstrap no_addresses) (dial_one a net timeout network) addrs none w' r.0 r.1)
          (sym dialed)
          (new_dial_context-Ends timeout addrs network w' (λ e.
            with_key-ne-nil (sort_key a prefer_v6) ips some_ip
              (map-eq-nil _ _ (sym (preferred-sort_key prefer_v6 port ips) ∙ e))))

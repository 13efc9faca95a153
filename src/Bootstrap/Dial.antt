-- ===== src/Bootstrap/Dial.antt =====
-- How a connection to a host is made: the lookup, and its addresses tried one after the other.
pub mod Order
use dnsproxy_rs.Bootstrap.{Addresses, resolve_addrs}
use dnsproxy_rs.Error.{
  bootstrap, no_addresses, nothing_to_dial, resolving_timed_out, dialing_timed_out, dialing,
  lookup_failed, Result, ok, err,
}
use dnsproxy_rs.Exec.{Exec, done, lift, ◌>>=◌, call, timed}
use dnsproxy_rs.Failover.{try_each}
use dnsproxy_rs.Prelude.Text.{Text}
use dnsproxy_rs.Prelude.{ℕ, Bool, List, [], ◌∷◌, Option, none, some}
use dnsproxy_rs.Sockets.{Sockets, SocketAddr}

pub data Network : Type 0 where
  tcp udp : Network

module _ (a : Addresses) {W : Type 0} (net : Sockets a W) where
  open a use {IpAddr, parse_ip}
  open net use {Stream, Datagrams, expires, connect_tcp, connect_udp, lookup_host}

  -- `Arc<dyn Resolver>`: its `lookup`
  abbrev pub Resolver : Type 0
  Resolver = Text → Exec W (List IpAddr)

  pub data Conn : Type 0 where
    over_tcp : Stream → Conn
    over_udp : Datagrams → SocketAddr a → Conn

  -- `SystemResolver` and `StaticResolver`
  unfoldable pub system_resolver : Resolver
  unfolding call
  system_resolver host = call (λ e. bootstrap (lookup_failed e)) (lookup_host host)

  unfoldable pub static_resolver : List IpAddr → Resolver
  static_resolver ips host = done ips

  abbrev pub dial_addr : Network → SocketAddr a → Exec W Conn
  dial_addr tcp addr =
      call (λ e. bootstrap (dialing e)) (connect_tcp addr) >>= λ s. done (over_tcp s)
  dial_addr udp addr =
      call (λ e. bootstrap (dialing e)) (connect_udp addr) >>= λ s. done (over_udp s addr)

  unfoldable pub dial_one : Option ℕ → Network → SocketAddr a → Exec W Conn
  unfolding timed call ◌>>=◌
  dial_one timeout network addr =
      timed expires (bootstrap dialing_timed_out) timeout (dial_addr network addr)

  -- `new_dial_context`: the handler
  unfoldable pub new_dial_context : Option ℕ → List (SocketAddr a) → Network → Exec W Conn
  unfolding dial_one try_each
  new_dial_context timeout [] network w = (err (bootstrap nothing_to_dial), w)
  new_dial_context timeout (addr ∷ addrs) network w =
      try_each (bootstrap no_addresses) (dial_one timeout network) (addr ∷ addrs) none w

  -- what the lookup finds, where there is one
  unfoldable pub looked_up : Option ℕ → Resolver → Text → Exec W (List IpAddr)
  unfolding timed
  looked_up timeout resolver host = elim (parse_ip host) [
    | some ip ↦ done []
    | none ↦ timed expires (bootstrap resolving_timed_out) timeout (resolver host)
  ]

  -- `resolve_addrs` with its lookup
  unfoldable pub resolve : Option ℕ → Resolver → Text → ℕ → Bool → Exec W (List (SocketAddr a))
  unfolding looked_up resolve_addrs
  resolve timeout resolver host port prefer_v6 w =
      let (found, w') = looked_up timeout resolver host w in
      (resolve_addrs a (λ _. found) host port prefer_v6, w')

  unfoldable pub resolve_dial_context :
      Option ℕ → Resolver → Text → ℕ → Bool → Exec W (Network → Exec W Conn)
  unfolding resolve new_dial_context ◌>>=◌
  resolve_dial_context timeout resolver host port prefer_v6 = do
    addrs ← resolve timeout resolver host port prefer_v6
    done (new_dial_context timeout addrs)

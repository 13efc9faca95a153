-- ===== src/UpstreamUrl/Build/Displayed.antt =====
-- Addresses of upstreams, as they are displayed, are read as the same upstreams.
use dnsproxy_rs.Bootstrap.Dial.{Resolver}
use dnsproxy_rs.Bootstrap.{Addresses}
use dnsproxy_rs.Client.Dispatch.{Upstream, dot, doq, plain_tcp}
use dnsproxy_rs.Client.{Formats, format_host_port, new_for, new_tcp, new_dot, new_doq}
use dnsproxy_rs.Dnscrypt.Client as DnscryptClient
use dnsproxy_rs.Dnscrypt.{Crypto}
use dnsproxy_rs.Doh.{Http}
use dnsproxy_rs.Options.{Options}
use dnsproxy_rs.Prelude.Text.{Text, text_eq, split_once}
use dnsproxy_rs.Prelude.{ℕ, ◌≡◌, refl, true, false, ◌∷◌, ◌++◌, some, Bool-cases, inl, inr}
use dnsproxy_rs.Sockets.{Sockets, SocketAddr}
use dnsproxy_rs.UpstreamUrl.Build.{Parsers, clone_opts, build, parse_any_upstream}
use dnsproxy_rs.UpstreamUrl.Hosts.{
  StartsNot, Written, host_port, in_brackets_port, split_host_port-Written,
}
use dnsproxy_rs.UpstreamUrl.{Parse, parsed, has_char, split_host_port}

module _ (a : Addresses) (f : Formats a) {W : Type 0} (net : Sockets a W) (lib : Http a net)
    (cr : Crypto) (dnscrypt_net : SocketAddr a → Text → DnscryptClient.Network cr W)
    (ps : Parsers a) where
  open f use {is_ipv6_addr, show_port}

  -- A host that `format_host_port` writes unambiguously, and a port that is read as it is shown.
  pub record Plain (host : Text) (port : ℕ) : Type 0 where
    pub reads : ps.texts.parse_u16 (show_port port) ≡ some port
    pub port_no_colon : has_char b':' (show_port port) ≡ false
    pub ipv6 : is_ipv6_addr host ≡ true → has_char b']' host ≡ false
    pub name : is_ipv6_addr host ≡ false → has_char b':' host ≡ false
    pub no_bracket : StartsNot b'[' (host ++ b':' ∷ show_port port)

  format_host_port-Written :
      (host : Text) (port : ℕ)
      → Plain host port
      → Written ps.texts.parse_u16 (format_host_port a f host port) host (some port)
  unfolding format_host_port
  format_host_port-Written host port p = elim (Bool-cases (is_ipv6_addr host)) [
    | inl v6 ↦ rw v6 (in_brackets_port host (show_port port) (p.ipv6 v6) p.reads)
    | inr other ↦
        rw other
          (host_port host (show_port port) p.no_bracket (p.name other) p.port_no_colon p.reads)
  ]

  module _ (id : ℕ) (host : Text) (port : ℕ) (opts : Options (Resolver a net)) where
    split-displayed :
        Plain host port
        → split_host_port ps.texts.parse_u16 (format_host_port a f host port)
          ≡ parsed (host, some port)
    split-displayed p =
        split_host_port-Written ps.texts.parse_u16 (format_host_port a f host port) host (some port)
          (format_host_port-Written host port p)

    abbrev pub read : Text → Parse (Upstream a f net lib cr dnscrypt_net)
    read addr = parse_any_upstream a f net lib cr dnscrypt_net ps id addr opts

    -- The displayed address of an upstream over TCP, TLS or QUIC, whose host and port are written
    -- unambiguously, is read as that upstream.
    pub parse_any_upstream-displayed :
        Plain host port
        → let tcp = new_tcp a f net host (some port) (clone_opts opts) in
          let tls = new_dot a f net host (some port) (clone_opts opts) in
          let quic = new_doq a f net host (some port) (clone_opts opts) in
          (read tcp.addr_redacted ≡ parsed (plain_tcp tcp))
          × (read tls.tcp.addr_redacted ≡ parsed (dot tls))
          × (read quic.tcp.addr_redacted ≡ parsed (doq id quic))
    unfolding parse_any_upstream build split_once text_eq new_tcp new_dot new_doq new_for
    parse_any_upstream-displayed p =
        (rw (split-displayed p) refl, rw (split-displayed p) refl, rw (split-displayed p) refl)

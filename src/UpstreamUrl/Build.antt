-- ===== src/UpstreamUrl/Build.antt =====
-- `parse_any_upstream` and `parse_upstream` of src/client/upstream_url.rs: the upstream that an
-- address stands for. The crates' parsers of addresses and URIs are the interface `Parsers`.
pub mod Displayed
use dnsproxy_rs.Bootstrap.Dial.{Resolver}
use dnsproxy_rs.Bootstrap.{Addresses}
use dnsproxy_rs.Client.Dispatch.{
  Upstream, doh, dot, doq, dns_crypt, plain_udp, plain_tcp, DnsCryptUpstream,
}
use dnsproxy_rs.Client.{Formats, new_udp, new_tcp, new_dot, new_doq}
use dnsproxy_rs.Dnscrypt.Client as DnscryptClient
use dnsproxy_rs.Dnscrypt.Stamp as Stamp
use dnsproxy_rs.Dnscrypt.{Crypto}
use dnsproxy_rs.Doh
use dnsproxy_rs.Doh.{Http, DohUpstream}
use dnsproxy_rs.Options.{HttpVersion, http3, Options}
use dnsproxy_rs.Prelude.Text.{Text, codes, text_eq, split_once}
use dnsproxy_rs.Prelude.{ℕ, List, [], ◌∷◌, ◌++◌, Option, none, some, if◌then◌else◌}
use dnsproxy_rs.Sockets.{Sockets, SocketAddr}
use dnsproxy_rs.UpstreamUrl.{
  Parse, parsed, refused, ◌>>=◌, or_refuse, not_absolute, unsupported_scheme, invalid_uri, no_host,
  no_literal_host, invalid_stamp, panicked, extract_userinfo, split_host_port,
}

-- The parts of a URI: host, path and port.
abbrev pub UriParts : Type 0
UriParts = Option Text × Text × Option ℕ

pub record Parsers (a : Addresses) : Type 1 where
  -- `parse::<SocketAddr>`
  pub parse_socket_addr : Text → Option (SocketAddr a)
  -- `parse::<Uri>`
  pub parse_uri : Text → Option UriParts
  -- what a stamp holds, and its address
  pub texts : Stamp.Texts
  pub addr_of : texts.SocketAddr → SocketAddr a
  -- base64 of a text's bytes
  pub encode : Text → Text

abbrev pub plain_port : ℕ
plain_port = 53

abbrev pub or_versions : Option (List HttpVersion) → List HttpVersion → List HttpVersion
or_versions none vs = vs
or_versions (some forced) vs = forced

-- the HTTP versions of a scheme, where it forces some
unfoldable pub versions_of : Text → Parse (Option (List HttpVersion))
versions_of scheme =
    if text_eq scheme (codes "https")
    then parsed none
    else if text_eq scheme (codes "h3")
    then parsed (some (http3 ∷ []))
    else refused unsupported_scheme

-- `stripped.find("://").unwrap()`, and what follows
abbrev pub rewritten : Option (Text × Text) → Parse Text
rewritten none = refused panicked
rewritten (some (scheme, rest)) = parsed (codes "https://" ++ rest)

unfoldable pub normalized : Text → Text → Parse Text
unfolding split_once
normalized scheme stripped =
    if text_eq scheme (codes "h3")
    then rewritten (split_once (codes "://") stripped)
    else parsed stripped

-- `clone_opts`
unfoldable pub clone_opts : {R : Type 0} → Options R → Options R
clone_opts base = record base { http_versions = []; basic_auth = none }

module _ (a : Addresses) (f : Formats a) {W : Type 0} (net : Sockets a W) (lib : Http a net)
    (cr : Crypto) (dnscrypt_net : SocketAddr a → Text → DnscryptClient.Network cr W)
    (ps : Parsers a) where
  open ps use {parse_socket_addr, parse_uri, texts, addr_of, encode}

  -- `parse_upstream`
  unfoldable pub parse_upstream : Text → Options (Resolver a net) → Parse (DohUpstream a f net)
  unfolding split_once versions_of normalized extract_userinfo
  parse_upstream addr base = do
    (scheme, rest) ← or_refuse not_absolute (split_once (codes "://") addr)
    forced ← versions_of scheme
    (basic_auth, stripped) ← extract_userinfo addr
    uri ← normalized scheme stripped
    (found, path, port) ← or_refuse invalid_uri (parse_uri uri)
    host ← or_refuse no_host found
    parsed (
        Doh.new a f net encode host port path (record base {
          http_versions = or_versions forced base.http_versions;
          basic_auth = basic_auth;
        }))

  -- a literal address, with or without a port
  unfoldable pub udp_addr : Text → Parse (SocketAddr a)
  udp_addr rest = elim (parse_socket_addr rest) [
    | some addr ↦ parsed addr
    | none ↦ elim (a.parse_ip rest) [
      | some ip ↦ parsed (ip, plain_port)
      | none ↦ refused no_literal_host
    ]
  ]

  abbrev stamped :
      Option ℕ
      → Stamp.Parse (Stamp.DnsCryptStamp texts)
      → Parse (DnsCryptUpstream a f net lib cr dnscrypt_net)
  stamped timeout (Stamp.refused e) = refused (invalid_stamp e)
  stamped timeout (Stamp.parsed s) = parsed (record {
    server_addr = addr_of s.addr;
    provider_name = s.provider_name;
    provider_public_key = s.provider_public_key;
    timeout = timeout;
  })

  abbrev scheme_of : Text → Option (Text × Text) → Text × Text
  scheme_of addr none = (codes "udp", addr)
  scheme_of addr (some parts) = parts

  abbrev Any : Type 0
  Any = Upstream a f net lib cr dnscrypt_net

  -- the arms of the match on the scheme; `id` numbers the new allocation
  unfoldable pub build : ℕ → Text → Options (Resolver a net) → Text → Text → Parse Any
  unfolding udp_addr split_host_port parse_upstream clone_opts Stamp.parse_dnscrypt_stamp
  build id addr base scheme rest =
      if text_eq scheme (codes "udp")
      then (udp_addr rest >>= λ sock_addr.
          parsed (plain_udp (new_udp a f net sock_addr base.timeout)))
      else if text_eq scheme (codes "tcp")
      then (do
        (host, port) ← split_host_port texts.parse_u16 rest
        parsed (plain_tcp (new_tcp a f net host port (clone_opts base))))
      else if text_eq scheme (codes "tls")
      then (do
        (host, port) ← split_host_port texts.parse_u16 rest
        parsed (dot (new_dot a f net host port (clone_opts base))))
      else if text_eq scheme (codes "quic")
      then (do
        (host, port) ← split_host_port texts.parse_u16 rest
        parsed (doq id (new_doq a f net host port (clone_opts base))))
      else if text_eq scheme (codes "sdns")
      then (stamped (clone_opts base).timeout (Stamp.parse_dnscrypt_stamp texts addr) >>= λ u.
          parsed (dns_crypt id u))
      else (parse_upstream addr base >>= λ u. parsed (doh id u))

  -- `parse_any_upstream`
  unfoldable pub parse_any_upstream : ℕ → Text → Options (Resolver a net) → Parse Any
  unfolding build split_once
  parse_any_upstream id addr base =
      let (scheme, rest) = scheme_of addr (split_once (codes "://") addr) in
      build id addr base scheme rest

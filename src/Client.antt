-- ===== src/Client.antt =====
-- The upstreams that a query is sent to, over UDP, TCP, TLS, QUIC and HTTPS: src/client. Their
-- settings, and what they do before they write a request and after they read a response.
pub mod Plain
pub mod Reuse
pub mod Dispatch
use dnsproxy_rs.Bootstrap.Dial.{Resolver, system_resolver}
use dnsproxy_rs.Bootstrap.{Addresses}
use dnsproxy_rs.Dns.{Hickory, Message, Codec}
use dnsproxy_rs.Error.{
  pack, invalid_response, unpacking, response, Result, ok, err, ◌>>=◌, ◌>>◌, ok_or,
}
use dnsproxy_rs.Io.{Bytes}
use dnsproxy_rs.Options.{Options}
use dnsproxy_rs.Prelude.Text.{Text, codes}
use dnsproxy_rs.Prelude.{ℕ, Bool, ◌++◌, Option, none, some, ltb, if◌then◌else◌, length, ◌∷◌, []}
use dnsproxy_rs.Sockets.{Sockets, SocketAddr}
use dnsproxy_rs.Wire.{validate_response}

-- `parse::<Ipv6Addr>`, and the `Display` of a port and of an address
pub record Formats (a : Addresses) : Type 0 where
  pub is_ipv6_addr : Text → Bool
  pub show_port : ℕ → Text
  pub show_addr : SocketAddr a → Text

abbrev pub or_port : ℕ → Option ℕ → ℕ
or_port default none = default
or_port default (some port) = port

module _ (a : Addresses) (f : Formats a) where
  open f use {is_ipv6_addr, show_port, show_addr}

  unfoldable pub format_host_port : Text → ℕ → Text
  format_host_port host port =
      if is_ipv6_addr host
      then codes "[" ++ (host ++ (codes "]:" ++ show_port port))
      else host ++ (codes ":" ++ show_port port)

  module _ {W : Type 0} (net : Sockets a W) where
    abbrev pub or_system : Option (Resolver a net) → Resolver a net
    or_system none = system_resolver a net
    or_system (some resolver) = resolver

    -- `PlainUdpUpstream`
    pub record PlainUdpUpstream : Type 0 where
      pub addr : SocketAddr a
      pub addr_redacted : Text
      pub timeout : Option ℕ

    -- `PlainTcpUpstream`
    pub record PlainTcpUpstream : Type 0 where
      pub host : Text
      pub port : ℕ
      pub addr_redacted : Text
      pub resolver : Resolver a net
      pub prefer_ipv6 : Bool
      pub timeout : Option ℕ

    -- `DotUpstream` and `DoqUpstream`: the fields of a `PlainTcpUpstream` and another one
    pub record SecureUpstream : Type 0 where
      pub tcp : PlainTcpUpstream
      pub insecure_skip_verify : Bool

    unfoldable pub new_udp : SocketAddr a → Option ℕ → PlainUdpUpstream
    new_udp addr timeout = record {
      addr = addr;
      addr_redacted = codes "udp://" ++ show_addr addr;
      timeout = timeout;
    }

    -- `new`, for a scheme and a port where none is given
    unfoldable pub new_for :
        Text → ℕ → Text → Option ℕ → Options (Resolver a net) → PlainTcpUpstream
    unfolding format_host_port
    new_for scheme default host port opts = record {
      host = host;
      port = or_port default port;
      addr_redacted = scheme ++ format_host_port host (or_port default port);
      resolver = or_system opts.bootstrap;
      prefer_ipv6 = opts.prefer_ipv6;
      timeout = opts.timeout;
    }

    unfoldable pub new_tcp : Text → Option ℕ → Options (Resolver a net) → PlainTcpUpstream
    unfolding new_for
    new_tcp = new_for (codes "tcp://") 53

    unfoldable pub new_dot : Text → Option ℕ → Options (Resolver a net) → SecureUpstream
    unfolding new_for
    new_dot host port opts = record {
      tcp = new_for (codes "tls://") 853 host port opts;
      insecure_skip_verify = opts.insecure_skip_verify;
    }

    unfoldable pub new_doq : Text → Option ℕ → Options (Resolver a net) → SecureUpstream
    unfolding new_for
    new_doq host port opts = record {
      tcp = new_for (codes "quic://") 853 host port opts;
      insecure_skip_verify = opts.insecure_skip_verify;
    }

module _ {h : Hickory} (c : Codec h) where
  -- the bytes of a request, which must fit a length of 16 bits
  unfoldable pub request_bytes : Message h → Result Bytes
  request_bytes req = do
    bytes ← ok_or pack (c.to_bytes req)
    if ltb 65_535 (length bytes) then err pack else ok bytes

  -- a response, decoded and checked
  unfoldable pub accepted : Message h → Bytes → Result (Message h)
  unfolding validate_response
  accepted req bytes = do
    resp ← ok_or (invalid_response (unpacking response)) (c.from_bytes bytes)
    validate_response req resp >> ok resp

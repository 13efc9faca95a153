-- ===== src/Client/Plain.antt =====
-- src/client/plain_udp.rs, plain_tcp.rs and dot.rs: one exchange over a connection of its own.
pub mod Answering
use dnsproxy_rs.Bootstrap.Dial.{
  Network, tcp, Conn, over_tcp, over_udp, Resolver, resolve_dial_context,
}
use dnsproxy_rs.Bootstrap.{Addresses}
use dnsproxy_rs.Client.{
  Formats, PlainUdpUpstream, PlainTcpUpstream, SecureUpstream, request_bytes, accepted,
}
use dnsproxy_rs.Dns.{Hickory, Message, Codec}
use dnsproxy_rs.Error.{
  DohError, pack, io, http, timeout, bootstrap, expected_tcp, Result, ok, err, ok_or,
}
use dnsproxy_rs.Exec.{Exec, done, lift, ◌>>=◌, call, map_err, timed}
use dnsproxy_rs.Io.Framing.{frame}
use dnsproxy_rs.Io.{Bytes, read_prefixed}
use dnsproxy_rs.Prelude.Text.{Text, codes}
use dnsproxy_rs.Prelude.{ℕ, Option, none, some, take, ◌++◌, [], ◌∷◌}
use dnsproxy_rs.Sockets.{Sockets, SocketAddr}

module _ {W : Type 0} (expires : ℕ → W → Option W) {A : Type 0} where
  -- the end of `exchange`: the exchange inside the timeout, where there is one
  abbrev pub within : Option ℕ → Exec W A → Exec W A
  within none m = m
  within (some d) m = timed expires (timeout d) (some d) m

module _ (a : Addresses) (f : Formats a) {W : Type 0} (net : Sockets a W) {h : Hickory}
    (c : Codec h) where
  open net use {Stream, expires, connect_udp, send_recv, converse, server_name, handshake}

  -- `MAX_MSG_SIZE` of plain_udp.rs, the size of the buffer
  abbrev max_msg_size : ℕ
  max_msg_size = 65_535

  -- `PlainUdpUpstream::exchange`
  unfoldable pub exchange_udp : PlainUdpUpstream a f net → Message h → Exec W (Message h)
  unfolding ◌>>=◌ call timed accepted
  exchange_udp u req = do
    req_bytes ← lift (ok_or pack (c.to_bytes req))
    within expires u.timeout (do
      sock ← call (λ _. io) (connect_udp u.addr)
      datagram ← call (λ _. io) (send_recv sock req_bytes)
      lift (accepted c req (take max_msg_size datagram)))

  -- `tcp` of the connection
  abbrev stream_of : Conn a net → Result Stream
  stream_of (over_tcp s) = ok s
  stream_of (over_udp s addr) = err (bootstrap expected_tcp)

  unfoldable pub dial_tcp : PlainTcpUpstream a f net → Exec W Stream
  unfolding ◌>>=◌ resolve_dial_context
  dial_tcp u = do
    dial ← resolve_dial_context a net u.timeout u.resolver u.host u.port u.prefer_ipv6
    conn ← dial tcp
    lift (stream_of conn)

  -- the request behind its length, and the response behind its own
  unfoldable pub exchange_on : Stream → Message h → Bytes → Exec W (Message h)
  unfolding ◌>>=◌ call read_prefixed accepted
  exchange_on stream req req_bytes = do
    sent ← call (λ _. io) (converse stream (frame req_bytes))
    (resp_bytes, rest) ← lift (read_prefixed sent)
    lift (accepted c req resp_bytes)

  -- `PlainTcpUpstream::exchange`
  unfoldable pub exchange_tcp : PlainTcpUpstream a f net → Message h → Exec W (Message h)
  unfolding ◌>>=◌ timed dial_tcp exchange_on request_bytes
  exchange_tcp u req = do
    req_bytes ← lift (request_bytes c req)
    within expires u.timeout (do stream ← dial_tcp u; exchange_on stream req req_bytes)

  -- `DotUpstream::exchange`
  unfoldable pub exchange_dot : SecureUpstream a f net → Message h → Exec W (Message h)
  unfolding ◌>>=◌ call timed dial_tcp exchange_on request_bytes
  exchange_dot u req = do
    req_bytes ← lift (request_bytes c req)
    within expires u.tcp.timeout (do
      stream ← dial_tcp u.tcp
      name ←
          lift (map_err (λ e. http (codes "invalid server name: " ++ e)) (server_name u.tcp.host))
      tls ←
          call (λ e. http (codes "tls handshake failed: " ++ e))
            (handshake u.insecure_skip_verify [] u.tcp.host stream)
      exchange_on tls req req_bytes)

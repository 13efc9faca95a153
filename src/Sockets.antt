-- ===== src/Sockets.antt =====
-- The sockets of the crates tokio, tokio_rustls and quinn, as the upstreams use them. The calls are
-- parameters; what they do is known by the world that they leave.
use dnsproxy_rs.Bootstrap.{Addresses}
use dnsproxy_rs.Exec.{Call}
use dnsproxy_rs.Io.{Bytes}
use dnsproxy_rs.Prelude.Text.{Text}
use dnsproxy_rs.Prelude.{ℕ, Bool, List, Option, ◌⊎◌}

-- `SocketAddr`
abbrev pub SocketAddr : Addresses → Type 0
SocketAddr a = a.IpAddr × ℕ

pub record Sockets (a : Addresses) (W : Type 0) : Type 1 where
  -- `TcpStream` or a TLS stream over one, `UdpSocket` and `quinn::Connection`
  pub Stream : Type 0
  pub Datagrams : Type 0
  pub Quic : Type 0
  -- whether a duration, begun now, is over before what is awaited; then, the world at that moment
  pub expires : ℕ → W → Option W
  -- `lookup_host`
  pub lookup_host : Text → Call W (List a.IpAddr)
  pub connect_tcp : SocketAddr a → Call W Stream
  -- a bound socket, connected to the address
  pub connect_udp : SocketAddr a → Call W Datagrams
  -- one datagram sent, and the one that comes back
  pub send_recv : Datagrams → Bytes → Call W Bytes
  -- bytes written, and all that the other side sends
  pub converse : Stream → Bytes → Call W Bytes
  -- `ServerName::try_from`, and the handshake; the Boolean skips the verification
  pub server_name : Text → Text ⊎ Unit {0}
  pub handshake : Bool → List Text → Text → Stream → Call W Stream
  -- a connection for a list of application protocols
  pub connect_quic : Bool → List Text → SocketAddr a → Text → Call W Quic
  -- bytes written on a stream of its own, and all that the other side sends on it
  pub converse_quic : Quic → Bytes → Call W Bytes
  -- the error of `read_exact` for a stream that ends behind so many bytes
  pub finished_early : ℕ → Text

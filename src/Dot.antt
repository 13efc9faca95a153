-- ===== src/Dot.antt =====
-- src/listener/dot.rs: the connection of the DNS-over-TLS listener.
pub mod RoundTrip
use dnsproxy_rs.Dns.{Hickory, Message, Codec}
use dnsproxy_rs.Error.{
  http, invalid_response, unpacking, dot_message, Result, ok, err, panic, ◌>>=◌, ok_or,
}
use dnsproxy_rs.Io.{Bytes, tcp_bytes, serve_connection}
use dnsproxy_rs.Prelude.Text.{Text, codes}
use dnsproxy_rs.Prelude.{[], ◌++◌, ◌⊎◌, inl, inr}

module _ {h : Hickory} (c : Codec h) {W : Type 0}
    (handler : Message h → W → Result (Message h) × W) where
  abbrev reply_with : Result (Message h) × W → Result Bytes × W
  reply_with (r, w) = (r >>= tcp_bytes c, w)

  abbrev ask : Result (Message h) → W → Result Bytes × W
  ask panic w = (panic, w)
  ask (err e) w = (err e, w)
  ask (ok req) w = reply_with (handler req w)

  -- one pass of the loop, behind the reading: the bytes written
  unfoldable pub answer : Bytes → W → Result Bytes × W
  unfolding tcp_bytes
  answer packet w = ask (ok_or (invalid_response (unpacking dot_message)) (c.from_bytes packet)) w

  -- `handle_connection`, for what the handshake gives: the bytes that the client sends, or its error
  unfoldable pub handle_connection : Text ⊎ Bytes → W → Result (Unit {0}) × Bytes × W
  unfolding serve_connection answer
  handle_connection (inl e) w = (err (http (codes "tls handshake failed: " ++ e)), [], w)
  handle_connection (inr stream) w = serve_connection answer stream w

-- ===== src/Io.antt =====
-- src/listener/io.rs: the plain listener. A stream is the bytes still to be read, or the bytes
-- written so far; the sockets' loops, which spawn a task per packet or connection, are outside.
pub mod Framing
pub mod Enough
use dnsproxy_rs.Dns.{Hickory, Message, Codec}
use dnsproxy_rs.Error.{
  pack, io, invalid_response, unpacking, udp_packet, tcp_message, Result, ok, err, panic, ◌>>=◌,
  ok_or,
}
use dnsproxy_rs.Prelude.{
  ℕ, zero, suc, ◌+◌, ◌*◌, ◌/◌, ◌%◌, List, [], ◌∷◌, ◌++◌, Option, none, some, ltb, if◌then◌else◌,
  length, take, drop,
}

abbrev pub Bytes : Type 0
Bytes = List ℕ

-- `UDP_MAX_MSG_SIZE`
abbrev pub udp_max_msg_size : ℕ
udp_max_msg_size = 512

-- `read_exact` of `n` bytes: what is read, and what stays; none at the end of the stream
unfoldable pub read_exact : ℕ → Bytes → Option (Bytes × Bytes)
read_exact n stream = if ltb (length stream) n then none else some (take n stream, drop n stream)

-- `read_u16`
unfoldable pub read_u16 : Bytes → Option (ℕ × Bytes)
read_u16 (a ∷ b ∷ stream) = some (a * 256 + b, stream)
read_u16 stream = none

-- `read_prefixed`
unfoldable pub read_prefixed : Bytes → Result (Bytes × Bytes)
unfolding read_u16 read_exact
read_prefixed stream = do (len, rest) ← ok_or io (read_u16 stream); ok_or io (read_exact len rest)

-- `write_prefixed`: what it writes
unfoldable pub write_prefixed : Bytes → Result Bytes
write_prefixed body =
    if ltb 65_535 (length body) then err pack else ok (length body / 256 ∷ length body % 256 ∷ body)

module _ {h : Hickory} (c : Codec h) where
  -- the bytes of the truncated response where those of the response are too many
  unfoldable pub fit_udp : Message h → Bytes → Result Bytes
  fit_udp resp bytes =
      if ltb udp_max_msg_size (length bytes)
      then ok_or pack (c.to_bytes (c.truncate resp))
      else ok bytes

  unfoldable pub udp_bytes : Message h → Result Bytes
  unfolding fit_udp
  udp_bytes resp = ok_or pack (c.to_bytes resp) >>= fit_udp resp

  unfoldable pub tcp_bytes : Message h → Result Bytes
  unfolding write_prefixed
  tcp_bytes resp = ok_or pack (c.to_bytes resp) >>= write_prefixed

module _ {W : Type 0} (answer : Bytes → W → Result Bytes × W) where
  -- The loop over a connection: it ends at the first packet that cannot be read, and fails at the
  -- first error. What is written is kept. Each pass reads at least two bytes, so that the length of
  -- the stream is fuel.
  unfoldable pub serve_tcp : ℕ → Bytes → Bytes → W → Result (Unit {0}) × Bytes × W
  unfolding read_prefixed
  serve_tcp zero stream written w = (ok tt, written, w)
  serve_tcp (suc fuel) stream written w =
      let next = λ (rest out : Bytes) (w' : W). serve_tcp fuel rest (written ++ out) w' in
      elim (read_prefixed stream) [
        | panic ↦ (panic, written, w)
        | err e ↦ (ok tt, written, w)
        | ok (packet, rest) ↦
            (let (r, w') = answer packet w in
              elim r [
                | ok out ↦ next rest out w'
                | err e ↦ (err e, written, w')
                | panic ↦ (panic, written, w')
              ])
      ]

  unfoldable pub serve_connection : Bytes → W → Result (Unit {0}) × Bytes × W
  unfolding serve_tcp
  serve_connection stream w = serve_tcp (suc (length stream)) stream [] w

module _ {h : Hickory} (c : Codec h) {W : Type 0}
    (handler : Message h → W → Result (Message h) × W) where
  -- `handle_udp_packet`: the bytes sent back
  unfoldable pub handle_udp_packet : Bytes → W → Result Bytes × W
  unfolding udp_bytes
  handle_udp_packet packet w = elim (c.from_bytes packet) [
    | none ↦ (err (invalid_response (unpacking udp_packet)), w)
    | some req ↦ (let (r, w') = handler req w in (r >>= udp_bytes c, w'))
  ]

  -- one pass of the loop of `handle_tcp_connection`, behind the reading: the bytes written
  unfoldable pub answer_tcp : Bytes → W → Result Bytes × W
  unfolding tcp_bytes
  answer_tcp packet w = elim (c.from_bytes packet) [
    | none ↦ (err (invalid_response (unpacking tcp_message)), w)
    | some req ↦ (let (r, w') = handler req w in (r >>= tcp_bytes c, w'))
  ]

  -- `handle_tcp_connection`
  unfoldable pub handle_tcp_connection : Bytes → W → Result (Unit {0}) × Bytes × W
  unfolding serve_connection answer_tcp
  handle_tcp_connection = serve_connection answer_tcp

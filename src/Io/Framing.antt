-- ===== src/Io/Framing.antt =====
-- A connection serves its queries one after the other.
use mathlib.Core.Path.{ap₂}
use dnsproxy_rs.Dns.{Hickory, Message, Codec}
use dnsproxy_rs.Error.{Result, ok, err, io, pack, ok_or, ◌>>=◌, >>=-eq-ok, ok_or-eq-ok}
use dnsproxy_rs.Io.{
  Bytes, read_exact, read_u16, read_prefixed, write_prefixed, fit_udp, udp_bytes, handle_udp_packet,
  answer_tcp, tcp_bytes, serve_tcp, serve_connection, handle_tcp_connection,
}
use dnsproxy_rs.Prelude.{
  ℕ, zero, suc, ◌+◌, ◌*◌, ◌/◌, ◌%◌, ◌^◌, ◌≤◌, ◌<◌, ◌≡◌, refl, ◌⊎◌, false, List, [], ◌∷◌, ◌++◌, some,
  ltb, length, arith, ap, subst, ◌∙◌, append_assoc, append-nil, length-append, take-append,
  drop-append, Bool-cases, Option-cases, inl, inr,
}

-- the body behind its length
abbrev pub frame : Bytes → Bytes
frame body = length body / 256 ∷ length body % 256 ∷ body

pub read_prefixed-frame :
    (body rest : Bytes)
    → length body < 2 ^ 16
    → read_prefixed (frame body ++ rest) ≡ ok (body, rest)
unfolding read_prefixed read_u16 read_exact
read_prefixed-frame body rest h =
    let same : length body / 256 * 256 + length body % 256 ≡ length body = omega arith in
    let enough : ltb (length (body ++ rest)) (length body) ≡ false =
      ground (arith, length-append body rest) in
    rw
      (
        same,
        enough,
        take-append body rest (length body) refl,
        drop-append body rest (length body) refl,
      )
      refl

-- What `write_prefixed` writes for a body is the body behind its length, and is read back; a body
-- of 2^16 bytes or more is refused.
pub write_prefixed-Framed :
    (body rest : Bytes)
    → ((length body < 2 ^ 16)
        × (write_prefixed body ≡ ok (frame body))
        × (read_prefixed (frame body ++ rest) ≡ ok (body, rest)))
      ⊎ ((2 ^ 16 ≤ length body) × (write_prefixed body ≡ err pack))
unfolding write_prefixed
write_prefixed-Framed body rest = elim (Bool-cases (ltb 65_535 (length body))) [
  | inl large ↦ inr (ground arith, rw large refl)
  | inr small ↦
      let fits : length body < 2 ^ 16 = ground arith in
      inl (fits, rw small refl, read_prefixed-frame body rest fits)
]

module _ {W : Type 0} (answer : Bytes → W → Result Bytes × W) where
  -- The packets are answered one after the other, with these bytes written.
  pub data Answered : List Bytes → W → Bytes → W → Type 0 where
    no_more : {w : W} → Answered [] w [] w
    one_more :
        (packet out : Bytes) {packets : List Bytes} {written : Bytes} {w w' w'' : W}
        → length packet < 2 ^ 16
        → answer packet w ≡ (ok out, w')
        → Answered packets w' written w''
        → Answered (packet ∷ packets) w (out ++ written) w''

  abbrev pub frames : List Bytes → Bytes
  frames [] = []
  frames (packet ∷ packets) = frame packet ++ frames packets

  serve_tcp-step :
      (fuel : ℕ) (packet out rest written : Bytes) (w w' : W)
      → length packet < 2 ^ 16
      → answer packet w ≡ (ok out, w')
      → serve_tcp answer (suc fuel) (frame packet ++ rest) written w
        ≡ serve_tcp answer fuel rest (written ++ out) w'
  unfolding serve_tcp
  serve_tcp-step fuel packet out rest written w w' h a =
      let returned : (answer packet w).0 ≡ ok out = ap (λ x. x.0) a in
      let moved : (answer packet w).1 ≡ w' = ap (λ x. x.1) a in
      rw (read_prefixed-frame packet rest h, serve_tcp, returned, moved) refl

  abbrev served : W → Bytes → Result (Unit {0}) × Bytes × W
  served w written = (ok tt, written, w)

  serve_tcp-Answered :
      (fuel : ℕ) {packets : List Bytes} {out : Bytes} (rest written : Bytes) {w w' : W}
      → Answered packets w out w'
      → length (frames packets ++ rest) < fuel
      → read_prefixed rest ≡ err io
      → serve_tcp answer fuel (frames packets ++ rest) written w ≡ (ok tt, written ++ out, w')
  unfolding serve_tcp
  serve_tcp-Answered zero rest written a h e = absurd (omega arith)
  serve_tcp-Answered (suc fuel) rest written no_more h e =
      rw (e, serve_tcp, append-nil written) refl
  serve_tcp-Answered (suc fuel) rest written
        (one_more packet out {packets} {written = later} {w} {w'} short a more) h e =
      let bound = length-append packet (frames packets ++ rest) in
      let whole : frames (packet ∷ packets) ++ rest ≡ frame packet ++ (frames packets ++ rest) =
        append_assoc (frame packet) (frames packets) rest in
      let lengths : length (frame packet ++ (frames packets ++ rest)) < suc fuel =
        subst (λ s. length s < suc fuel) whole h in
      ap (λ s. serve_tcp answer (suc fuel) s written w) whole
      ∙ serve_tcp-step fuel packet out (frames packets ++ rest) written w w' short a
      ∙ serve_tcp-Answered fuel rest (written ++ out) more (omega arith) e
      ∙ ap (served _) (append_assoc written out later)

  -- the same for any way to answer a packet
  pub serve_connection-Answered :
      {packets : List Bytes} {out : Bytes} (rest : Bytes) {w w' : W}
      → Answered packets w out w'
      → read_prefixed rest ≡ err io
      → serve_connection answer (frames packets ++ rest) w ≡ (ok tt, out, w')
  unfolding serve_connection
  serve_connection-Answered {packets} rest a e =
      serve_tcp-Answered (suc (length (frames packets ++ rest))) rest [] a (omega arith) e

module _ {h : Hickory} (c : Codec h) {W : Type 0}
    (handler : Message h → W → Result (Message h) × W) where
  -- The handler answers the queries in these packets one after the other, with these packed responses.
  pub data Handled : List Bytes → W → List Bytes → W → Type 0 where
    no_query : {w : W} → Handled [] w [] w
    one_query :
        (packet bytes : Bytes) (req resp : Message h) {packets responses : List Bytes}
        {w w' w'' : W}
        → length packet < 2 ^ 16
        → c.from_bytes packet ≡ some req
        → handler req w ≡ (ok resp, w')
        → c.to_bytes resp ≡ some bytes
        → length bytes < 2 ^ 16
        → Handled packets w' responses w''
        → Handled (packet ∷ packets) w (bytes ∷ responses) w''

  write_prefixed-frame :
      (bytes : Bytes) → length bytes < 2 ^ 16 → write_prefixed bytes ≡ ok (frame bytes)
  write_prefixed-frame bytes short = elim (write_prefixed-Framed bytes []) [
    | inl (fits, written, back) ↦ written
    | inr (large, refused) ↦ absurd (omega arith)
  ]

  answer_tcp-frame :
      (packet bytes : Bytes) (req resp : Message h) (w w' : W)
      → c.from_bytes packet ≡ some req
      → handler req w ≡ (ok resp, w')
      → c.to_bytes resp ≡ some bytes
      → length bytes < 2 ^ 16
      → answer_tcp c handler packet w ≡ (ok (frame bytes), w')
  unfolding answer_tcp tcp_bytes
  answer_tcp-frame packet bytes req resp w w' decoded handled packed short =
      rw (decoded, answer_tcp, handled, packed, write_prefixed-frame bytes short) refl

  Handled-Answered :
      {packets responses : List Bytes} {w w' : W}
      → Handled packets w responses w'
      → Answered (answer_tcp c handler) packets w (frames (answer_tcp c handler) responses) w'
  Handled-Answered no_query = no_more
  Handled-Answered
        (one_query packet bytes req resp {w} {w'} short decoded handled packed fits more) =
      one_more packet (frame bytes) short
        (answer_tcp-frame packet bytes req resp w w' decoded handled packed fits)
        (Handled-Answered more)

  -- A connection whose stream is the frames of packets in which the handler answers the queries, and
  -- then less than a frame, is served to its end: the packed responses are written in order, each
  -- behind its length, if each is shorter than 2^16 bytes, and the connection ends without an error.
  pub handle_tcp_connection-Answered :
      {packets responses : List Bytes} (rest : Bytes) {w w' : W}
      → Handled packets w responses w'
      → read_prefixed rest ≡ err io
      → handle_tcp_connection c handler (frames (answer_tcp c handler) packets ++ rest) w
        ≡ (ok tt, frames (answer_tcp c handler) responses, w')
  unfolding handle_tcp_connection
  handle_tcp_connection-Answered rest a e =
      serve_connection-Answered (answer_tcp c handler) rest (Handled-Answered a) e

  -- What is sent for a packet.
  pub record Sent (packet : Bytes) (w : W) (bytes : Bytes) (w' : W) : Type 0 where
    pub req : Message h
    pub resp : Message h
    pub whole : Bytes
    pub decoded : c.from_bytes packet ≡ some req
    pub handled : handler req w ≡ (ok resp, w')
    pub packed : c.to_bytes resp ≡ some whole
    pub cut :
        ((length whole ≤ 512) × (bytes ≡ whole))
        ⊎ ((512 < length whole) × (c.to_bytes (c.truncate resp) ≡ some bytes))

  udp_bytes-Sent :
      (packet : Bytes) (w : W) (req resp : Message h) {bytes : Bytes} {w' : W}
      → c.from_bytes packet ≡ some req
      → handler req w ≡ (ok resp, w')
      → udp_bytes c resp ≡ ok bytes
      → Sent packet w bytes w'
  unfolding udp_bytes fit_udp
  udp_bytes-Sent packet w req resp {bytes} d handled e =
      let (whole, packed, fitted) = >>=-eq-ok (ok_or pack (c.to_bytes resp)) (fit_udp c resp) e in
      record {
        req = req;
        resp = resp;
        whole = whole;
        decoded = d;
        handled = handled;
        packed = ok_or-eq-ok pack _ packed;
        cut = elim (Bool-cases (ltb 512 (length whole))) [
          | inl large ↦ inr (ground arith, ok_or-eq-ok pack _ (rw large at fitted))
          | inr small ↦ inl (ground arith, cc (rw small at fitted))
        ];
      }

  -- What is sent for a UDP packet is the response of the handler to the decoded packet, or, where
  -- that takes more than 512 bytes, the truncated response.
  pub handle_udp_packet-Sent :
      (packet : Bytes) (w : W) {bytes : Bytes} {w' : W}
      → handle_udp_packet c handler packet w ≡ (ok bytes, w')
      → Sent packet w bytes w'
  unfolding handle_udp_packet
  handle_udp_packet-Sent packet w {bytes} {w'} e = elim (Option-cases (c.from_bytes packet)) [
    | inl none_decoded ↦ absurd (ground arith)
    | inr (req, decoded) ↦
        let sent : ((handler req w).0 >>= udp_bytes c, (handler req w).1) ≡ (ok bytes, w') =
          rw (decoded, handle_udp_packet) at e in
        let (resp, returned, fitted) =
          >>=-eq-ok (handler req w).0 (udp_bytes c) (ap (λ x. x.0) sent) in
        udp_bytes-Sent packet w req resp decoded (ap₂ (λ r v. (r, v)) returned (ap (λ x. x.1) sent))
          fitted
  ]

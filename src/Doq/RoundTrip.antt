-- ===== src/Doq/RoundTrip.antt =====
-- A query of the client, as the listener answers it.
use dnsproxy_rs.Bootstrap.{Addresses}
use dnsproxy_rs.Client.{Formats, request_bytes}
use dnsproxy_rs.Dns.{Hickory, Message, Codec}
use dnsproxy_rs.Doq.Client.{query_stream}
use dnsproxy_rs.Doq.{quic_u16, quic_exact, read_framed, decode_query, reply_bytes, handle_stream}
use dnsproxy_rs.Error.{Result, ok, err, pack, ok_or, ◌>>=◌, >>=-eq-ok, ok_or-eq-ok}
use dnsproxy_rs.Exec
use dnsproxy_rs.Exec.{call}
use dnsproxy_rs.Io.Framing.{frame}
use dnsproxy_rs.Io.{Bytes, read_exact, read_u16}
use dnsproxy_rs.Prelude.Text.{Text}
use dnsproxy_rs.Prelude.{
  subst, sym, ℕ, ◌+◌, ◌*◌, ◌/◌, ◌%◌, ◌<◌, ◌^◌, ◌≡◌, refl, false, some, ltb, if◌then◌else◌, length,
  arith, take-length, Bool-cases, inl, inr,
}
use dnsproxy_rs.Sockets.{Sockets}
use dnsproxy_rs.Wire.{decode_response}
use dnsproxy_rs.Wire.Laws.{Answers, RoundTrips, decode_response_iff}

module _ (finished_early : ℕ → Text) where
  read_framed-frame :
      (body : Bytes) → length body < 2 ^ 16 → read_framed finished_early (frame body) ≡ ok body
  unfolding read_framed quic_u16 quic_exact read_u16 read_exact
  read_framed-frame body short =
      let same : length body / 256 * 256 + length body % 256 ≡ length body = omega arith in
      let small : ltb 65_535 (length body) ≡ false = ground arith in
      let enough : ltb (length body) (length body) ≡ false = ground arith in
      rw (same, small, enough, take-length body (length body) refl) refl

-- what passes the check of the length
short_only :
    {A : Type 0} (bytes : Bytes) (out found : A)
    → (if ltb 65_535 (length bytes) then err pack else ok out) ≡ ok found
    → (length bytes < 2 ^ 16) × (out ≡ found)
short_only bytes out found e = elim (Bool-cases (ltb 65_535 (length bytes))) [
  | inl large ↦ absurd (cc (rw large at e))
  | inr small ↦ (ground arith, cc (rw small at e))
]

module _ {h : Hickory} (c : Codec h) where
  pub request_bytes-sized :
      (m : Message h) (bytes : Bytes)
      → request_bytes c m ≡ ok bytes
      → (c.to_bytes m ≡ some bytes) × (length bytes < 2 ^ 16)
  unfolding request_bytes
  request_bytes-sized m bytes e =
      let (packed, same, checked) =
        >>=-eq-ok (ok_or pack (c.to_bytes m))
          (λ bytes. if ltb 65_535 (length bytes) then err pack else ok bytes) e in
      let (short, it) = short_only packed packed bytes checked in
      (
        subst (λ b. c.to_bytes m ≡ some b) it (ok_or-eq-ok pack _ same),
        subst (λ b. length b < 2 ^ 16) it short,
      )

  module _ (finished_early : ℕ → Text) where
    reply_bytes-sized :
        (m : Message h) (out : Bytes)
        → reply_bytes finished_early c m ≡ ok out
        → (bytes : Bytes) × (c.to_bytes (record m { id = 0 }) ≡ some bytes)
          × (length bytes < 2 ^ 16)
          × (frame bytes ≡ out)
    unfolding reply_bytes
    reply_bytes-sized m out e =
        let (packed, same, checked) =
          >>=-eq-ok (ok_or pack (c.to_bytes (record m { id = 0 })))
            (λ bytes. if ltb 65_535 (length bytes) then err pack else ok (frame bytes)) e in
        let (short, it) = short_only packed (frame packed) out checked in
        (packed, ok_or-eq-ok pack _ same, short, it)

    decode_query-frame :
        (req : Message h) (bytes : Bytes)
        → c.from_bytes bytes ≡ some req
        → length bytes < 2 ^ 16
        → req.id ≡ 0
        → decode_query finished_early c (frame bytes) ≡ ok req
    unfolding decode_query
    decode_query-frame req bytes decoded short zero_id =
        rw (read_framed-frame finished_early bytes short, ◌>>=◌, decoded, ok_or, ◌>>=◌, zero_id)
          refl

module _ {h : Hickory} (c : Codec h) (early : ℕ → Text) {V : Type 0}
    (handler : Message h → V → Result (Message h) × V) where
  handle_stream-frame :
      (req resp : Message h) (bytes out : Bytes) (v v' : V)
      → decode_query early c (frame bytes) ≡ ok req
      → handler req v ≡ (ok resp, v')
      → reply_bytes early c resp ≡ ok out
      → handle_stream early c handler (frame bytes) v ≡ (ok out, v')
  unfolding handle_stream
  handle_stream-frame req resp bytes out v v' decoded handled replied =
      rw (decoded, handle_stream, handled, ◌>>=◌, replied) refl

module _ (a : Addresses) (f : Formats a) {W : Type 0} (net : Sockets a W) {h : Hickory}
    (c : Codec h) where
  query_stream-reply :
      (conn : net.Quic) (req m : Message h) (req_bytes bytes : Bytes) (w w' : W)
      → net.converse_quic conn (frame req_bytes) w ≡ (inr (frame bytes), w')
      → length bytes < 2 ^ 16
      → decode_response c bytes req req.id ≡ ok m
      → query_stream a f net c conn req req_bytes w ≡ (ok m, w')
  unfolding query_stream call Exec.◌>>=◌
  query_stream-reply conn req m req_bytes bytes w w' sent short accepted =
      rw (sent, query_stream, call, read_framed-frame net.finished_early bytes short, accepted) refl

  module _ (early : ℕ → Text) {V : Type 0} (handler : Message h → V → Result (Message h) × V) where
    -- If the request and the response, both with identifier zero, survive the wire format, and the
    -- connection carries the client's bytes to the listener and what the listener sends back, then
    -- the listener hands the request with identifier zero to its handler, and the client returns the
    -- handler's response with the request's identifier, if that answers the request.
    pub query_stream-handle_stream :
        (conn : net.Quic) (req resp : Message h) (req_bytes out : Bytes) (w w' : W) (v v' : V)
        → RoundTrips c (record req { id = 0 })
        → RoundTrips c (record resp { id = 0 })
        → request_bytes c (record req { id = 0 }) ≡ ok req_bytes
        → handler (record req { id = 0 }) v ≡ (ok resp, v')
        → reply_bytes early c resp ≡ ok out
        → net.converse_quic conn (frame req_bytes) w ≡ (inr out, w')
        → Answers req (record resp { id = req.id })
        → (handle_stream early c handler (frame req_bytes) v ≡ (ok out, v'))
          × (query_stream a f net c conn req req_bytes w ≡ (ok (record resp { id = req.id }), w'))
    query_stream-handle_stream conn req resp req_bytes out w w' v v' back back' sent handled replied
          carried fits =
        let (packed, short) = request_bytes-sized c (record req { id = 0 }) req_bytes sent in
        let (bytes, packed', short', same) = reply_bytes-sized c early resp out replied in
        (
          handle_stream-frame c early handler (record req { id = 0 }) resp req_bytes out v v'
              (decode_query-frame c early (record req { id = 0 }) req_bytes (back req_bytes packed)
                short refl)
              handled replied,
          query_stream-reply conn req (record resp { id = req.id }) req_bytes bytes w w'
              (subst (λ b. net.converse_quic conn (frame req_bytes) w ≡ (inr b, w')) (sym same)
                carried)
              short'
              ((decode_response_iff c bytes req req.id (record resp { id = req.id })).1 (record {
                sent = record resp { id = 0 };
                decoded = back' bytes packed';
                zero_id = refl;
                restored = refl;
                fits = fits;
              })),
        )

-- ===== src/Dot/RoundTrip.antt =====
-- A query over TLS, as the listener answers it.
use dnsproxy_rs.Bootstrap.{Addresses}
use dnsproxy_rs.Client.Plain.{exchange_on}
use dnsproxy_rs.Client.{Formats, request_bytes, accepted}
use dnsproxy_rs.Dns.{Hickory, Message, Codec}
use dnsproxy_rs.Doq.RoundTrip.{request_bytes-sized}
use dnsproxy_rs.Dot.{answer, handle_connection}
use dnsproxy_rs.Error.{Result, ok, pack, ◌>>=◌, ok_or, >>=-eq-ok, ok_or-eq-ok}
use dnsproxy_rs.Exec
use dnsproxy_rs.Exec.{call}
use dnsproxy_rs.Io.Framing.{
  frame, read_prefixed-frame, write_prefixed-Framed, no_more, one_more, serve_connection-Answered,
}
use dnsproxy_rs.Io.{Bytes, read_u16, read_prefixed, write_prefixed, tcp_bytes, serve_connection}
use dnsproxy_rs.Prelude.{
  ◌<◌, ◌^◌, ◌≡◌, refl, ap, sym, subst, ◌∙◌, [], ◌++◌, some, inl, inr, length, append-nil,
}
use dnsproxy_rs.Sockets.{Sockets}
use dnsproxy_rs.Wire.Laws.{Answers, RoundTrips, validate_response_iff}

module _ {h : Hickory} (c : Codec h) where
  tcp_bytes-sized :
      (m : Message h) (out : Bytes)
      → tcp_bytes c m ≡ ok out
      → (bytes : Bytes) × (c.to_bytes m ≡ some bytes)
        × (length bytes < 2 ^ 16)
        × (frame bytes ≡ out)
  unfolding tcp_bytes
  tcp_bytes-sized m out e =
      let (bytes, packed, written) = >>=-eq-ok (ok_or pack (c.to_bytes m)) write_prefixed e in
      elim (write_prefixed-Framed bytes []) [
        | inl (short, same, read) ↦
            (bytes, ok_or-eq-ok pack (c.to_bytes m) packed, short, cc (same, written))
        | inr (long, same) ↦ absurd (cc (same, written))
      ]

  module _ {V : Type 0} (handler : Message h → V → Result (Message h) × V) where
    answer-ok :
        (req resp : Message h) (packet out : Bytes) (v v' : V)
        → c.from_bytes packet ≡ some req
        → handler req v ≡ (ok resp, v')
        → tcp_bytes c resp ≡ ok out
        → answer c handler packet v ≡ (ok out, v')
    unfolding answer
    answer-ok req resp packet out v v' decoded handled written =
        rw (decoded, answer, handled, ◌>>=◌, written) refl

    handle_connection-one :
        (packet out : Bytes) (v v' : V)
        → length packet < 2 ^ 16
        → answer c handler packet v ≡ (ok out, v')
        → handle_connection c handler (inr (frame packet)) v ≡ (ok tt, out, v')
    unfolding handle_connection read_prefixed read_u16
    handle_connection-one packet out v v' short answered =
        let whole =
          serve_connection-Answered (answer c handler) []
            (one_more packet out short answered no_more) refl in
        ap (λ s. serve_connection (answer c handler) s v)
          (sym (append-nil (frame packet ++ []) ∙ append-nil (frame packet)))
        ∙ whole
        ∙ ap (λ o. (ok tt, o, v')) (append-nil out)

module _ (a : Addresses) (f : Formats a) {W : Type 0} (net : Sockets a W) {h : Hickory}
    (c : Codec h) where
  exchange_on-reply :
      (stream : net.Stream) (req resp : Message h) (req_bytes bytes : Bytes) (w w' : W)
      → net.converse stream (frame req_bytes) w ≡ (inr (frame bytes), w')
      → length bytes < 2 ^ 16
      → c.from_bytes bytes ≡ some resp
      → Answers req resp
      → exchange_on a f net c stream req req_bytes w ≡ (ok resp, w')
  unfolding exchange_on call Exec.◌>>=◌ accepted
  exchange_on-reply stream req resp req_bytes bytes w w' carried short decoded fits =
      let read =
        ap read_prefixed (sym (append-nil (frame bytes))) ∙ read_prefixed-frame bytes [] short in
      rw (carried, exchange_on, call, read, decoded, (validate_response_iff req resp).1 fits) refl

  -- If request and response survive the wire format, and the stream carries the client's bytes to the
  -- listener and what that sends back, then the listener, behind the handshake, hands the request to
  -- its handler and sends the response behind its length until the stream ends, and the client returns
  -- that response, if it answers the request.
  pub exchange_on-handle_connection :
      {V : Type 0} (handler : Message h → V → Result (Message h) × V) (stream : net.Stream)
      (req resp : Message h) (req_bytes out : Bytes) (w w' : W) (v v' : V)
      → RoundTrips c req
      → RoundTrips c resp
      → request_bytes c req ≡ ok req_bytes
      → handler req v ≡ (ok resp, v')
      → tcp_bytes c resp ≡ ok out
      → net.converse stream (frame req_bytes) w ≡ (inr out, w')
      → Answers req resp
      → (handle_connection c handler (inr (frame req_bytes)) v ≡ (ok tt, out, v'))
        × (exchange_on a f net c stream req req_bytes w ≡ (ok resp, w'))
  exchange_on-handle_connection handler stream req resp req_bytes out w w' v v' back back' sent
        handled written carried fits =
      let (packed, short) = request_bytes-sized c req req_bytes sent in
      let (bytes, packed', short', same) = tcp_bytes-sized c resp out written in
      (
        handle_connection-one c handler req_bytes out v v' short (
            answer-ok c handler req resp req_bytes out v v' (back req_bytes packed) handled
              written),
        exchange_on-reply stream req resp req_bytes bytes w w'
            (subst (λ x. net.converse stream (frame req_bytes) w ≡ (inr x, w')) (sym same) carried)
            short' (back' bytes packed') fits,
      )

-- ===== src/Doq.antt =====
-- DNS over QUIC: the framing of src/client/doq.rs and src/listener/doq.rs, and the stream of the
-- listener. A stream is the bytes that one side sends.
pub mod Client
pub mod Kept
pub mod RoundTrip
use dnsproxy_rs.Dns.{Hickory, Message, Codec}
use dnsproxy_rs.Error.{
  DohError, quic, pack, non_zero_id, invalid_response, too_large, unpacking, doq_request, Result,
  ok, err, panic, ◌>>=◌, ok_or,
}
use dnsproxy_rs.Io.Framing.{frame}
use dnsproxy_rs.Io.{Bytes, read_exact, read_u16}
use dnsproxy_rs.Prelude.Text.{Text}
use dnsproxy_rs.Prelude.{ℕ, ◌==◌, not, Option, none, some, ltb, if◌then◌else◌, length}

-- `finished_early` is the text of the error for a stream that ends behind so many bytes.
module _ (finished_early : ℕ → Text) where
  unfoldable pub quic_u16 : Bytes → Result (ℕ × Bytes)
  unfolding read_u16
  quic_u16 stream = ok_or (quic (finished_early (length stream))) (read_u16 stream)

  unfoldable pub quic_exact : ℕ → Bytes → Result (Bytes × Bytes)
  unfolding read_exact
  quic_exact len stream = ok_or (quic (finished_early (length stream))) (read_exact len stream)

  -- the body behind a length, as both sides read it
  unfoldable pub read_framed : Bytes → Result Bytes
  unfolding quic_u16 quic_exact
  read_framed stream = do
    (len, rest) ← quic_u16 stream
    (body, more) ← if ltb 65_535 len then err (invalid_response too_large) else quic_exact len rest
    ok body

  module _ {h : Hickory} (c : Codec h) where
    unfoldable pub decode_query : Bytes → Result (Message h)
    unfolding read_framed
    decode_query stream = do
      packet ← read_framed stream
      req ← ok_or (invalid_response (unpacking doq_request)) (c.from_bytes packet)
      if not (req.id == 0) then err (non_zero_id req.id) else ok req

    -- the bytes sent for a response
    unfoldable pub reply_bytes : Message h → Result Bytes
    reply_bytes resp = do
      bytes ← ok_or pack (c.to_bytes (record resp { id = 0 }))
      if ltb 65_535 (length bytes) then err pack else ok (frame bytes)

    module _ {W : Type 0} (handler : Message h → W → Result (Message h) × W) where
      abbrev reply_with : Result (Message h) × W → Result Bytes × W
      reply_with (r, w) = (r >>= reply_bytes, w)

      abbrev answer_query : Result (Message h) → W → Result Bytes × W
      answer_query panic w = (panic, w)
      answer_query (err e) w = (err e, w)
      answer_query (ok req) w = reply_with (handler req w)

      -- `handle_stream`: what is sent for what the client sends
      unfoldable pub handle_stream : Bytes → W → Result Bytes × W
      unfolding decode_query reply_bytes
      handle_stream stream w = answer_query (decode_query stream) w

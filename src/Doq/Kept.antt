-- ===== src/Doq/Kept.antt =====
-- What the client returns.
use dnsproxy_rs.Bootstrap.{Addresses}
use dnsproxy_rs.Client.Plain.Answering.{within-Yields}
use dnsproxy_rs.Client.Reuse.Yields.{exchange-sound}
use dnsproxy_rs.Client.{Formats, SecureUpstream}
use dnsproxy_rs.Dns.{Hickory, Message, Codec}
use dnsproxy_rs.Doq.Client.{dial, query_stream, exchange_on, attempt, exchange}
use dnsproxy_rs.Error.{ok}
use dnsproxy_rs.Exec.Yields.{Yields, lift-Yields, >>=-Yields}
use dnsproxy_rs.Io.{Bytes}
use dnsproxy_rs.Prelude.{◌≡◌, Option}
use dnsproxy_rs.Sockets.{Sockets}
use dnsproxy_rs.Wire.Laws.{Answers, decode_response_iff}
use dnsproxy_rs.Wire.{decode_response}

module _ {h : Hickory} where
  -- a response with the request's identifier, which answers it
  pub record Replies (req resp : Message h) : Type 0 where
    pub same_id : resp.id ≡ req.id
    pub fits : Answers req resp

  pub decode_response-Replies :
      (c : Codec h) (req : Message h) (body : Bytes) (m : Message h)
      → decode_response c body req req.id ≡ ok m
      → Replies req m
  decode_response-Replies c req body m e =
      let got = (decode_response_iff c body req req.id m).0 e in
      record { same_id = cc (got.restored); fits = got.fits }

module _ (a : Addresses) (f : Formats a) {W : Type 0} (net : Sockets a W) {h : Hickory}
    (c : Codec h) (u : SecureUpstream a f net) (req : Message h) where
  exchange_on-Replies : (conn : net.Quic) → Yields (Replies req) (exchange_on a f net c u conn req)
  unfolding exchange_on query_stream
  exchange_on-Replies conn =
      search (>>=-Yields, within-Yields, lift-Yields, decode_response-Replies c req) depth 9

  -- What the DoQ client returns answers the request and carries its identifier.
  pub exchange-Replies :
      (conn : Option net.Quic) (w : W) (resp : Message h)
      → (exchange a f net c u req conn w).0 ≡ ok resp
      → Replies req resp
  unfolding exchange
  exchange-Replies conn w resp e =
      exchange-sound (dial a f net u) (λ _. dial a f net u) (attempt a f net c u req) (Replies req)
        (λ conn w m e. (exchange_on-Replies conn).at w e) conn w resp e

-- ===== src/Doh/Listener3.antt =====
-- src/listener/doh3.rs: how the listener answers a request over HTTP/3, whose body comes in chunks. The
-- result says whether it failed, and what it sent before.
pub mod Agreement
use dnsproxy_rs.Dns.{Hickory, Message, Codec}
use dnsproxy_rs.Doh.Credentials.{is_authorized}
use dnsproxy_rs.Doh.Http3.{collect_up_to}
use dnsproxy_rs.Doh.Listener.{
  Method, get, post, other, Request, Response, dns_param, passes, unauthorized_response,
  find_dns_param,
}
use dnsproxy_rs.Error.{DohError, Result, ok, err, panic, ◌>>=◌}
use dnsproxy_rs.Io.{Bytes}
use dnsproxy_rs.Prelude.Text.{Text, codes}
use dnsproxy_rs.Prelude.{ℕ, Bool, true, false, List, [], ◌∷◌, Option, none, some, if◌then◌else◌}
use dnsproxy_rs.Wire.{Base64, decode_request, encode_response}

-- what is sent, and the world
abbrev pub Sent : Type 0 → Type 0
Sent W = Result (Unit {0}) × Option Response × W

-- `send_response`, and `send_unauthorized`
abbrev pub with_status : ℕ → Bytes → Response
with_status status body = record {
  status = status;
  is_dns = true;
  asks_credentials = false;
  body = body;
}

module _ {W : Type 0} where
  abbrev pub send : Response → W → Sent W
  send resp w = (ok tt, some resp, w)

  abbrev pub fail : DohError → W → Sent W
  fail e w = (err e, none, w)

  abbrev pub crash : W → Sent W
  crash w = (panic, none, w)

-- the body of a request, chunk by chunk
unfoldable pub read_chunks : Request → Result Bytes
unfolding collect_up_to
read_chunks req = collect_up_to 65_535 (codes "request body too large") [] req.chunks req.broken

module _ {h : Hickory} (c : Codec h) (b : Base64) {W : Type 0}
    (handler : Message h → W → Result (Message h) × W) where
  abbrev pub send_encoded : Result Bytes → W → Sent W
  send_encoded panic w = crash w
  send_encoded (err e) w = fail e w
  send_encoded (ok bytes) w = send (with_status 200 bytes) w

  abbrev pub send_reply : Result (Message h) × W → Sent W
  send_reply (r, w) = send_encoded (r >>= encode_response c) w

  abbrev pub ask : Result (Message h) → W → Sent W
  ask panic w = crash w
  ask (err e) w = send (with_status 400 []) w
  ask (ok query) w = send_reply (handler query w)

  abbrev pub answer : Request → Result Bytes → W → Sent W
  answer req panic w = crash w
  answer req (err e) w = fail e w
  answer req (ok body) w = ask (decode_request c b (dns_param req.query) body) w

  unfoldable pub answer_method : Method → Request → W → Sent W
  unfolding read_chunks decode_request encode_response find_dns_param
  answer_method get req w = answer req (ok []) w
  answer_method post req w = answer req (read_chunks req) w
  answer_method other req w = send (with_status 405 []) w

  -- `handle_request`
  unfoldable pub handle_request : List Text → Request → W → Sent W
  unfolding answer_method is_authorized
  handle_request credentials req w =
      if passes credentials req
      then answer_method req.method req w
      else send unauthorized_response w

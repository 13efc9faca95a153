-- ===== src/Doh/Listener.antt =====
-- src/listener/doh.rs: how the listener answers a request. The crate hyper parses it; what is
-- accepted from and written to its connections is outside.
pub mod Statuses
use dnsproxy_rs.Dns.{Hickory, Message, Codec}
use dnsproxy_rs.Doh.Credentials.{is_open, is_authorized}
use dnsproxy_rs.Doh.Https.{collected}
use dnsproxy_rs.Error.{DohError, http, Result, ok, err, panic, ◌>>=◌}
use dnsproxy_rs.Io.{Bytes}
use dnsproxy_rs.Prelude.Text.{Text, codes, split, strip_prefix}
use dnsproxy_rs.Prelude.{
  ℕ, Bool, true, false, not, ◌||◌, ◌&&◌, List, [], ◌∷◌, Option, none, some, ltb, if◌then◌else◌,
  length,
}
use dnsproxy_rs.Wire.{Base64, decode_request, encode_response}

pub data Method : Type 0 where
  get post other : Method

-- A request: its query string, its header `Authorization`, and its body as it arrives.
pub record Request : Type 0 where
  pub method : Method
  pub query : Option Text
  pub authorization : Option Text
  pub chunks : List Bytes
  pub broken : Option Text

-- A response: whether it has the content type of DNS messages, and the header that asks for
-- credentials.
pub record Response : Type 0 where
  pub status : ℕ
  pub is_dns : Bool
  pub asks_credentials : Bool
  pub body : Bytes

-- `error_response` and `unauthorized_response`
abbrev pub error_response : ℕ → Response
error_response status = record {
  status = status;
  is_dns = false;
  asks_credentials = false;
  body = [];
}

abbrev pub unauthorized_response : Response
unauthorized_response = record { status = 401; is_dns = false; asks_credentials = true; body = [] }

abbrev pub dns_response : Bytes → Response
dns_response bytes = record { status = 200; is_dns = true; asks_credentials = false; body = bytes }

-- `find_dns_param`
abbrev pub first_param : Text → Option Text → Option Text → Option Text
first_param pair (some param) later = some param
first_param pair none later = later

unfoldable pub find_param : List Text → Option Text
unfolding strip_prefix
find_param [] = none
find_param (pair ∷ pairs) = first_param pair (strip_prefix (codes "dns=") pair) (find_param pairs)

unfoldable pub find_dns_param : Text → Option Text
unfolding find_param split
find_dns_param query = find_param (split b'&' query)

-- `req.uri().query().and_then(find_dns_param)`
abbrev pub dns_param : Option Text → Option Text
dns_param none = none
dns_param (some query) = find_dns_param query

-- whether the credentials let a request pass
abbrev pub passes : List Text → Request → Bool
passes credentials req = is_open credentials || is_authorized credentials req.authorization

unfoldable pub read_body : Request → Result Bytes
unfolding collected
read_body req = do
  body ← collected req.chunks req.broken
  if ltb 65_535 (length body) then err (http (codes "request body too large")) else ok body

module _ {h : Hickory} (c : Codec h) (b : Base64) {W : Type 0}
    (handler : Message h → W → Result (Message h) × W) where
  abbrev pub reply_to : Result (Message h) × W → Result Response × W
  reply_to (r, w) = (r >>= λ resp. encode_response c resp >>= λ bytes. ok (dns_response bytes), w)

  abbrev pub ask : Result (Message h) → W → Result Response × W
  ask panic w = (panic, w)
  ask (err e) w = (err e, w)
  ask (ok query) w = reply_to (handler query w)

  -- behind the body
  unfoldable pub answer : Request → Result Bytes → W → Result Response × W
  unfolding decode_request encode_response find_dns_param
  answer req body w = ask (body >>= decode_request c b (dns_param req.query)) w

  unfoldable pub answer_method : Method → Request → W → Result Response × W
  unfolding answer read_body
  answer_method get req w = answer req (ok []) w
  answer_method post req w = answer req (read_body req) w
  answer_method other req w = (ok (error_response 405), w)

  -- `handle_request_inner`
  unfoldable pub handle_request_inner : List Text → Request → W → Result Response × W
  unfolding answer_method is_authorized
  handle_request_inner credentials req w =
      if passes credentials req
      then answer_method req.method req w
      else (ok unauthorized_response, w)

  abbrev pub or_bad_request : Result Response × W → Result Response × W
  or_bad_request (ok resp, w) = (ok resp, w)
  or_bad_request (err e, w) = (ok (error_response 400), w)
  or_bad_request (panic, w) = (panic, w)

  -- `handle_request`
  unfoldable pub handle_request : List Text → Request → W → Result Response × W
  unfolding handle_request_inner
  handle_request credentials req w = or_bad_request (handle_request_inner credentials req w)

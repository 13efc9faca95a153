-- ===== src/Doh/RoundTrip.antt =====
-- A query over HTTPS, as the listener answers it.
use dnsproxy_rs.Bootstrap.{Addresses}
use dnsproxy_rs.Client.{Formats}
use dnsproxy_rs.Dns.{Hickory, Message, Codec}
use dnsproxy_rs.Doh.Https.{accept_reply}
use dnsproxy_rs.Doh.Listener.{
  get, Request, dns_response, find_param, find_dns_param, passes, answer_method,
  handle_request_inner, handle_request, answer,
}
use dnsproxy_rs.Doh.Listener3.Agreement.{joined, collected-joined}
use dnsproxy_rs.Doh.{Reply, Http, DohUpstream, is_success}
use dnsproxy_rs.Error.{Result, ok}
use dnsproxy_rs.Exec
use dnsproxy_rs.Io.{Bytes}
use dnsproxy_rs.Prelude.Text.{Text, codes, split, strip_prefix}
use dnsproxy_rs.Prelude.{
  ℕ, ◌≤◌, ◌≡◌, refl, sym, subst, true, false, List, [], ◌∷◌, ◌++◌, Option, none, some, ◌==◌, ltb,
  length, arith,
}
use dnsproxy_rs.Sockets.{Sockets}
use dnsproxy_rs.UpstreamUrl.{has_char}
use dnsproxy_rs.Wire.Laws.{Answers, RoundTrips, decode_response-encode_request}
use dnsproxy_rs.Wire.{Base64, encode_request, encode_response, decode_request, decode_response}

split-whole : (sep : ℕ) (s : Text) → has_char sep s ≡ false → split sep s ≡ s ∷ []
unfolding split has_char
split-whole sep [] h = refl
split-whole sep (c ∷ cs) h =
    let other : (c == sep) ≡ false = ground arith in
    let rest : has_char sep cs ≡ false = ground arith in rw (other, split-whole sep cs rest) refl

-- the parameter that the client writes
find_dns_param-written :
    (encoded : Text)
    → has_char b'&' encoded ≡ false
    → find_dns_param (codes "dns=" ++ encoded) ≡ some encoded
unfolding find_dns_param find_param strip_prefix has_char
find_dns_param-written encoded h =
    rw (split-whole b'&' (codes "dns=" ++ encoded) h, find_dns_param) refl

-- the request of a client that asks with a parameter
abbrev pub get_with : Text → Option Text → Request
get_with encoded authorization = record {
  method = get;
  query = some (codes "dns=" ++ encoded);
  authorization = authorization;
  chunks = [];
  broken = none;
}

-- a successful reply with a body in chunks
abbrev pub ok_reply : List Bytes → Reply
ok_reply chunks = record { status = 200; chunks = chunks; broken = none }

module _ {h : Hickory} (c : Codec h) (b : Base64) {V : Type 0}
    (handler : Message h → V → Result (Message h) × V) (credentials : List Text) where
  handle_request-get :
      (encoded : Text) (auth : Option Text) (req resp : Message h) (body : Bytes) (v v' : V)
      → has_char b'&' encoded ≡ false
      → passes credentials (get_with encoded auth) ≡ true
      → decode_request c b (some encoded) [] ≡ ok req
      → handler req v ≡ (ok resp, v')
      → encode_response c resp ≡ ok body
      → handle_request c b handler credentials (get_with encoded auth) v
        ≡ (ok (dns_response body), v')
  unfolding handle_request handle_request_inner answer_method answer
  handle_request-get encoded auth req resp body v v' clean pass decoded handled packed =
      rw (pass, handle_request, find_dns_param-written encoded clean, decoded, handled, packed) refl

module _ (a : Addresses) (f : Formats a) {W : Type 0} (net : Sockets a W) (lib : Http a net)
    {h : Hickory} (c : Codec h) (b : Base64) (u : DohUpstream a f net) where
  accept_reply-ok :
      (req m : Message h) (i : ℕ) (chunks : List Bytes) (w : W)
      → length (joined chunks) ≤ 65_535
      → decode_response c (joined chunks) req i ≡ ok m
      → accept_reply a f net lib c b u req i (ok_reply chunks) w ≡ (ok m, w)
  unfolding accept_reply is_success Exec.◌>>=◌
  accept_reply-ok req m i chunks w short accepted =
      let small : ltb 65_535 (length (joined chunks)) ≡ false = ground arith in
      rw (collected-joined chunks, accept_reply, small, accepted) refl

  module _ {V : Type 0} (handler : Message h → V → Result (Message h) × V)
      (credentials : List Text) where
    -- If the request, with identifier zero, and the response, which has it too, survive the wire
    -- format, the encoded request has no `&`, and the credentials let it pass, then the listener hands
    -- the request with identifier zero to its handler and answers 200 with the packed response; and
    -- the client, in whatever chunks that body comes, returns the response with the request's
    -- identifier, if that answers the request and takes at most 65535 bytes.
    pub accept_reply-handle_request :
        (req resp : Message h) (encoded : Text) (i : ℕ) (body : Bytes) (chunks : List Bytes) (w : W)
        (v v' : V)
        → RoundTrips c (record req { id = 0 })
        → RoundTrips c resp
        → encode_request c b req ≡ ok (encoded, i)
        → has_char b'&' encoded ≡ false
        → passes credentials (get_with encoded u.basic_auth_header) ≡ true
        → handler (record req { id = 0 }) v ≡ (ok resp, v')
        → resp.id ≡ 0
        → Answers req (record resp { id = req.id })
        → encode_response c resp ≡ ok body
        → joined chunks ≡ body
        → length body ≤ 65_535
        → (handle_request c b handler credentials (get_with encoded u.basic_auth_header) v
            ≡ (ok (dns_response body), v'))
          × (accept_reply a f net lib c b u req i (ok_reply chunks) w
              ≡ (ok (record resp { id = req.id }), w))
    accept_reply-handle_request req resp encoded i body chunks w v v' back back' sent clean pass
          handled zero_id fits packed whole short =
        let (read, accepted) =
          decode_response-encode_request c b req resp encoded body i back back' sent zero_id fits
            packed in
        (
          handle_request-get c b handler credentials encoded u.basic_auth_header
              (record req { id = 0 }) resp body v v' clean pass read handled packed,
          accept_reply-ok req (record resp { id = req.id }) i chunks w
              (subst (λ x. length x ≤ 65_535) (sym whole) short)
              (subst (λ x. decode_response c x req i ≡ ok (record resp { id = req.id })) (sym whole)
                accepted),
        )

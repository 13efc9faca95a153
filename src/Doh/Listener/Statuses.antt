-- ===== src/Doh/Listener/Statuses.antt =====
-- The status of every response of the DoH listener, and when its handler is asked.
use dnsproxy_rs.Dns.{Hickory, Message, Codec}
use dnsproxy_rs.Doh.Credentials.{is_open, any_valid, is_authorized}
use dnsproxy_rs.Doh.Https.{prepend, collected}
use dnsproxy_rs.Doh.Listener.{
  Method, get, post, other, Request, Response, error_response, unauthorized_response, dns_response,
  dns_param, passes, read_body, reply_to, ask, answer, answer_method, handle_request_inner,
  or_bad_request, handle_request,
}
use dnsproxy_rs.Error.{DohError, Result, ok, err, panic, ◌>>=◌, ok_or, >>=-ne-panic, ok_or-ne-panic}
use dnsproxy_rs.Io.{Bytes}
use dnsproxy_rs.Prelude.Text.{Text, text_eq, text_eq_iff}
use dnsproxy_rs.Prelude.{
  ◌≡◌, ◌≢◌, refl, ap, sym, ◌↔◌, ◌||◌, Any, ◌∙◌, Bool, true, false, List, [], ◌∷◌, Option, none,
  some, Bool-cases, Option-cases, inl, inr, ltb, length, if◌then◌else◌,
}
use dnsproxy_rs.Wire.{Base64, dns_bytes, decode_request, encode_response}

collected-ne-panic : (chunks : List Bytes) (broken : Option Text) → collected chunks broken ≢ panic
unfolding collected
collected-ne-panic [] none same = cc same
collected-ne-panic [] (some e) same = cc same
collected-ne-panic (chunk ∷ chunks) broken same =
    prepended (collected chunks broken) (collected-ne-panic chunks broken) same
  where
    prepended : (r : Result Bytes) → r ≢ panic → prepend chunk r ≢ panic
    prepended panic safe same = safe refl
    prepended (err e) safe same = cc same
    prepended (ok rest) safe same = cc same

read_body-ne-panic : (req : Request) → read_body req ≢ panic
unfolding read_body
read_body-ne-panic req =
    >>=-ne-panic (collected req.chunks req.broken) _ (collected-ne-panic req.chunks req.broken)
      λ body. if-ne-panic (ltb 65_535 (length body)) _ body
  where
    if-ne-panic :
        (large : Bool) (e : DohError) (body : Bytes) → (if large then err e else ok body) ≢ panic
    if-ne-panic true e body same = cc same
    if-ne-panic false e body same = cc same

module _ {h : Hickory} (c : Codec h) (b : Base64) where
  decode_request-ne-panic :
      (param : Option Text) (body : Bytes) → decode_request c b param body ≢ panic
  unfolding decode_request dns_bytes
  decode_request-ne-panic none body = ok_or-ne-panic _ (c.from_bytes body)
  decode_request-ne-panic (some param) body =
      >>=-ne-panic (ok_or _ (b.decode param)) _ (ok_or-ne-panic _ (b.decode param))
        λ bytes. ok_or-ne-panic _ (c.from_bytes bytes)

  -- the query of a request
  abbrev pub query_of : Request → Result Bytes → Result (Message h)
  query_of req body = body >>= decode_request c b (dns_param req.query)

  -- the body that counts
  abbrev pub body_of : Method → Request → Result Bytes
  body_of get req = ok []
  body_of post req = read_body req
  body_of other req = ok []

  query_of-ne-panic :
      (req : Request) (body : Result Bytes) → body ≢ panic → query_of req body ≢ panic
  query_of-ne-panic req body safe =
      >>=-ne-panic body _ safe λ bytes. decode_request-ne-panic (dns_param req.query) bytes

  body_of-ne-panic : (m : Method) (req : Request) → body_of m req ≢ panic
  body_of-ne-panic get req same = cc same
  body_of-ne-panic post req same = read_body-ne-panic req same
  body_of-ne-panic other req same = cc same

-- Who may ask: everybody, where no credentials are configured, and else whoever sends a header that is
-- one of those of the credentials.
pub data Permitted : List Text → Option Text → Type 0 where
  nobody_needs : (authorization : Option Text) → Permitted [] authorization
  sent_one :
      (v : Text) (valid : List Text) (given : Text)
      → Any (λ x. x ≡ given) (v ∷ valid)
      → Permitted (v ∷ valid) (some given)

any_valid_iff :
    (valid : List Text) (given : Text) → (any_valid valid given ≡ true) ↔ Any (λ x. x ≡ given) valid
any_valid_iff [] given = (λ e. absurd (cc e), λ any. absurd any)
any_valid_iff (v ∷ valid) given = elim (Bool-cases (text_eq v given)) [
  | inl same ↦ (λ e. inl ((text_eq_iff v given).0 same), λ any. rw same refl)
  | inr differs ↦ (
    λ e. inr ((any_valid_iff valid given).0 (rw differs at e)),
    λ any. elim any [
      | inl same ↦ absurd (cc (differs, (text_eq_iff v given).1 same))
      | inr later ↦ rw differs ((any_valid_iff valid given).1 later)
    ],
  )
]

passes_iff :
    (credentials : List Text) (authorization : Option Text)
    → ((is_open credentials || is_authorized credentials authorization) ≡ true)
      ↔ Permitted credentials authorization
unfolding is_authorized
passes_iff [] authorization = (λ e. nobody_needs authorization, λ p. refl)
passes_iff (v ∷ valid) none = (λ e. absurd (cc e), unknown)
  where
    unknown : Permitted (v ∷ valid) none → false ≡ true
    unknown p = elim p [ ]
passes_iff (v ∷ valid) (some given) =
    (λ e. sent_one v valid given ((any_valid_iff (v ∷ valid) given).0 e), found)
  where
    found : Permitted (v ∷ valid) (some given) → any_valid (v ∷ valid) given ≡ true
    found (sent_one w rest text any) = (any_valid_iff (v ∷ valid) given).1 any

module _ {h : Hickory} (c : Codec h) (b : Base64) {W : Type 0}
    (handler : Message h → W → Result (Message h) × W) (credentials : List Text) (req : Request)
    (w : W) where
  abbrev query : Result (Message h)
  query = query_of c b req (body_of c b req.method req)

  -- What a request is answered with, and the world behind.
  pub data Responds : Result Response → W → Type 0 where
    -- credentials are configured, and the header is none of theirs: the handler is not asked
    unauthorized : ¬ Permitted credentials req.authorization → Responds (ok unauthorized_response) w
    wrong_method :
        Permitted credentials req.authorization
        → req.method ≡ other
        → Responds (ok (error_response 405)) w
    -- no body, one that is too long, or one without a query in it
    unreadable :
        (e : DohError)
        → Permitted credentials req.authorization
        → req.method ≢ other
        → query ≡ err e
        → Responds (ok (error_response 400)) w
    handler_failed :
        (q : Message h) (e : DohError) {w' : W}
        → Permitted credentials req.authorization
        → req.method ≢ other
        → query ≡ ok q
        → handler q w ≡ (err e, w')
        → Responds (ok (error_response 400)) w'
    unpacked :
        (q resp : Message h) {w' : W}
        → Permitted credentials req.authorization
        → req.method ≢ other
        → query ≡ ok q
        → handler q w ≡ (ok resp, w')
        → c.to_bytes resp ≡ none
        → Responds (ok (error_response 400)) w'
    answered :
        (q resp : Message h) (bytes : Bytes) {w' : W}
        → Permitted credentials req.authorization
        → req.method ≢ other
        → query ≡ ok q
        → handler q w ≡ (ok resp, w')
        → c.to_bytes resp ≡ some bytes
        → Responds (ok (dns_response bytes)) w'
    handler_panicked :
        (q : Message h) {w' : W}
        → Permitted credentials req.authorization
        → req.method ≢ other
        → query ≡ ok q
        → handler q w ≡ (panic, w')
        → Responds panic w'

  abbrev Behind : Result Response × W → Type 0
  Behind (r, w') = Responds r w'

  module _ (pass : Permitted credentials req.authorization) (known : req.method ≢ other) where
    reply_to-Responds :
        (q : Message h) (r : Result (Message h)) (w' : W)
        → query ≡ ok q
        → handler q w ≡ (r, w')
        → Behind (or_bad_request c b handler (reply_to c b handler (r, w')))
    unfolding encode_response
    reply_to-Responds q panic w' decoded handled = handler_panicked q pass known decoded handled
    reply_to-Responds q (err e) w' decoded handled = handler_failed q e pass known decoded handled
    reply_to-Responds q (ok resp) w' decoded handled = elim (Option-cases (c.to_bytes resp)) [
      | inl none_packed ↦ rw none_packed (unpacked q resp pass known decoded handled none_packed)
      | inr (bytes, packed) ↦ rw packed (answered q resp bytes pass known decoded handled packed)
    ]

    ask-Responds :
        (r : Result (Message h))
        → query ≡ r
        → r ≢ panic
        → Behind (or_bad_request c b handler (ask c b handler r w))
    ask-Responds panic decoded safe = absurd (safe refl)
    ask-Responds (err e) decoded safe = unreadable e pass known decoded
    ask-Responds (ok q) decoded safe =
        reply_to-Responds q (handler q w).0 (handler q w).1 decoded refl

  known_method-Responds :
      (m : Method)
      → Permitted credentials req.authorization
      → req.method ≡ m
      → m ≢ other
      → Behind
          (or_bad_request c b handler (ask c b handler (query_of c b req (body_of c b m req)) w))
  known_method-Responds m pass e known =
      ask-Responds pass (λ o. known (sym e ∙ o)) (query_of c b req (body_of c b m req))
        (ap (λ m. query_of c b req (body_of c b m req)) e)
        (query_of-ne-panic c b req (body_of c b m req) (body_of-ne-panic c b m req))

  answer_method-Responds :
      (m : Method)
      → Permitted credentials req.authorization
      → req.method ≡ m
      → Behind (or_bad_request c b handler (answer_method c b handler m req w))
  unfolding answer_method answer
  answer_method-Responds get pass e = known_method-Responds get pass e λ o. cc o
  answer_method-Responds post pass e = known_method-Responds post pass e λ o. cc o
  answer_method-Responds other pass e = wrong_method pass e

  -- Every request is answered, unless the handler panics: with 401 if credentials are configured and
  -- the request has none of theirs, with 405 for another method than GET and POST, with 400 where
  -- there is no query in it, the handler fails or its response cannot be packed, and with 200 and the
  -- packed response of the handler otherwise. The handler is asked in the last three cases only.
  pub handle_request-Responds :
      let (r, w') = handle_request c b handler credentials req w in Responds r w'
  unfolding handle_request handle_request_inner
  handle_request-Responds = elim (Bool-cases (passes credentials req)) [
    | inl pass ↦
        rw (pass, handle_request)
          (answer_method-Responds req.method ((passes_iff credentials req.authorization).0 pass)
            refl)
    | inr no_pass ↦
        rw (no_pass, handle_request)
          (unauthorized λ permitted.
            absurd (cc (no_pass, (passes_iff credentials req.authorization).1 permitted)))
  ]

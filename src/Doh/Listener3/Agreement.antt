-- ===== src/Doh/Listener3/Agreement.antt =====
-- Both DoH listeners answer a request alike.
use dnsproxy_rs.Dns.{Hickory, Message, Codec}
use dnsproxy_rs.Doh.Http3.{collect_up_to}
use dnsproxy_rs.Doh.Https.{prepend, collected}
use dnsproxy_rs.Doh.Listener
use dnsproxy_rs.Doh.Listener.{
  Method, get, post, other, Request, Response, error_response, dns_param, passes, read_body,
  or_bad_request,
}
use dnsproxy_rs.Doh.Listener3.{
  Sent, read_chunks, send_reply, ask, answer, answer_method, handle_request,
}
use dnsproxy_rs.Error.{DohError, http, Result, ok, err, panic, ◌>>=◌}
use dnsproxy_rs.Io.{Bytes}
use dnsproxy_rs.Prelude.Text.{Text, codes}
use dnsproxy_rs.Prelude.{
  ℕ, ◌≤◌, ◌≡◌, ◌⊎◌, refl, ap, true, false, List, [], ◌∷◌, ◌++◌, Option, none, some, Bool-cases,
  Option-cases, inl, inr, ltb, length, length-append, if◌then◌else◌, append-nil, append_assoc,
  arith,
}
use dnsproxy_rs.Wire.{Base64, decode_request, encode_response}

abbrev pub joined : List Bytes → Bytes
joined [] = []
joined (chunk ∷ chunks) = chunk ++ joined chunks

pub collected-joined : (chunks : List Bytes) → collected chunks none ≡ ok (joined chunks)
unfolding collected
collected-joined [] = refl
collected-joined (chunk ∷ chunks) = ap (prepend chunk) (collected-joined chunks)

-- a body that breaks off
collected-broken :
    (chunks : List Bytes) (e : Text) → (x : DohError) × (collected chunks (some e) ≡ err x)
unfolding collected
collected-broken [] e = (_, refl)
collected-broken (chunk ∷ chunks) e =
    let (x, same) = collected-broken chunks e in (x, ap (prepend chunk) same)

collect_up_to-broken :
    (limit : ℕ) (t : Text) (body : Bytes) (chunks : List Bytes) (e : Text)
    → (x : DohError) × (collect_up_to limit t body chunks (some e) ≡ err x)
unfolding collect_up_to
collect_up_to-broken limit t body [] e = (_, refl)
collect_up_to-broken limit t body (chunk ∷ chunks) e =
    let (x, same) = collect_up_to-broken limit t (body ++ chunk) chunks e in
    elim (Bool-cases (ltb limit (length (body ++ chunk)))) [
      | inl large ↦ (http t, rw large refl)
      | inr small ↦ (x, rw small same)
    ]

collect_up_to-joined :
    (limit : ℕ) (t : Text) (body : Bytes) (chunks : List Bytes)
    → length body ≤ limit
    → collect_up_to limit t body chunks none ≡ (
        if ltb limit (length (body ++ joined chunks))
        then err (http t)
        else ok (body ++ joined chunks))
unfolding collect_up_to
collect_up_to-joined limit t body [] short =
    let small : ltb limit (length body) ≡ false = ground arith in rw (append-nil body, small) refl
collect_up_to-joined limit t body (chunk ∷ chunks) short =
    elim (Bool-cases (ltb limit (length (body ++ chunk)))) [
      | inl large ↦
          let longer : ltb limit (length (body ++ (chunk ++ joined chunks))) ≡ true = ground (
            arith,
            length-append body chunk,
            length-append body (chunk ++ joined chunks),
            length-append chunk (joined chunks),
          ) in
          rw (large, longer) refl
      | inr small ↦
          rw (small, ← append_assoc body chunk (joined chunks))
            (collect_up_to-joined limit t (body ++ chunk) chunks (ground arith))
    ]

abbrev BothWays : Result Bytes → Result Bytes → Type 0
BothWays r r' =
    ((body : Bytes) × (r ≡ ok body) × (r' ≡ ok body))
    ⊎ ((e e' : DohError) × (r ≡ err e) × (r' ≡ err e'))

abbrev limited : Bytes → Result Bytes
limited body =
    if ltb 65_535 (length body) then err (http (codes "request body too large")) else ok body

limited-BothWays :
    (body : Bytes) (r r' : Result Bytes) → r ≡ limited body → r' ≡ limited body → BothWays r r'
limited-BothWays body r r' same same' = elim (Bool-cases (ltb 65_535 (length body))) [
  | inl large ↦ inr (_, _, rw large at same, rw large at same')
  | inr small ↦ inl (body, rw small at same, rw small at same')
]

read_all-BothWays :
    (chunks : List Bytes) (broken : Option Text)
    → BothWays
        (collected chunks broken >>= limited)
        (collect_up_to 65_535 (codes "request body too large") [] chunks broken)
read_all-BothWays chunks none =
    limited-BothWays (joined chunks) _ _ (ap (λ r. r >>= limited) (collected-joined chunks))
      (collect_up_to-joined 65_535 (codes "request body too large") [] chunks (omega arith))
read_all-BothWays chunks (some e) =
    let (x, same) = collected-broken chunks e in
    let (y, same') = collect_up_to-broken 65_535 (codes "request body too large") [] chunks e in
    inr (x, y, ap (λ r. r >>= limited) same, same')

-- the two ways to read a body
read_body-read_chunks : (req : Request) → BothWays (read_body req) (read_chunks req)
unfolding read_body read_chunks
read_body-read_chunks req = read_all-BothWays req.chunks req.broken

module _ {h : Hickory} (c : Codec h) (b : Base64) {W : Type 0}
    (handler : Message h → W → Result (Message h) × W) where
  -- How what one listener answers fits what the other one sends.
  pub data Agree : Result Response → W → Sent W → Type 0 where
    alike :
        {r r' : Response} {w : W}
        → r.status ≡ r'.status
        → r.body ≡ r'.body
        → Agree (ok r) w (ok tt, some r', w)
    -- over HTTP/3, the stream fails where the other listener answers 400
    unanswered : {e : DohError} {w : W} → Agree (ok (error_response 400)) w (err e, none, w)
    crashed : {w : W} → Agree panic w (panic, none, w)

  abbrev Both : Result Response × W → Sent W → Type 0
  Both (r, w) sent = Agree r w sent

  reply_to-Agree :
      (r : Result (Message h)) (w : W)
      → Both
          (or_bad_request c b handler (Listener.reply_to c b handler (r, w)))
          (send_reply c b handler (r, w))
  unfolding encode_response
  reply_to-Agree panic w = crashed
  reply_to-Agree (err e) w = unanswered
  reply_to-Agree (ok resp) w = elim (Option-cases (c.to_bytes resp)) [
    | inl none_packed ↦ rw none_packed unanswered
    | inr (bytes, packed) ↦ rw packed (alike refl refl)
  ]

  ask-Agree :
      (r : Result (Message h)) (w : W)
      → Both (or_bad_request c b handler (Listener.ask c b handler r w)) (ask c b handler r w)
  ask-Agree panic w = crashed
  ask-Agree (err e) w = alike refl refl
  ask-Agree (ok query) w = let (r, w') = handler query w in reply_to-Agree r w'

  answer-Agree :
      (req : Request) (r r' : Result Bytes) (w : W)
      → BothWays r r'
      → Both
          (or_bad_request c b handler (Listener.answer c b handler req r w))
          (answer c b handler req r' w)
  unfolding Listener.answer
  answer-Agree req r r' w (inl (body, same, same')) =
      rw (same, same') (ask-Agree (decode_request c b (dns_param req.query) body) w)
  answer-Agree req r r' w (inr (e, e', same, same')) = rw (same, same') unanswered

  answer_method-Agree :
      (m : Method) (req : Request) (w : W)
      → Both
          (or_bad_request c b handler (Listener.answer_method c b handler m req w))
          (answer_method c b handler m req w)
  unfolding Listener.answer_method answer_method
  answer_method-Agree get req w = answer-Agree req (ok []) (ok []) w (inl ([], refl, refl))
  answer_method-Agree post req w =
      answer-Agree req (read_body req) (read_chunks req) w (read_body-read_chunks req)
  answer_method-Agree other req w = alike refl refl

  -- Over HTTP/3 a request gets the status and the body that it gets over HTTP/1.1 or HTTP/2, and
  -- leaves the same world, except that the stream may fail without a response where the other
  -- listener answers 400.
  pub handle_request-Agree :
      (credentials : List Text) (req : Request) (w : W)
      → let (r, w') = Listener.handle_request c b handler credentials req w in
        Agree r w' (handle_request c b handler credentials req w)
  unfolding Listener.handle_request Listener.handle_request_inner handle_request
  handle_request-Agree credentials req w = elim (Bool-cases (passes credentials req)) [
    | inl pass ↦
        rw (pass, Listener.handle_request, handle_request) (answer_method-Agree req.method req w)
    | inr no_pass ↦ rw (no_pass, Listener.handle_request, handle_request) (alike refl refl)
  ]

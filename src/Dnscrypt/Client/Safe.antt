-- ===== src/Dnscrypt/Client/Safe.antt =====
-- What the client returns: only responses that answer the query, and when it asks twice.
use dnsproxy_rs.Dns.{Hickory, Message, Codec}
use dnsproxy_rs.Dnscrypt.Client.{
  Network, is_retried, refresh_cert, current_cert, opened, checked, exchange_tcp, finish_exchange,
  send_query, exchange_with_cert, with_cert, retry, first_try, exchange_in_time, or_expired,
  exchange,
}
use dnsproxy_rs.Dnscrypt.Frames.{Certificate}
use dnsproxy_rs.Dnscrypt.{Crypto, Bytes}
use dnsproxy_rs.Error.{Result, ok, err, panic, ◌>>=◌, >>=-eq-ok, >>-eq-ok}
use dnsproxy_rs.Prelude.{
  ℕ, ◌≡◌, ◌⊎◌, none, some, Bool, true, false, Option, if◌then◌else◌, subst, Option-cases, inl, inr,
}
use dnsproxy_rs.Wire.{validate_response}
use dnsproxy_rs.Wire.Laws.{Answers, validate_response_iff}

if-cases :
    {A T : Type 0} (f : T → A) (b : Bool) (x y : T) {z : A}
    → f (if b then x else y) ≡ z
    → (f x ≡ z) ⊎ (f y ≡ z)
if-cases f true x y e = inl e
if-cases f false x y e = inr e

module _ (c : Crypto) {W : Type 0} (network : Network c W) (provider_public_key : Bytes)
    {h : Hickory} (codec : Codec h) where
  checked-Answers :
      (req resp : Message h) {m : Message h}
      → checked c network provider_public_key codec req resp ≡ ok m
      → Answers req m
  unfolding checked
  checked-Answers req resp {m} e =
      let (valid, same) = >>-eq-ok (validate_response req resp) (ok resp) e in
      let it : resp ≡ m = cc same in
      subst (Answers req) it ((validate_response_iff req resp).0 valid)

  finish_exchange-Answers :
      (cert : Certificate) (client : c.SecretKey) (nonce framed : Bytes) (req : Message h)
      (r : Result (Message h)) (w : W) {m : Message h}
      → (finish_exchange c network provider_public_key codec cert client nonce framed req r w).0
        ≡ ok m
      → Answers req m
  unfolding finish_exchange
  finish_exchange-Answers cert client nonce framed req panic w e = absurd (cc e)
  finish_exchange-Answers cert client nonce framed req (err x) w e = absurd (cc e)
  finish_exchange-Answers cert client nonce framed req (ok resp) w e =
      let tcp = exchange_tcp c network provider_public_key framed w in
      let again : Result (Message h) =
        (tcp.0 >>= opened c network provider_public_key codec cert client nonce)
        >>= checked c network provider_public_key codec req in
      elim (if-cases {T = Result (Message h) × W} (λ t. t.0) resp.truncation (again, tcp.1)
        (checked c network provider_public_key codec req resp, w) e) [
          | inl second ↦
              let (next, answered, valid) =
                >>=-eq-ok (tcp.0 >>= opened c network provider_public_key codec cert client nonce)
                  (checked c network provider_public_key codec req) second in
              checked-Answers req next valid
          | inr first ↦ checked-Answers req resp first
        ]

  send_query-Answers :
      (cert : Certificate) (client : c.SecretKey) (req : Message h) (q : Result (Bytes × Bytes))
      (w : W) {m : Message h}
      → (send_query c network provider_public_key codec cert client req q w).0 ≡ ok m
      → Answers req m
  unfolding send_query
  send_query-Answers cert client req panic w e = absurd (cc e)
  send_query-Answers cert client req (err x) w e = absurd (cc e)
  send_query-Answers cert client req (ok (framed, nonce)) w e =
      finish_exchange-Answers cert client nonce framed req _ _ e

  exchange_with_cert-Answers :
      (cert : Certificate) (req : Message h) (w : W) {m : Message h}
      → (exchange_with_cert c network provider_public_key codec cert req w).0 ≡ ok m
      → Answers req m
  unfolding exchange_with_cert
  exchange_with_cert-Answers cert req w e = elim (Option-cases (codec.to_bytes req)) [
    | inl unpacked ↦ absurd (cc (rw (unpacked, exchange_with_cert) at e))
    | inr (bytes, packed) ↦ send_query-Answers cert _ req _ _ (rw (packed, exchange_with_cert) at e)
  ]

  with_cert-Answers :
      (req : Message h) (s : Result Certificate × Option Certificate × W) {m : Message h}
      → (with_cert c network provider_public_key codec req s).0 ≡ ok m
      → Answers req m
  unfolding with_cert
  with_cert-Answers req (panic, cached, w) e = absurd (cc e)
  with_cert-Answers req (err x, cached, w) e = absurd (cc e)
  with_cert-Answers req (ok cert, cached, w) e = exchange_with_cert-Answers cert req w e

  retry-Answers :
      (req : Message h) (s : Result (Message h) × Option Certificate × W) {m : Message h}
      → ((resp : Message h) → s.0 ≡ ok resp → Answers req resp)
      → (retry c network provider_public_key codec req s).0 ≡ ok m
      → Answers req m
  unfolding retry
  retry-Answers req (panic, cached, w) a e = absurd (cc e)
  retry-Answers req (ok resp, cached, w) {m} a e = a m e
  retry-Answers req (err x, cached, w) {m} a e =
      let again =
        with_cert c network provider_public_key codec req
          (refresh_cert c network provider_public_key cached w) in
      elim (if-cases {T = Result (Message h) × Option Certificate × W} (λ t. t.0) (is_retried x)
        again (err x, cached, w) e) [
          | inl second ↦
              with_cert-Answers req (refresh_cert c network provider_public_key cached w) second
          | inr first ↦ absurd (cc first)
        ]

  first_try-Answers :
      (req : Message h) (s : Result Certificate × Option Certificate × W) {m : Message h}
      → (first_try c network provider_public_key codec req s).0 ≡ ok m
      → Answers req m
  unfolding first_try
  first_try-Answers req (panic, cached, w) e = absurd (cc e)
  first_try-Answers req (err x, cached, w) e = absurd (cc e)
  first_try-Answers req (ok cert, cached, w) e =
      retry-Answers req (with_cert c network provider_public_key codec req (ok cert, cached, w))
        (λ resp. with_cert-Answers req (ok cert, cached, w)) e

  exchange_in_time-Answers :
      (req : Message h) (cached : Option Certificate) (w : W) {m : Message h}
      → (exchange_in_time c network provider_public_key codec req cached w).0 ≡ ok m
      → Answers req m
  unfolding exchange_in_time
  exchange_in_time-Answers req cached w e =
      first_try-Answers req (current_cert c network provider_public_key cached w) e

  or_expired-ok :
      (d : ℕ) (o : Option (Option Certificate × W))
      (r : Result (Message h) × Option Certificate × W) {m : Message h}
      → (or_expired c network provider_public_key codec d o r).0 ≡ ok m
      → r.0 ≡ ok m
  or_expired-ok d none r e = e
  or_expired-ok d (some (cached, w)) r e = absurd (cc e)

  -- Whatever certificate is used, with or without a timeout, and whether or not the client asks twice,
  -- over UDP or over TCP, a response that it returns answers the request.
  pub exchange-Answers :
      (limit : Option ℕ) (req : Message h) (cached : Option Certificate) (w : W) {m : Message h}
      → (exchange c network provider_public_key codec limit req cached w).0 ≡ ok m
      → Answers req m
  unfolding exchange
  exchange-Answers none req cached w e = exchange_in_time-Answers req cached w e
  exchange-Answers (some d) req cached w e =
      exchange_in_time-Answers req cached w (or_expired-ok d (network.expires d cached w) _ e)

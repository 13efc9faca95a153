-- ===== src/Dnscrypt/Client.antt =====
-- src/client/dnscrypt.rs: the DNSCrypt client, whose state is the cached certificate beside the
-- world. The sockets are the interface `Network`.
pub mod Fresh
pub mod Safe
use dnsproxy_rs.Dns.{Hickory, Message, Codec}
use dnsproxy_rs.Dnscrypt.Certificates.{parse_certificates}
use dnsproxy_rs.Dnscrypt.Frames.{Certificate, is_valid_at, encrypt_query, decrypt_response}
use dnsproxy_rs.Dnscrypt.{Crypto, Bytes}
use dnsproxy_rs.Error.{
  DohError, timeout, io, pack, dns_crypt, no_valid_certificate, too_large_for_tcp, invalid_response,
  unpacking, response, Result, ok, err, panic, ◌>>=◌, ◌>>◌, ok_or,
}
use dnsproxy_rs.Io.{read_prefixed}
use dnsproxy_rs.Prelude.{
  ℕ, ◌/◌, ◌%◌, Bool, true, false, List, [], ◌∷◌, Option, none, some, ltb, if◌then◌else◌, length,
}
use dnsproxy_rs.Wire.{validate_response}

-- What the client asks of its surroundings, in a world `W`; nothing means that a socket failed.
pub record Network (c : Crypto) (W : Type 0) : Type 0 where
  -- whether a duration is over before the exchange that is begun now; then, the certificate that is
  -- cached and the world at that moment
  pub expires : ℕ → Option Certificate → W → Option (Option Certificate × W)
  -- the clock, in seconds
  pub now : W → ℕ
  -- a fresh key pair and 12 random bytes
  pub draw : W → (c.SecretKey × Bytes) × W
  -- `fetch_provider_txt`
  pub fetch : W → Result (List Bytes) × W
  -- one datagram sent, and one received
  pub udp : Bytes → W → Option Bytes × W
  -- a connection: what is written, and what the server sends
  pub tcp : Bytes → W → Option Bytes × W

abbrev pub head : List Certificate → Option Certificate
head [] = none
head (x ∷ xs) = some x

-- `retain(|c| c.is_valid_at(now))`
unfoldable pub retain : ℕ → List Certificate → List Certificate
unfolding is_valid_at
retain now [] = []
retain now (x ∷ xs) = if is_valid_at x now then x ∷ retain now xs else retain now xs

-- which errors are tried again
unfoldable pub is_retried : DohError → Bool
is_retried (timeout d) = true
is_retried io = true
is_retried e = false

module _ (c : Crypto) {W : Type 0} (network : Network c W) (provider_public_key : Bytes) where
  open network use {expires, now, draw, fetch, udp, tcp}

  -- the first certificate that is valid now
  unfoldable pub choose : ℕ → List Bytes → Result Certificate
  unfolding parse_certificates retain
  choose time txt_records = do
    certs ← parse_certificates c txt_records provider_public_key
    ok_or (dns_crypt no_valid_certificate) (head (retain time certs))

  -- writes a certificate to the cache
  unfoldable pub keep_cert :
      Result Certificate → Option Certificate → W → Result Certificate × Option Certificate × W
  keep_cert (ok cert) cached w = (ok cert, some cert, w)
  keep_cert (err e) cached w = (err e, cached, w)
  keep_cert panic cached w = (panic, cached, w)

  unfoldable pub refresh_cert : Option Certificate → W → Result Certificate × Option Certificate × W
  unfolding choose keep_cert
  refresh_cert cached w =
      let (txt_records, w') = fetch w in keep_cert (txt_records >>= choose (now w')) cached w'

  unfoldable pub current_cert : Option Certificate → W → Result Certificate × Option Certificate × W
  unfolding refresh_cert
  current_cert none w = refresh_cert none w
  current_cert (some cert) w =
      let refreshed = refresh_cert (some cert) w in
      if is_valid_at cert (now w) then (ok cert, some cert, w) else refreshed

  -- `exchange_udp`
  unfoldable pub exchange_udp : Bytes → W → Result Bytes × W
  exchange_udp framed w = let (answer, w') = udp framed w in (ok_or io answer, w')

  -- what is read of the stream that comes back
  abbrev pub received : Result (Bytes × Bytes) → Result Bytes
  received r = r >>= λ x. ok x.0

  -- `exchange_tcp`
  unfoldable pub exchange_tcp : Bytes → W → Result Bytes × W
  unfolding read_prefixed
  exchange_tcp framed w =
      let written = length framed / 256 ∷ length framed % 256 ∷ framed in
      let (stream, w') = tcp written w in
      if ltb 65_535 (length framed)
      then (err (dns_crypt too_large_for_tcp), w)
      else (received (ok_or io stream >>= read_prefixed), w')

  module _ {h : Hickory} (codec : Codec h) where
    -- a response's bytes, decrypted and decoded
    unfoldable pub opened : Certificate → c.SecretKey → Bytes → Bytes → Result (Message h)
    unfolding decrypt_response
    opened cert client nonce enc_resp = do
      resp_bytes ← decrypt_response c cert client nonce enc_resp
      ok_or (invalid_response (unpacking response)) (codec.from_bytes resp_bytes)

    -- the check of the response
    unfoldable pub checked : Message h → Message h → Result (Message h)
    unfolding validate_response
    checked req resp = validate_response req resp >> ok resp

    -- Behind the decoding of the UDP response: a truncated one is asked for again over TCP.
    unfoldable pub finish_exchange :
        Certificate
        → c.SecretKey
        → Bytes
        → Bytes
        → Message h
        → Result (Message h)
        → W
        → Result (Message h) × W
    unfolding opened checked exchange_tcp
    finish_exchange cert client nonce framed req panic w = (panic, w)
    finish_exchange cert client nonce framed req (err e) w = (err e, w)
    finish_exchange cert client nonce framed req (ok resp) w =
        let (enc_resp, w') = exchange_tcp framed w in
        let again = (enc_resp >>= opened cert client nonce) >>= checked req in
        if resp.truncation then (again, w') else (checked req resp, w)

    unfoldable pub send_query :
        Certificate → c.SecretKey → Message h → Result (Bytes × Bytes) → W → Result (Message h) × W
    unfolding finish_exchange exchange_udp
    send_query cert client req panic w = (panic, w)
    send_query cert client req (err e) w = (err e, w)
    send_query cert client req (ok (framed, nonce)) w =
        let (enc_resp, w') = exchange_udp framed w in
        finish_exchange cert client nonce framed req (enc_resp >>= opened cert client nonce) w'

    unfoldable pub exchange_with_cert : Certificate → Message h → W → Result (Message h) × W
    unfolding send_query encrypt_query
    exchange_with_cert cert req w = elim (codec.to_bytes req) [
      | none ↦ (err pack, w)
      | some req_bytes ↦
          (let ((client, nonce), w') = draw w in
            send_query cert client req (encrypt_query c cert client nonce req_bytes) w')
    ]

    -- Goes on with a certificate, or not.
    unfoldable pub with_cert :
        Message h
        → Result Certificate × Option Certificate × W
        → Result (Message h) × Option Certificate × W
    unfolding exchange_with_cert
    with_cert req (panic, cached, w) = (panic, cached, w)
    with_cert req (err e, cached, w) = (err e, cached, w)
    with_cert req (ok cert, cached, w) =
        let (r, w') = exchange_with_cert cert req w in (r, cached, w')

    -- One retry with a fresh certificate, behind the first exchange.
    unfoldable pub retry :
        Message h
        → Result (Message h) × Option Certificate × W
        → Result (Message h) × Option Certificate × W
    unfolding with_cert refresh_cert is_retried
    retry req (panic, cached, w) = (panic, cached, w)
    retry req (ok resp, cached, w) = (ok resp, cached, w)
    retry req (err e, cached, w) =
        let again = with_cert req (refresh_cert cached w) in
        if is_retried e then again else (err e, cached, w)

    -- What `current_cert` failed with is returned; the rest is tried twice.
    unfoldable pub first_try :
        Message h
        → Result Certificate × Option Certificate × W
        → Result (Message h) × Option Certificate × W
    unfolding retry
    first_try req (panic, cached, w) = (panic, cached, w)
    first_try req (err e, cached, w) = (err e, cached, w)
    first_try req (ok cert, cached, w) = retry req (with_cert req (ok cert, cached, w))

    -- `fut` of `exchange`: what its timeout is about
    unfoldable pub exchange_in_time :
        Message h → Option Certificate → W → Result (Message h) × Option Certificate × W
    unfolding first_try current_cert
    exchange_in_time req cached w = first_try req (current_cert cached w)

    abbrev pub or_expired :
        ℕ
        → Option (Option Certificate × W)
        → Result (Message h) × Option Certificate × W
        → Result (Message h) × Option Certificate × W
    or_expired d none done = done
    or_expired d (some (cached, w)) done = (err (timeout d), cached, w)

    -- `DnsCryptUpstream::exchange`
    unfoldable pub exchange :
        Option ℕ → Message h → Option Certificate → W → Result (Message h) × Option Certificate × W
    unfolding exchange_in_time
    exchange none req cached w = exchange_in_time req cached w
    exchange (some d) req cached w =
        or_expired d (expires d cached w) (exchange_in_time req cached w)

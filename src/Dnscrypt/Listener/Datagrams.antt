-- ===== src/Dnscrypt/Listener/Datagrams.antt =====
-- What a client reads of the datagram that answers its query.
use dnsproxy_rs.Dns.{Hickory, Message, Codec}
use dnsproxy_rs.Dnscrypt.Frames.RoundTrip.{
  decrypt_query-encrypt_query, decrypt_response-encrypt_server_response,
}
use dnsproxy_rs.Dnscrypt.Frames.{
  Certificate, encrypt_query, encrypt_server_response, decrypt_query, decrypt_response,
}
use dnsproxy_rs.Dnscrypt.Listener.{
  Answers, ServerConfig, Response, encrypted, try_answer_provider_txt, encrypt, truncated,
  pack_truncated, fit, udp_reply, respond_encrypted, respond_with, respond, handle_udp_packet,
}
use dnsproxy_rs.Dnscrypt.{Crypto, Bytes}
use dnsproxy_rs.Error.{Result, ok, pack, ok_or-eq-ok}
use dnsproxy_rs.Exec.Yields.{>>=-run, >>=-ran}
use dnsproxy_rs.Exec.{Exec, lift, ◌>>=◌}
use dnsproxy_rs.Prelude.{
  ◌≡◌, ◌≤◌, ◌<◌, refl, ap, sym, subst, ◌∙◌, Option, none, some, Bool-cases, inl, inr, ltb, length,
  arith,
}

module _ (cr : Crypto) {h : Hickory} (c : Codec h) (lib : Answers h) {W : Type 0}
    (draw : W → Bytes × W) (config : ServerConfig cr)
    (handler : Message h → Exec W (Message h)) where
  open config use {resolver_secret_key, provider_name, client_magic, cert_bytes}

  respond_encrypted-ok :
      (packet msg pk nonce bytes : Bytes) (req resp : Message h) (w w' : W)
      → decrypt_query cr resolver_secret_key client_magic packet ≡ ok (msg, pk, nonce)
      → c.from_bytes msg ≡ some req
      → handler req w ≡ (ok resp, w')
      → c.to_bytes resp ≡ some bytes
      → respond_encrypted cr c lib draw config handler packet w
        ≡ (ok (encrypted pk nonce bytes), w')
  unfolding respond_encrypted ◌>>=◌
  respond_encrypted-ok packet msg pk nonce bytes req resp w w' opened decoded handled packed =
      rw (opened, respond_encrypted, decoded, handled, packed) refl

  respond-ok :
      (packet : Bytes) (w : W) {r : Result (Response h) × W}
      → try_answer_provider_txt lib provider_name cert_bytes (c.from_bytes packet) ≡ none
      → respond_encrypted cr c lib draw config handler packet w ≡ r
      → respond cr c lib draw config handler packet w ≡ r
  unfolding respond
  respond-ok packet w no_txt e =
      ap
        (λ o.
          respond_with cr c lib draw config handler o
            (respond_encrypted cr c lib draw config handler packet) w)
        no_txt
      ∙ e

  module _ (cert : Certificate) (client : cr.SecretKey) (nonce : Bytes)
      (drawn : (w : W) → length (draw w).0 ≡ 12) (en : length nonce ≡ 12)
      (same_key : cert.resolver_public_key ≡ cr.public_key resolver_secret_key) where
    -- What a client that sent `nonce` reads of `out`, where the response is packed as `bytes`: all of
    -- it in at most 512 bytes, or the truncated response, if the frame of all of it, with some 12
    -- random bytes, takes more than 512.
    pub data Delivered (bytes out : Bytes) : Type 0 where
      whole :
          length out ≤ 512
          → decrypt_response cr cert client nonce out ≡ ok bytes
          → Delivered bytes out
      cut :
          (resp : Message h) (short half framed : Bytes)
          → length half ≡ 12
          → encrypt_server_response cr resolver_secret_key (cr.public_key client) nonce half bytes
            ≡ ok framed
          → 512 < length framed
          → c.from_bytes bytes ≡ some resp
          → c.to_bytes (c.truncate resp) ≡ some short
          → decrypt_response cr cert client nonce out ≡ ok short
          → Delivered bytes out

    encrypt-read :
        (msg framed : Bytes) (w : W)
        → (encrypt cr c lib draw config (cr.public_key client) nonce msg w).0 ≡ ok framed
        → decrypt_response cr cert client nonce framed ≡ ok msg
    unfolding encrypt
    encrypt-read msg framed w e =
        decrypt_response-encrypt_server_response cr cert client resolver_secret_key nonce (draw w).0
          msg en (drawn w) same_key e

    pack_truncated-ok :
        (bytes short : Bytes) (o : Option (Message h))
        → c.from_bytes bytes ≡ o
        → pack_truncated cr c lib draw config o ≡ ok short
        → (resp : Message h) × (c.from_bytes bytes ≡ some resp)
          × (c.to_bytes (c.truncate resp) ≡ some short)
    pack_truncated-ok bytes short none decoded e = absurd (cc e)
    pack_truncated-ok bytes short (some resp) decoded e =
        (resp, decoded, ok_or-eq-ok pack (c.to_bytes (c.truncate resp)) e)

    fit-Delivered :
        (bytes framed out : Bytes) (w w' : W)
        → (half : Bytes) × (length half ≡ 12)
          × (encrypt_server_response cr resolver_secret_key (cr.public_key client) nonce half bytes
              ≡ ok framed)
        → decrypt_response cr cert client nonce framed ≡ ok bytes
        → fit cr c lib draw config (cr.public_key client) nonce bytes framed w ≡ (ok out, w')
        → Delivered bytes out
    unfolding fit truncated
    fit-Delivered bytes framed out w w' (half, drawn_half, sealed) read e =
        elim (Bool-cases (ltb 512 (length framed))) [
          | inr small ↦
              let sent : (ok framed, w) ≡ (ok out, w') = rw (small, fit) at e in
              let same : framed ≡ out = cc sent in
              subst (Delivered bytes) same (whole (ground arith) read)
          | inl large ↦
              let again : (lift (truncated cr c lib draw config bytes)
                      >>= encrypt cr c lib draw config (cr.public_key client) nonce)
                    w
                  ≡ (ok out, w') =
                rw (large, fit) at e in
              let (short, packed, sent) =
                >>=-ran (lift (truncated cr c lib draw config bytes))
                  (encrypt cr c lib draw config (cr.public_key client) nonce) w again in
              let (resp, decoded, cut_packed) =
                pack_truncated-ok bytes short (c.from_bytes bytes) refl packed in
              cut resp short half framed drawn_half sealed (ground arith) decoded cut_packed
                (encrypt-read short out w (ap (λ r. r.0) sent))
        ]

    udp_reply-Delivered :
        (bytes out : Bytes) (w w' : W)
        → udp_reply cr c lib draw config (encrypted (cr.public_key client) nonce bytes) w
          ≡ (ok out, w')
        → Delivered bytes out
    unfolding udp_reply encrypt
    udp_reply-Delivered bytes out w w' e =
        let (framed, sealed, sent) =
          >>=-ran (encrypt cr c lib draw config (cr.public_key client) nonce bytes)
            (fit cr c lib draw config (cr.public_key client) nonce bytes) w e in
        fit-Delivered bytes framed out _ w' ((draw w).0, drawn w, sealed)
          (encrypt-read bytes framed w sealed) sent

    -- If the random bytes are 12, the client's certificate is over the listener's key and has its
    -- magic of 8 bytes, and the client's frame is no query for the provider's name, then the listener
    -- hands the client's query to its handler, and from the datagram that it sends, the client
    -- decrypts the handler's response, or its truncation where that would take more than 512 bytes.
    pub handle_udp_packet-Delivered :
        (msg framed n bytes out : Bytes) (req resp : Message h) (w w' w'' : W)
        → length cert.client_magic ≡ 8
        → cert.client_magic ≡ client_magic
        → encrypt_query cr cert client nonce msg ≡ ok (framed, n)
        → try_answer_provider_txt lib provider_name cert_bytes (c.from_bytes framed) ≡ none
        → c.from_bytes msg ≡ some req
        → handler req w ≡ (ok resp, w')
        → c.to_bytes resp ≡ some bytes
        → handle_udp_packet cr c lib draw config handler framed w ≡ (ok out, w'')
        → Delivered bytes out
    unfolding handle_udp_packet
    handle_udp_packet-Delivered msg framed n bytes out req resp w w' w'' em magic sent no_txt
          decoded handled packed e =
        let opened =
          (decrypt_query-encrypt_query cr cert client resolver_secret_key nonce msg em en same_key
            sent).0 in
        let responded = respond-ok framed w no_txt (
          respond_encrypted-ok framed msg (cr.public_key client) nonce bytes req resp w w'
            (subst
              (λ m.
                decrypt_query cr resolver_secret_key m framed
                ≡ ok (msg, cr.public_key client, nonce))
              magic opened)
            decoded handled packed) in
        let replied =
          >>=-run (respond cr c lib draw config handler framed) (udp_reply cr c lib draw config) w
            responded in
        udp_reply-Delivered bytes out w' w'' (sym replied ∙ e)

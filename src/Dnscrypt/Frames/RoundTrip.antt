-- ===== src/Dnscrypt/Frames/RoundTrip.antt =====
-- Encryption and decryption across the wire, both ways.
use dnsproxy_rs.Dnscrypt.Frames.{
  Certificate, resolver_magic, slice, query_nonce, encrypt_query, decrypt_query,
  encrypt_server_response, decrypt_response,
}
use dnsproxy_rs.Dnscrypt.Padding.{pad, unpad-pad}
use dnsproxy_rs.Dnscrypt.{Crypto, Bytes}
use dnsproxy_rs.Error.{dns_crypt, encrypting, ok, ok_or, >>=-eq-ok, ok_or-eq-ok}
use dnsproxy_rs.Prelude.Text.{text_eq_iff}
use dnsproxy_rs.Prelude.{
  ℕ, ◌+◌, ◌≡◌, refl, false, ◌++◌, some, ltb, length, take, drop, arith, ap, sym, ◌∙◌, append_assoc,
  length-append, take-append, drop-append, ◌≤◌,
}

drop-append₂ :
    (xs ys zs : Bytes) (n : ℕ) → length xs + length ys ≡ n → drop n (xs ++ (ys ++ zs)) ≡ zs
drop-append₂ xs ys zs n e =
    ap (drop n) (sym (append_assoc xs ys zs))
    ∙ drop-append (xs ++ ys) zs n (length-append xs ys ∙ e)

drop-append₃ :
    (xs ys zs rest : Bytes) (n : ℕ)
    → length xs + length ys + length zs ≡ n
    → drop n (xs ++ (ys ++ (zs ++ rest))) ≡ rest
drop-append₃ xs ys zs rest n e =
    ap (drop n) (sym (append_assoc xs ys (zs ++ rest)))
    ∙ drop-append₂ (xs ++ ys) zs rest n (omega (arith, length-append {0} xs ys))

-- A frame of three parts with known lengths is taken apart into them.
module _ (a b c rest : Bytes) (m n k : ℕ) (ea : length a ≡ m) (eb : length b ≡ n)
    (ec : length c ≡ k) where
  part₁ : slice 0 m (a ++ (b ++ (c ++ rest))) ≡ a
  part₁ = take-append a _ m ea

  part₂ : slice m n (a ++ (b ++ (c ++ rest))) ≡ b
  part₂ = ap (take n) (drop-append a _ m ea) ∙ take-append b _ n eb

  part₃ : slice (m + n) k (a ++ (b ++ (c ++ rest))) ≡ c
  part₃ = ap (take k) (drop-append₂ a b (c ++ rest) (m + n) (omega arith)) ∙ take-append c rest k ec

  part₄ : drop (m + n + k) (a ++ (b ++ (c ++ rest))) ≡ rest
  part₄ = drop-append₃ a b c rest (m + n + k) (omega arith)

  frame-length : m + n + k ≤ length (a ++ (b ++ (c ++ rest)))
  frame-length = omega (
    arith,
    length-append {0} a (b ++ (c ++ rest)),
    length-append {0} b (c ++ rest),
    length-append {0} c rest,
  )

module _ (c : Crypto) where
  open c use {SecretKey, public_key, length-public_key, seal, unseal, unseal-seal}

  decrypt_query-frame :
      (resolver : SecretKey) (magic pk nonce sealed msg : Bytes)
      → length magic ≡ 8
      → length pk ≡ 32
      → length nonce ≡ 12
      → unseal resolver pk (query_nonce nonce) sealed ≡ some (pad msg)
      → decrypt_query c resolver magic (magic ++ (pk ++ (nonce ++ sealed))) ≡ ok (msg, pk, nonce)
  unfolding decrypt_query
  decrypt_query-frame resolver magic pk nonce sealed msg em ep en opened =
      let long : ltb (length (magic ++ (pk ++ (nonce ++ sealed)))) 52 ≡ false =
        let bound = frame-length magic pk nonce sealed 8 32 12 em ep en in ground arith in
      rw (
        decrypt_query,
        long,
        part₁ magic pk nonce sealed 8 32 12 em ep en,
        (text_eq_iff magic magic).1 refl,
        part₂ magic pk nonce sealed 8 32 12 em ep en,
        part₃ magic pk nonce sealed 8 32 12 em ep en,
        part₄ magic pk nonce sealed 8 32 12 em ep en,
        opened,
        unpad-pad msg,
      )

  -- With a magic of 8 bytes, a nonce of 12 bytes and a certificate over the resolver's public key, the
  -- resolver reads every query that a client encrypts: the message, the client's public key and its
  -- nonce.
  pub decrypt_query-encrypt_query :
      (cert : Certificate) (client resolver : SecretKey) (nonce msg : Bytes) {framed n : Bytes}
      → length cert.client_magic ≡ 8
      → length nonce ≡ 12
      → cert.resolver_public_key ≡ public_key resolver
      → encrypt_query c cert client nonce msg ≡ ok (framed, n)
      → (decrypt_query c resolver cert.client_magic framed ≡ ok (msg, public_key client, nonce))
        × (n ≡ nonce)
  unfolding encrypt_query
  decrypt_query-encrypt_query cert client resolver nonce msg {framed} {n} em en same e =
      let (sealed, encrypted, sent) =
        >>=-eq-ok
          (ok_or (dns_crypt encrypting)
            (seal client cert.resolver_public_key (query_nonce nonce) (pad msg)))
          (λ x. ok (cert.client_magic ++ (public_key client ++ (nonce ++ x)), nonce)) e in
      let opened =
        unseal-seal client resolver (query_nonce nonce) (pad msg)
          (rw same at (ok_or-eq-ok _ _ encrypted)) in
      let frame : cert.client_magic ++ (public_key client ++ (nonce ++ sealed)) ≡ framed =
        cc sent in
      let same_nonce : nonce ≡ n = cc sent in
      (
        ap (decrypt_query c resolver cert.client_magic) (sym frame)
            ∙ decrypt_query-frame resolver cert.client_magic (public_key client) nonce sealed msg em
                (length-public_key client) en opened,
        sym same_nonce,
      )

  decrypt_response-frame :
      (cert : Certificate) (client : SecretKey) (nonce half sealed msg : Bytes)
      → length nonce ≡ 12
      → length half ≡ 12
      → unseal client cert.resolver_public_key (nonce ++ half) sealed ≡ some (pad msg)
      → decrypt_response c cert client nonce (resolver_magic ++ (nonce ++ (half ++ sealed)))
        ≡ ok msg
  unfolding decrypt_response
  decrypt_response-frame cert client nonce half sealed msg en eh opened =
      let long : ltb (length (resolver_magic ++ (nonce ++ (half ++ sealed)))) 32 ≡ false =
        let bound = frame-length resolver_magic nonce half sealed 8 12 12 refl en eh in
        ground arith in
      rw (
        decrypt_response,
        long,
        part₁ resolver_magic nonce half sealed 8 12 12 refl en eh,
        (text_eq_iff resolver_magic resolver_magic).1 refl,
        part₂ resolver_magic nonce half sealed 8 12 12 refl en eh,
        (text_eq_iff nonce nonce).1 refl,
        part₃ resolver_magic nonce half sealed 8 12 12 refl en eh,
        part₄ resolver_magic nonce half sealed 8 12 12 refl en eh,
        opened,
        unpad-pad msg,
      )

  -- With nonce halves of 12 bytes and a certificate over the resolver's public key, the client reads
  -- every response that the resolver encrypts for its key and nonce.
  pub decrypt_response-encrypt_server_response :
      (cert : Certificate) (client resolver : SecretKey) (nonce half msg : Bytes) {framed : Bytes}
      → length nonce ≡ 12
      → length half ≡ 12
      → cert.resolver_public_key ≡ public_key resolver
      → encrypt_server_response c resolver (public_key client) nonce half msg ≡ ok framed
      → decrypt_response c cert client nonce framed ≡ ok msg
  unfolding encrypt_server_response
  decrypt_response-encrypt_server_response cert client resolver nonce half msg {framed} en eh same
        e =
      let (sealed, encrypted, sent) =
        >>=-eq-ok
          (ok_or (dns_crypt encrypting)
            (seal resolver (public_key client) (nonce ++ half) (pad msg)))
          (λ x. ok (resolver_magic ++ (nonce ++ (half ++ x)))) e in
      let opened =
        unseal-seal resolver client (nonce ++ half) (pad msg) (ok_or-eq-ok _ _ encrypted) in
      let opened' : unseal client cert.resolver_public_key (nonce ++ half) sealed ≡ some (pad msg) =
        ap (λ k. unseal client k (nonce ++ half) sealed) same ∙ opened in
      let frame : resolver_magic ++ (nonce ++ (half ++ sealed)) ≡ framed = cc sent in
      ap (decrypt_response c cert client nonce) (sym frame)
      ∙ decrypt_response-frame cert client nonce half sealed msg en eh opened'

  -- A response that is accepted carries the resolver's magic and echoes the query's nonce.
  pub decrypt_response-echo :
      (cert : Certificate) (client : SecretKey) (nonce resp : Bytes) {msg : Bytes}
      → decrypt_response c cert client nonce resp ≡ ok msg
      → (32 ≤ length resp) × (slice 0 8 resp ≡ resolver_magic) × (slice 8 12 resp ≡ nonce)
  unfolding decrypt_response
  decrypt_response-echo cert client nonce resp {msg} e =
      ground
        (arith, text_eq_iff (slice 0 8 resp) resolver_magic, text_eq_iff (slice 8 12 resp) nonce)

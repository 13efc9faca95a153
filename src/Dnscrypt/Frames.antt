-- ===== src/Dnscrypt/Frames.antt =====
-- The frames of queries and responses: `encrypt_query`, `decrypt_query`, `encrypt_server_response`
-- and `decrypt_response`.
pub mod RoundTrip
use dnsproxy_rs.Dnscrypt.Padding.{pad, unpad}
use dnsproxy_rs.Dnscrypt.{Crypto, Bytes}
use dnsproxy_rs.Error.{
  DohError, dns_crypt, encrypting, decrypting, response_too_short, wrong_resolver_magic,
  wrong_nonce, query_too_short, wrong_client_magic, Result, ok, err, ◌>>=◌, ok_or,
}
use dnsproxy_rs.Prelude.Text.{codes, text_eq as bytes_eq}
use dnsproxy_rs.Prelude.{
  ℕ, ◌+◌, ◌<◌, ◌≡◌, not, List, [], ◌∷◌, ◌++◌, Option, none, some, ltb, if◌then◌else◌, length, take,
  drop, replicate, ◌≤◌, leb, Bool, ◌&&◌,
}

-- `Certificate`
pub record Certificate : Type 0 where
  pub resolver_public_key : Bytes
  pub client_magic : Bytes
  pub serial : ℕ
  pub ts_start : ℕ
  pub ts_end : ℕ

unfoldable pub is_valid_at : Certificate → ℕ → Bool
is_valid_at c now = leb c.ts_start now && ltb now c.ts_end

-- `r6fnvWj8`
abbrev pub resolver_magic : Bytes
resolver_magic = codes "r6fnvWj8"

-- the bytes from `i`, `n` of them
abbrev pub slice : ℕ → ℕ → Bytes → Bytes
slice i n bytes = take n (drop i bytes)

-- a nonce half and a half of zeros
abbrev pub query_nonce : Bytes → Bytes
query_nonce client_nonce = client_nonce ++ replicate 12 0

module _ (c : Crypto) where
  open c use {SecretKey, public_key, seal, unseal}

  -- `nonce` are the 12 random bytes; `client` is the secret key of the `ClientKeyPair`.
  unfoldable pub encrypt_query : Certificate → SecretKey → Bytes → Bytes → Result (Bytes × Bytes)
  encrypt_query cert client nonce msg = do
    ciphertext ←
        ok_or (dns_crypt encrypting)
          (seal client cert.resolver_public_key (query_nonce nonce) (pad msg))
    ok (cert.client_magic ++ (public_key client ++ (nonce ++ ciphertext)), nonce)

  unfoldable pub decrypt_query : SecretKey → Bytes → Bytes → Result (Bytes × Bytes × Bytes)
  decrypt_query resolver expected_client_magic framed =
      if ltb (length framed) 52
      then err (dns_crypt query_too_short)
      else if not (bytes_eq (slice 0 8 framed) expected_client_magic)
      then err (dns_crypt wrong_client_magic)
      else (do
        let client_public_key = slice 8 32 framed
        let client_nonce = slice 40 12 framed
        padded ←
            ok_or (dns_crypt decrypting)
              (unseal resolver client_public_key (query_nonce client_nonce) (drop 52 framed))
        msg ← unpad padded
        ok (msg, client_public_key, client_nonce))

  -- `resolver_nonce` are the 12 random bytes.
  unfoldable pub encrypt_server_response : SecretKey → Bytes → Bytes → Bytes → Bytes → Result Bytes
  encrypt_server_response resolver client_public_key client_nonce resolver_nonce msg = do
    ciphertext ←
        ok_or (dns_crypt encrypting)
          (seal resolver client_public_key (client_nonce ++ resolver_nonce) (pad msg))
    ok (resolver_magic ++ (client_nonce ++ (resolver_nonce ++ ciphertext)))

  unfoldable pub decrypt_response : Certificate → SecretKey → Bytes → Bytes → Result Bytes
  decrypt_response cert client client_nonce resp =
      if ltb (length resp) 32
      then err (dns_crypt response_too_short)
      else if not (bytes_eq (slice 0 8 resp) resolver_magic)
      then err (dns_crypt wrong_resolver_magic)
      else if not (bytes_eq (slice 8 12 resp) client_nonce)
      then err (dns_crypt wrong_nonce)
      else (do
        padded ← ok_or (dns_crypt decrypting) (
            unseal client cert.resolver_public_key (client_nonce ++ slice 20 12 resp)
              (drop 32 resp))
        unpad padded)

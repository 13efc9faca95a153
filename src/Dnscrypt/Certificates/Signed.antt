-- ===== src/Dnscrypt/Certificates/Signed.antt =====
-- A certificate that the resolver signs is read back by the client.
use dnsproxy_rs.Dnscrypt.Certificates.{
  from_be32, to_be32, certificate_of, parse_one_certificate, signed_part, sign_certificate,
}
use dnsproxy_rs.Dnscrypt.Frames.{slice}
use dnsproxy_rs.Dnscrypt.{Crypto, Bytes}
use dnsproxy_rs.Prelude.Text.{text_eq as bytes_eq}
use dnsproxy_rs.Prelude.{
  ℕ, ◌<◌, ◌^◌, ◌≡◌, refl, false, ◌++◌, some, ltb, length, take, drop, arith, ap, sym, ◌∙◌,
  length-append, take-append, drop-append, take-length, drop-drop,
}

from_be32-to_be32 : (n : ℕ) → n < 2 ^ 32 → from_be32 (to_be32 n) ≡ n
from_be32-to_be32 n h = omega arith

module _ (pk magic : Bytes) (serial start end : ℕ) (ep : length pk ≡ 32)
    (em : length magic ≡ 8) where
  signed : Bytes
  signed = signed_part pk magic serial start end

  length-signed : length signed ≡ 52
  unfolding signed signed_part
  length-signed =
      let numbers = to_be32 serial ++ (to_be32 start ++ to_be32 end) in
      omega (arith, length-append {0} pk (magic ++ numbers), length-append {0} magic numbers)

  behind : drop 40 signed ≡ to_be32 serial ++ (to_be32 start ++ to_be32 end)
  unfolding signed signed_part
  behind =
      let numbers = to_be32 serial ++ (to_be32 start ++ to_be32 end) in
      sym (drop-drop 32 8 signed)
      ∙ ap (drop 8) (drop-append pk (magic ++ numbers) 32 ep)
      ∙ drop-append magic numbers 8 em

  behind_44 : drop 44 signed ≡ to_be32 start ++ to_be32 end
  behind_44 = sym (drop-drop 40 4 signed) ∙ ap (drop 4) behind

  behind_48 : drop 48 signed ≡ to_be32 end
  behind_48 = sym (drop-drop 40 8 signed) ∙ ap (drop 8) behind

  key_part : slice 0 32 signed ≡ pk
  unfolding signed signed_part
  key_part = take-append pk _ 32 ep

  magic_part : slice 32 8 signed ≡ magic
  unfolding signed signed_part
  magic_part = ap (take 8) (drop-append pk _ 32 ep) ∙ take-append magic _ 8 em

  certificate_of-signed :
      serial < 2 ^ 32
      → start < 2 ^ 32
      → end < 2 ^ 32
      → certificate_of signed ≡ record {
        resolver_public_key = pk;
        client_magic = magic;
        serial = serial;
        ts_start = start;
        ts_end = end;
      }
  unfolding certificate_of
  certificate_of-signed hs ht he =
      rw (key_part, magic_part, behind, behind_44, behind_48)
        (rw (from_be32-to_be32 serial hs, from_be32-to_be32 start ht, from_be32-to_be32 end he)
          refl)

  module _ (c : Crypto) (k : c.SigningKey) where
    packed : Bytes
    packed = sign_certificate c k pk magic serial start end

    signature : slice 8 64 packed ≡ c.sign k signed
    unfolding packed sign_certificate signed
    signature = take-append (c.sign k signed) signed 64 (c.length-sign k signed)

    body : slice 72 52 packed ≡ signed
    unfolding packed sign_certificate signed
    body =
        ap (take 52) (
          sym (drop-drop 8 64 packed)
          ∙ drop-append (c.sign k signed) signed 64 (c.length-sign k signed))
        ∙ take-length signed 52 length-signed

    long : ltb (length packed) 124 ≡ false
    unfolding packed sign_certificate signed
    long =
        ground
          (arith, length-append (c.sign k signed) signed, c.length-sign k signed, length-signed)

    -- A certificate that the provider signs with its key, over a public key of 32 bytes, a magic of
    -- 8 bytes and three 32-bit numbers, is accepted by a client that knows the provider's verifying
    -- key, and all five fields come back.
    pub parse_one_certificate-sign_certificate :
        serial < 2 ^ 32
        → start < 2 ^ 32
        → end < 2 ^ 32
        → parse_one_certificate c
            (sign_certificate c k pk magic serial start end)
            (c.verifying_key k)
          ≡ some record {
            resolver_public_key = pk;
            client_magic = magic;
            serial = serial;
            ts_start = start;
            ts_end = end;
          }
    unfolding parse_one_certificate packed sign_certificate bytes_eq
    parse_one_certificate-sign_certificate hs ht he =
        rw (long, signature, body, c.verify-sign k signed, certificate_of-signed hs ht he) refl

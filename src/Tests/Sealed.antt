-- ===== src/Tests/Sealed.antt =====
-- DNSCrypt over a box that only prepends the nonce's first byte, and constant signatures.
use dnsproxy_rs.Dnscrypt.Certificates.Signed.{parse_one_certificate-sign_certificate}
use dnsproxy_rs.Dnscrypt.Certificates.{parse_one_certificate, sign_certificate}
use dnsproxy_rs.Dnscrypt.Certificates.Verified.{IsNewest}
use dnsproxy_rs.Dnscrypt.Client.Fresh.{choose-IsNewest, current_cert-Current}
use dnsproxy_rs.Dnscrypt.Client.Safe.{exchange-Answers}
use dnsproxy_rs.Dnscrypt.Client.{Network, choose, current_cert, exchange}
use dnsproxy_rs.Dnscrypt.Stamp.RoundTrip.{parse_dnscrypt_stamp-build_stamp}
use dnsproxy_rs.Dnscrypt.Stamp.{Texts, Parse, parse_dnscrypt_stamp, build_stamp}
use dnsproxy_rs.Tests.{two_messages, request, reply}
use dnsproxy_rs.Wire.Laws.{Answers}
use dnsproxy_rs.Prelude.Text.{codes, text_eq, strip_prefix}
use dnsproxy_rs.Dnscrypt.Frames.RoundTrip.{
  decrypt_query-encrypt_query, decrypt_response-encrypt_server_response,
}
use dnsproxy_rs.Dnscrypt.Frames.{
  Certificate, is_valid_at, resolver_magic, encrypt_query, decrypt_query, encrypt_server_response,
  decrypt_response,
}
use dnsproxy_rs.Dnscrypt.Padding.{pad, unpad}
use dnsproxy_rs.Dnscrypt.{Crypto, Bytes}
use dnsproxy_rs.Error.{ok}
use dnsproxy_rs.Prelude.{
  suc, ℕ, ◌≡◌, refl, true, [], ◌∷◌, ◌++◌, Option, none, some, replicate, arith,
}

-- The sealed text starts with a byte.
abbrev pub opened : Bytes → Option Bytes
opened [] = none
opened (b ∷ bytes) = some bytes

pub opened_sealed :
    (msg : Bytes) {sealed : Bytes} → some (1 ∷ msg) ≡ some sealed → opened sealed ≡ some msg
opened_sealed msg {sealed} e = let same : 1 ∷ msg ≡ sealed = cc e in rw (← same) refl

abbrev pub open_box : Crypto
open_box = record {
  SecretKey = ℕ;
  SigningKey = ℕ;
  public_key = λ k. replicate 32 k;
  length-public_key = λ k. refl;
  seal = λ k pk nonce msg. some (1 ∷ msg);
  unseal = λ k pk nonce sealed. opened sealed;
  unseal-seal = λ a b nonce msg {sealed} e. opened_sealed msg e;
  is_key = λ key. true;
  verifying_key = λ k. replicate 32 k;
  is_key-verifying_key = λ k. refl;
  sign = λ k msg. replicate 64 k;
  length-sign = λ k msg. refl;
  verify = λ key msg signature. true;
  verify-sign = λ k msg. refl;
}

abbrev pub certificate_text : Bytes
certificate_text = sign_certificate open_box 8 (replicate 32 6) (replicate 8 9) 1 0 100

abbrev pub first_byte : Bytes → Option ℕ
first_byte [] = none
first_byte (a ∷ bytes) = some a

abbrev pub cert : Certificate
cert = record {
  resolver_public_key = replicate 32 6;
  client_magic = replicate 8 9;
  serial = 1;
  ts_start = 0;
  ts_end = 100;
}

abbrev pub nonce : Bytes
nonce = replicate 12 3

abbrev pub half : Bytes
half = replicate 12 4

abbrev pub message : Bytes
message = 2 ∷ []

abbrev pub query_frame : Bytes
query_frame = replicate 8 9 ++ (replicate 32 5 ++ (nonce ++ 1 ∷ pad message))

abbrev pub response_frame : Bytes
response_frame = resolver_magic ++ (nonce ++ (half ++ 1 ∷ pad message))

sent : encrypt_query open_box cert 5 nonce message ≡ ok (query_frame, nonce)
unfolding encrypt_query
sent = refl

replied : encrypt_server_response open_box 6 (replicate 32 5) nonce half message ≡ ok response_frame
unfolding encrypt_server_response
replied = refl

decrypt_query-encrypt_query_example :
    (decrypt_query open_box 6 (replicate 8 9) query_frame ≡ ok (message, replicate 32 5, nonce))
    × (nonce ≡ nonce)
decrypt_query-encrypt_query_example =
    decrypt_query-encrypt_query open_box cert 5 6 nonce message refl refl refl sent

decrypt_response-encrypt_server_response_example :
    decrypt_response open_box cert 5 nonce response_frame ≡ ok message
decrypt_response-encrypt_server_response_example =
    decrypt_response-encrypt_server_response open_box cert 5 6 nonce half message refl refl refl
      replied

parse_one_certificate-sign_certificate_example :
    parse_one_certificate open_box
      (sign_certificate open_box 8 (replicate 32 6) (replicate 8 9) 1 0 100)
      (replicate 32 8)
    ≡ some cert
parse_one_certificate-sign_certificate_example =
    parse_one_certificate-sign_certificate (replicate 32 6) (replicate 8 9) 1 0 100 refl refl
      open_box 8 (omega arith) (omega arith) (omega arith)

-- The resolver answers every query with the same frame, and certifies its key until 100.
abbrev pub resolver : Network open_box ℕ
resolver = record {
  expires = λ d cached w. none;
  now = λ w. 50;
  draw = λ w. ((5, nonce), suc w);
  fetch = λ w. (ok (certificate_text ∷ []), suc w);
  udp = λ framed w. (some response_frame, suc w);
  tcp = λ written w. (none, suc w);
}

chosen : choose open_box resolver (replicate 32 8) 50 (certificate_text ∷ []) ≡ ok cert
unfolding choose sign_certificate text_eq
chosen = refl

choose-IsNewest_example : IsNewest open_box (replicate 32 8) 50 (certificate_text ∷ []) cert
choose-IsNewest_example =
    choose-IsNewest open_box resolver (replicate 32 8) 50 (certificate_text ∷ []) chosen

refreshed : current_cert open_box resolver (replicate 32 8) none 0 ≡ (ok cert, some cert, 1)
unfolding current_cert sign_certificate text_eq
refreshed = refl

current_cert-Current_example : (is_valid_at cert 50 ≡ true) × (some cert ≡ some cert)
current_cert-Current_example =
    current_cert-Current open_box resolver (replicate 32 8) none 0 refreshed

answered :
    (exchange open_box resolver (replicate 32 8) two_messages (some 9) (request 0) none 0).0
    ≡ ok (reply 0)
unfolding exchange sign_certificate text_eq pad unpad
answered = refl

exchange-Answers_example : Answers (request 0) (reply 0)
exchange-Answers_example =
    exchange-Answers open_box resolver (replicate 32 8) two_messages (some 9) (request 0) none 0
      answered

-- an address is a byte
abbrev pub byte_texts : Texts
byte_texts = record {
  SocketAddr = ℕ;
  addr_to_string = λ a. a ∷ [];
  parse_socket_addr = first_byte;
  parse_ip_addr = λ s. none;
  parse_u16 = λ s. none;
  length-to_string = λ a. omega arith;
  parse-to_string = λ a. refl;
  is_utf8 = λ bytes. true;
  is_utf8-to_string = λ a. refl;
  encode = λ bytes. bytes;
  decode = λ text. some text;
  decode-encode = λ bytes. refl;
}

parse_dnscrypt_stamp-build_stamp_example :
    parse_dnscrypt_stamp byte_texts (build_stamp byte_texts 7 (replicate 32 6) (codes "2.example"))
    ≡ Parse.parsed
        record { addr = 7; provider_public_key = replicate 32 6; provider_name = codes "2.example" }
parse_dnscrypt_stamp-build_stamp_example =
    parse_dnscrypt_stamp-build_stamp byte_texts 7 (replicate 32 6) (codes "2.example") refl
      (omega arith) refl

-- A name of 128 bytes comes back shorter.
stamp_of_128 :
    parse_dnscrypt_stamp byte_texts (build_stamp byte_texts 7 (replicate 32 6) (replicate 128 b'a'))
    ≡ Parse.parsed
        record { addr = 7; provider_public_key = replicate 32 6; provider_name = replicate 97 b'a' }
unfolding parse_dnscrypt_stamp build_stamp strip_prefix
stamp_of_128 = refl

-- ===== src/Dnscrypt/Certificates.antt =====
-- Resolver certificates: `parse_one_certificate`, `parse_certificates`, `sign_certificate`.
pub mod Signed
pub mod Verified
use dnsproxy_rs.Dnscrypt.Frames.{Certificate, slice}
use dnsproxy_rs.Dnscrypt.{Crypto, Bytes}
use dnsproxy_rs.Error.{
  DohError, dns_crypt, invalid_provider_key, no_valid_certificate, Result, ok, err, ◌>>=◌,
}
use dnsproxy_rs.Prelude.Sort.{sort_by}
use dnsproxy_rs.Prelude.Text.{codes, text_eq as bytes_eq}
use dnsproxy_rs.Prelude.{
  ℕ, ◌+◌, ◌*◌, ◌/◌, ◌%◌, ◌^◌, Bool, not, List, [], ◌∷◌, ◌++◌, Option, none, some, ltb, leb, ◌==◌,
  if◌then◌else◌, length, get_or, drop, take,
}

-- `CERT_MAGIC` and `ES_VERSION_XSALSA20POLY1305`
abbrev pub cert_magic : Bytes
cert_magic = codes "DNSC"

abbrev pub es_version : ℕ
es_version = 1

-- `u16::from_be_bytes`, `u32::from_be_bytes` and the inverses
abbrev pub from_be16 : Bytes → ℕ
from_be16 b = get_or b 0 0 * 256 + get_or b 1 0

abbrev pub to_be16 : ℕ → Bytes
to_be16 n = n / 256 % 256 ∷ n % 256 ∷ []

abbrev pub from_be32 : Bytes → ℕ
from_be32 b = get_or b 0 0 * 16_777_216 + get_or b 1 0 * 65_536 + get_or b 2 0 * 256 + get_or b 3 0

abbrev pub to_be32 : ℕ → Bytes
to_be32 n = n / 16_777_216 % 256 ∷ n / 65_536 % 256 ∷ n / 256 % 256 ∷ n % 256 ∷ []

-- the fields of the signed part
unfoldable pub certificate_of : Bytes → Certificate
certificate_of signed = record {
  resolver_public_key = slice 0 32 signed;
  client_magic = slice 32 8 signed;
  serial = from_be32 (slice 40 4 signed);
  ts_start = from_be32 (slice 44 4 signed);
  ts_end = from_be32 (slice 48 4 signed);
}

-- the part of a certificate that `sign_certificate` signs
unfoldable pub signed_part : Bytes → Bytes → ℕ → ℕ → ℕ → Bytes
signed_part resolver_public_key client_magic serial ts_start ts_end =
    resolver_public_key
    ++ (client_magic ++ (to_be32 serial ++ (to_be32 ts_start ++ to_be32 ts_end)))

-- `filter_map`
abbrev pub keep_some : Option Certificate → List Certificate → List Certificate
keep_some none cs = cs
keep_some (some x) cs = x ∷ cs

-- `Reverse(serial)`
abbrev pub newer : Certificate → Certificate → Bool
newer x y = leb y.serial x.serial

module _ (c : Crypto) where
  open c use {SigningKey, is_key, verify, sign}

  unfoldable pub parse_one_certificate : Bytes → Bytes → Option Certificate
  unfolding certificate_of
  parse_one_certificate bytes verifying_key =
      if ltb (length bytes) 124
      then none
      else if not (bytes_eq (slice 0 4 bytes) cert_magic)
      then none
      else if not (from_be16 (slice 4 2 bytes) == es_version)
      then none
      else if not (verify verifying_key (slice 72 52 bytes) (slice 8 64 bytes))
      then none
      else some (certificate_of (slice 72 52 bytes))

  unfoldable pub parsed : Bytes → List Bytes → List Certificate
  unfolding parse_one_certificate
  parsed key [] = []
  parsed key (txt ∷ txts) = keep_some (parse_one_certificate txt key) (parsed key txts)

  unfoldable pub parse_certificates : List Bytes → Bytes → Result (List Certificate)
  unfolding parsed sort_by
  parse_certificates txt_records provider_public_key =
      if is_key provider_public_key
      then ok (sort_by newer (parsed provider_public_key txt_records))
      else err (dns_crypt invalid_provider_key)

  unfoldable pub sign_certificate : SigningKey → Bytes → Bytes → ℕ → ℕ → ℕ → Bytes
  unfolding signed_part
  sign_certificate key resolver_public_key client_magic serial ts_start ts_end =
      let signed = signed_part resolver_public_key client_magic serial ts_start ts_end in
      cert_magic ++ (to_be16 es_version ++ ((0 ∷ 0 ∷ []) ++ (sign key signed ++ signed)))

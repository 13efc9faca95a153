-- ===== src/Dnscrypt/Stamp.antt =====
-- src/client/dnscrypt/stamp.rs and keygen.rs: the stamps `sdns://…`. Addresses, UTF-8 and base64 are
-- the interface `Texts`.
pub mod RoundTrip
pub mod Enough
use mathlib.Core.Option
use dnsproxy_rs.Dnscrypt.{Bytes}
use dnsproxy_rs.Prelude.{
  ℕ, zero, suc, ◌+◌, ◌%◌, Bool, not, List, [], ◌∷◌, ◌++◌, Option, none, some, ◌==◌, ltb,
  if◌then◌else◌, length, take, drop, replicate, ◌≡◌, ◌<◌, true,
}
use dnsproxy_rs.Prelude.Text.{Text, codes, strip_prefix, split_once_char}

-- The library's texts: socket addresses, base64url, and UTF-8, which texts are in already.
pub record Texts : Type 1 where
  pub SocketAddr : Type 0
  pub addr_to_string : SocketAddr → Text
  -- `parse::<SocketAddr>` and `parse::<IpAddr>` with a port
  pub parse_socket_addr : Text → Option SocketAddr
  pub parse_ip_addr : Text → Option (ℕ → SocketAddr)
  pub parse_u16 : Text → Option ℕ
  pub length-to_string : (a : SocketAddr) → length (addr_to_string a) < 128
  pub parse-to_string : (a : SocketAddr) → parse_socket_addr (addr_to_string a) ≡ some a
  pub is_utf8 : Bytes → Bool
  pub is_utf8-to_string : (a : SocketAddr) → is_utf8 (addr_to_string a) ≡ true
  pub encode : Bytes → Text
  pub decode : Text → Option Bytes
  pub decode-encode : (bytes : Bytes) → decode (encode bytes) ≡ some bytes

-- The messages of a refused stamp.
pub data StampError : Type 0 where
  no_scheme invalid_base64 empty_stamp unsupported_protocol truncated_properties : StampError
  missing_length segment_exceeds invalid_address invalid_name key_length invalid_server : StampError

pub data Parse (A : Type 0) : Type 0 where
  parsed : A → Parse A
  refused : StampError → Parse A

infixl 5 ◌>>=◌
abbrev pub ◌>>=◌ : {A B : Type 0} → Parse A → (A → Parse B) → Parse B
parsed a >>= next = next a
refused e >>= next = refused e

abbrev pub or_refuse : {A : Type 0} → StampError → Option A → Parse A
or_refuse e none = refused e
or_refuse e (some a) = parsed a

-- `read_lp` on what is left of the buffer: the segments, and what follows. Each pass reads a byte, so
-- that the length of the buffer is fuel.
unfoldable pub segments : ℕ → Bytes → Bytes → Parse (Bytes × Bytes)
segments zero out buf = refused missing_length
segments (suc fuel) out [] = refused missing_length
segments (suc fuel) out (len_byte ∷ buf) =
    let len = len_byte % 128 in
    let more = segments fuel (out ++ take len buf) (drop len buf) in
    if ltb (length buf) len
    then refused segment_exceeds
    else if ltb len_byte 128
    then parsed (out ++ take len buf, drop len buf)
    else more

unfoldable pub read_lp : Bytes → Parse (Bytes × Bytes)
unfolding segments
read_lp buf = segments (suc (length buf)) [] buf

-- a text behind its length as a byte
abbrev pub push_lp : Bytes → Bytes
push_lp bytes = length bytes % 256 ∷ bytes

module _ (t : Texts) where
  open t use {
    SocketAddr, addr_to_string, parse_socket_addr, parse_ip_addr, parse_u16, is_utf8, encode,
    decode,
  }

  -- behind a bracketed host: a port, or nothing
  unfoldable pub bracket_port : (ℕ → SocketAddr) → Text → Option SocketAddr
  bracket_port ip [] = some (ip 443)
  bracket_port ip (ch ∷ port_str) = if ch == b':' then Option.map ip (parse_u16 port_str) else none

  -- `[host]` with or without a port
  unfoldable pub parse_bracketed : Text → Option SocketAddr
  unfolding bracket_port
  parse_bracketed [] = none
  parse_bracketed (ch ∷ inner) =
      let inside : Option SocketAddr = elim (split_once_char b']' inner) [
        | none ↦ none
        | some (host, rest) ↦ elim (parse_ip_addr host) [
          | none ↦ none
          | some ip ↦ bracket_port ip rest
        ]
      ] in
      if ch == b'[' then inside else none

  unfoldable pub parse_stamp_addr : Text → Option SocketAddr
  unfolding parse_bracketed
  parse_stamp_addr s = elim (parse_socket_addr s) [
    | some sock_addr ↦ some sock_addr
    | none ↦ elim (parse_ip_addr s) [ some ip ↦ some (ip 443) | none ↦ parse_bracketed s ]
  ]

  -- `DnsCryptStamp`
  pub record DnsCryptStamp : Type 0 where
    pub addr : SocketAddr
    pub provider_public_key : Bytes
    pub provider_name : Bytes

  -- `String::from_utf8`
  abbrev pub from_utf8 : StampError → Bytes → Parse Text
  from_utf8 e bytes = if is_utf8 bytes then parsed bytes else refused e

  -- the fields behind the properties
  unfoldable pub parse_fields : Bytes → Parse DnsCryptStamp
  unfolding read_lp parse_stamp_addr
  parse_fields buf = do
    (addr_bytes, buf') ← read_lp buf
    addr_str ← from_utf8 invalid_address addr_bytes
    (key, buf'') ← read_lp buf'
    (name_bytes, rest) ← read_lp buf''
    name ← from_utf8 invalid_name name_bytes
    public_key ← if length key == 32 then parsed key else refused key_length
    addr ← or_refuse invalid_server (parse_stamp_addr addr_str)
    parsed (record { addr = addr; provider_public_key = public_key; provider_name = name })

  unfoldable pub parse_bytes : Bytes → Parse DnsCryptStamp
  unfolding parse_fields
  parse_bytes [] = refused empty_stamp
  parse_bytes (proto ∷ bytes) =
      if not (proto == 1)
      then refused unsupported_protocol
      else if ltb (length bytes) 8
      then refused truncated_properties
      else parse_fields (drop 8 bytes)

  -- `parse_dnscrypt_stamp`
  unfoldable pub parse_dnscrypt_stamp : Text → Parse DnsCryptStamp
  unfolding parse_bytes
  parse_dnscrypt_stamp stamp = do
    payload ← or_refuse no_scheme (strip_prefix (codes "sdns://") stamp)
    bytes ← or_refuse invalid_base64 (decode payload)
    parse_bytes bytes

  -- `build_stamp`
  unfoldable pub build_stamp : SocketAddr → Bytes → Bytes → Text
  build_stamp addr provider_public_key provider_name =
      let bytes =
        1
        ∷ (replicate 8 0
            ++ (push_lp (addr_to_string addr)
                ++ (push_lp provider_public_key ++ push_lp provider_name))) in
      codes "sdns://" ++ encode bytes

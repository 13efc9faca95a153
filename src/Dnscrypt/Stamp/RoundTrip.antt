-- ===== src/Dnscrypt/Stamp/RoundTrip.antt =====
-- A stamp that `build_stamp` makes is read back.
use dnsproxy_rs.Dnscrypt.Stamp.{
  Texts, parsed, segments, read_lp, push_lp, parse_fields, parse_bytes, parse_dnscrypt_stamp,
  parse_stamp_addr, build_stamp,
}
use dnsproxy_rs.Dnscrypt.{Bytes}
use dnsproxy_rs.Prelude.Text.{strip_prefix}
use dnsproxy_rs.Prelude.{
  ◌%◌, ◌<◌, ◌≡◌, refl, true, false, [], ◌++◌, ◌==◌, ltb, length, replicate, arith, ap, sym, ◌∙◌,
  length-append, append-nil, take-append, drop-append,
}

-- A text of less than 128 bytes is read back from behind its length.
read_lp-push_lp :
    (bytes rest : Bytes)
    → length bytes < 128
    → read_lp (push_lp bytes ++ rest) ≡ parsed (bytes, rest)
unfolding read_lp segments
read_lp-push_lp bytes rest h =
    let len : length bytes % 256 % 128 ≡ length bytes = omega arith in
    let enough : ltb (length (bytes ++ rest)) (length bytes) ≡ false =
      ground (arith, length-append bytes rest) in
    let last : ltb (length bytes % 256) 128 ≡ true = ground arith in
    rw
      (
        len,
        enough,
        last,
        take-append bytes rest (length bytes) refl,
        drop-append bytes rest (length bytes) refl,
      )
      refl

module _ (t : Texts) where
  open t use {
    SocketAddr, addr_to_string, length-to_string, is_utf8-to_string, parse-to_string, is_utf8,
    decode-encode,
  }

  parse_fields-push_lp :
      (addr : SocketAddr) (key name : Bytes)
      → length key ≡ 32
      → length name < 128
      → is_utf8 name ≡ true
      → parse_fields t (push_lp (addr_to_string addr) ++ (push_lp key ++ push_lp name))
        ≡ parsed (record { addr = addr; provider_public_key = key; provider_name = name })
  unfolding parse_fields parse_stamp_addr
  parse_fields-push_lp addr key name ek en utf =
      let first =
        read_lp-push_lp (addr_to_string addr) (push_lp key ++ push_lp name)
          (length-to_string addr) in
      let second = read_lp-push_lp key (push_lp name) (omega arith) in
      let third : read_lp (push_lp name) ≡ parsed (name, []) =
        ap read_lp (sym (append-nil (push_lp name))) ∙ read_lp-push_lp name [] en in
      let long : (length key == 32) ≡ true = ground arith in
      rw
        (
          first,
          parse_fields,
          is_utf8-to_string addr,
          second,
          third,
          utf,
          long,
          parse_stamp_addr,
          parse-to_string addr,
        )
        refl

  -- A stamp built from an address, a key of 32 bytes and a name of less than 128 bytes of UTF-8 is read
  -- back as that address, key and name.
  pub parse_dnscrypt_stamp-build_stamp :
      (addr : SocketAddr) (key name : Bytes)
      → length key ≡ 32
      → length name < 128
      → is_utf8 name ≡ true
      → parse_dnscrypt_stamp t (build_stamp t addr key name)
        ≡ parsed (record { addr = addr; provider_public_key = key; provider_name = name })
  unfolding parse_dnscrypt_stamp build_stamp strip_prefix parse_bytes
  parse_dnscrypt_stamp-build_stamp addr key name ek en utf =
      let fields = parse_fields-push_lp addr key name ek en utf in
      let behind = push_lp (addr_to_string addr) ++ (push_lp key ++ push_lp name) in
      let enough : ltb (length (replicate 8 0 ++ behind)) 8 ≡ false = ground arith in
      rw (decode-encode _, parse_dnscrypt_stamp, fields, enough) refl

-- ===== src/Dnscrypt/Certificates/Verified.antt =====
-- The certificates among TXT records that the provider signed, apart from how they are parsed.
use dnsproxy_rs.Dnscrypt.Certificates.{
  parsed, parse_one_certificate, certificate_of, cert_magic, es_version, from_be16,
}
use dnsproxy_rs.Dnscrypt.Frames.{Certificate, is_valid_at, slice}
use dnsproxy_rs.Dnscrypt.{Crypto, Bytes}
use dnsproxy_rs.Prelude.Text.{codes, text_eq, text_eq_iff}
use dnsproxy_rs.Prelude.{
  ℕ, Option-cases, ◌==◌, ◌+◌, ◌*◌, ◌<◌, ◌↔◌, ltb, length, take, drop, get_or, ◌≤◌, ◌≡◌, true, false,
  List, [], ◌∷◌, some, All, Any, arith, ap, subst, ◌∙◌, Bool-cases, inl, inr,
}

long_iff : (n : ℕ) → (ltb n 124 ≡ false) ↔ (124 ≤ n)
long_iff n = (λ e. ground arith, λ e. ground arith)

version_iff : (x y : ℕ) → ((x * 256 + y == 1) ≡ true) ↔ ((x ≡ 0) × (y ≡ 1))
version_iff x y = (λ e. ground arith, λ e. ground arith)

pub valid_iff :
    (cert : Certificate) (time : ℕ)
    → (is_valid_at cert time ≡ true) ↔ ((cert.ts_start ≤ time) × (time < cert.ts_end))
unfolding is_valid_at
valid_iff cert time = (λ e. ground arith, λ e. ground arith)

module _ (c : Crypto) (key : Bytes) where
  -- The text is a certificate of the right magic and version, of which `key` verifies the signature
  -- over its signed part, and the fields of that part are those of `cert`.
  pub record IsSigned (txt : Bytes) (cert : Certificate) : Type 0 where
    pub long : 124 ≤ length txt
    pub magic : take 4 txt ≡ codes "DNSC"
    pub version : (get_or (take 2 (drop 4 txt)) 0 0 ≡ 0) × (get_or (take 2 (drop 4 txt)) 1 0 ≡ 1)
    pub verified : c.verify key (take 52 (drop 72 txt)) (take 64 (drop 8 txt)) ≡ true
    pub fields : certificate_of (take 52 (drop 72 txt)) ≡ cert

  IsSigned-parse_one_certificate :
      (txt : Bytes) (cert : Certificate)
      → parse_one_certificate c txt key ≡ some cert
      → IsSigned txt cert
  unfolding parse_one_certificate
  IsSigned-parse_one_certificate txt cert e = elim (Bool-cases (ltb (length txt) 124)) [
    | inl short ↦ absurd (cc (rw short at e))
    | inr long ↦ elim (Bool-cases (text_eq (slice 0 4 txt) cert_magic)) [
      | inr other ↦ absurd (cc (rw (long, other) at e))
      | inl magic ↦ elim (Bool-cases (from_be16 (slice 4 2 txt) == es_version)) [
        | inr other ↦ absurd (cc (rw (long, magic, other) at e))
        | inl version ↦ elim (Bool-cases (c.verify key (slice 72 52 txt) (slice 8 64 txt))) [
          | inr forged ↦ absurd (cc (rw (long, magic, version, forged) at e))
          | inl verified ↦
              let kept : some (certificate_of (slice 72 52 txt)) ≡ some cert =
                rw (long, magic, version, verified) at e in
              record {
                long = (long_iff (length txt)).0 long;
                magic = (text_eq_iff (slice 0 4 txt) cert_magic).0 magic;
                version = (version_iff _ _).0 version;
                verified = verified;
                fields = cc kept;
              }
        ]
      ]
    ]
  ]

  parse_one_certificate-IsSigned :
      (txt : Bytes) (cert : Certificate)
      → IsSigned txt cert
      → parse_one_certificate c txt key ≡ some cert
  unfolding parse_one_certificate
  parse_one_certificate-IsSigned txt cert s =
      let long : ltb (length txt) 124 ≡ false = (long_iff (length txt)).1 s.long in
      let magic = (text_eq_iff (slice 0 4 txt) cert_magic).1 s.magic in
      let version : (from_be16 (slice 4 2 txt) == es_version) ≡ true =
        (version_iff _ _).1 s.version in
      rw (long, magic, version, s.verified) (ap some s.fields)

  pub parsed-sound :
      (cert : Certificate) (txts : List Bytes)
      → Any (λ y. y ≡ cert) (parsed c key txts)
      → Any (λ txt. IsSigned txt cert) txts
  unfolding parsed
  parsed-sound cert [] any = any
  parsed-sound cert (txt ∷ txts) any = elim (Option-cases (parse_one_certificate c txt key)) [
    | inl refused ↦ inr (parsed-sound cert txts (rw refused at any))
    | inr (y, read) ↦
        let both : Any (λ y. y ≡ cert) (y ∷ parsed c key txts) = rw read at any in
        elim both [
          | inl same ↦ inl (IsSigned-parse_one_certificate txt cert (read ∙ ap some same))
          | inr later ↦ inr (parsed-sound cert txts later)
        ]
  ]

  pub parsed-All :
      (P : Certificate → Type 0) (txts : List Bytes)
      → All P (parsed c key txts)
      → All (λ txt. (y : Certificate) → IsSigned txt y → P y) txts
  unfolding parsed
  parsed-All P [] all = tt
  parsed-All P (txt ∷ txts) all = elim (Option-cases (parse_one_certificate c txt key)) [
    | inl refused ↦ (
      λ y s. absurd (cc (refused, parse_one_certificate-IsSigned txt y s)),
      parsed-All P txts (rw refused at all),
    )
    | inr (x, read) ↦
        let both : All P (x ∷ parsed c key txts) = rw read at all in
        (
          λ y s.
              let same : x ≡ y = cc (read, parse_one_certificate-IsSigned txt y s) in
              subst P same both.0,
          parsed-All P txts both.1,
        )
  ]

  -- `cert` is one that the provider signed, it is valid at `time`, and no other such certificate of
  -- the TXT records has a higher serial.
  pub record IsNewest (time : ℕ) (txts : List Bytes) (cert : Certificate) : Type 0 where
    pub signed : Any (λ txt. IsSigned txt cert) txts
    pub valid : (cert.ts_start ≤ time) × (time < cert.ts_end)
    pub newest :
        All
          (λ txt.
            (y : Certificate)
            → IsSigned txt y
            → (y.ts_start ≤ time) × (time < y.ts_end)
            → y.serial ≤ cert.serial)
          txts

-- ===== src/Dnscrypt/Client/Fresh.antt =====
-- Which certificate the client uses.
use dnsproxy_rs.Dnscrypt.Certificates.{parsed, newer, parse_certificates}
use dnsproxy_rs.Dnscrypt.Certificates.Verified.{IsNewest, valid_iff, parsed-sound, parsed-All}
use dnsproxy_rs.Dnscrypt.Client.{
  Network, head, retain, choose, keep_cert, refresh_cert, current_cert,
}
use dnsproxy_rs.Dnscrypt.Frames.{Certificate, is_valid_at}
use dnsproxy_rs.Dnscrypt.{Crypto, Bytes}
use dnsproxy_rs.Error.{
  dns_crypt, no_valid_certificate, Result, ok, err, panic, ok_or, ◌>>=◌, >>=-eq-ok, ok_or-eq-ok,
}
use dnsproxy_rs.Prelude.Sort.{First, IsSorted, sort_by, sort_by-IsSorted, All-sort_by, Any-sort_by}
use dnsproxy_rs.Prelude.{
  ℕ, All-mono, ◌≤◌, ◌≡◌, refl, true, false, List, [], ◌∷◌, Option, none, some, All, Any, arith, ap,
  subst, sym, ◌∙◌, Bool-cases, inl, inr,
}

-- `cert` is valid at `time`, and no certificate of the list that is valid then has a higher serial.
pub record IsHighest (time : ℕ) (certs : List Certificate) (cert : Certificate) : Type 0 where
  pub listed : Any (λ y. y ≡ cert) certs
  pub valid : is_valid_at cert time ≡ true
  pub newest : All (λ y. is_valid_at y time ≡ true → y.serial ≤ cert.serial) certs

First-below :
    (cert : Certificate) (time : ℕ) (ys : List Certificate)
    → First newer cert ys
    → All (λ y. is_valid_at y time ≡ true → y.serial ≤ cert.serial) ys
First-below cert time [] f = tt
First-below cert time (y ∷ ys) f = (λ v. ground arith, First-below cert time ys f.1)

retain-IsHighest :
    (time : ℕ) (certs : List Certificate) {cert : Certificate}
    → IsSorted newer certs
    → head (retain time certs) ≡ some cert
    → IsHighest time certs cert
unfolding retain
retain-IsHighest time [] s e = absurd (cc e)
retain-IsHighest time (x ∷ xs) {cert} s e = elim (Bool-cases (is_valid_at x time)) [
  | inl now_valid ↦
      let same : x ≡ cert = cc (rw now_valid at e) in
      subst (IsHighest time (x ∷ xs)) same (record {
        listed = inl refl;
        valid = now_valid;
        newest = (λ v. omega arith, First-below x time xs s.0);
      })
  | inr over ↦
      let later = retain-IsHighest time xs s.1 (rw over at e) in
      record {
        listed = inr later.listed;
        valid = later.valid;
        newest = (λ v. absurd (ground arith), later.newest);
      }
]

newer_total : (x y : Certificate) → newer x y ≡ false → newer y x ≡ true
newer_total x y e = ground arith

newer_trans : (x y z : Certificate) → newer x y ≡ true → newer y z ≡ true → newer x z ≡ true
newer_trans x y z p q = ground arith

module _ (c : Crypto) {W : Type 0} (network : Network c W) (provider_public_key : Bytes) where
  open network use {now, fetch}

  abbrev first_valid : ℕ → List Certificate → Result Certificate
  first_valid time certs = ok_or (dns_crypt no_valid_certificate) (head (retain time certs))

  parse_certificates-sorted :
      (txts : List Bytes) {certs : List Certificate}
      → parse_certificates c txts provider_public_key ≡ ok certs
      → certs ≡ sort_by newer (parsed c provider_public_key txts)
  unfolding parse_certificates
  parse_certificates-sorted txts e = ground arith

  choose-IsHighest :
      (time : ℕ) (txts : List Bytes) {cert : Certificate}
      → choose c network provider_public_key time txts ≡ ok cert
      → IsHighest time (parsed c provider_public_key txts) cert
  unfolding choose parse_certificates
  choose-IsHighest time txts {cert} e =
      let (certs, listed, first) =
        >>=-eq-ok (parse_certificates c txts provider_public_key) (first_valid time) e in
      let sorted : certs ≡ sort_by newer (parsed c provider_public_key txts) =
        parse_certificates-sorted txts listed in
      let chosen : head (retain time (sort_by newer (parsed c provider_public_key txts)))
          ≡ some cert =
        rw sorted at (ok_or-eq-ok _ _ first) in
      let best =
        retain-IsHighest time _
          (sort_by-IsSorted newer newer_total newer_trans (parsed c provider_public_key txts))
          chosen in
      record {
        listed = Any-sort_by newer (λ y. y ≡ cert) _ best.listed;
        valid = best.valid;
        newest = All-sort_by newer _ _ best.newest;
      }

  -- The certificate that is chosen among the TXT records is one whose signature the provider's key
  -- verifies and that is valid now, and no other such certificate has a higher serial.
  pub choose-IsNewest :
      (time : ℕ) (txts : List Bytes) {cert : Certificate}
      → choose c network provider_public_key time txts ≡ ok cert
      → IsNewest c provider_public_key time txts cert
  unfolding is_valid_at
  choose-IsNewest time txts {cert} e =
      let best = choose-IsHighest time txts e in
      record {
        signed = parsed-sound c provider_public_key cert txts best.listed;
        valid = (valid_iff cert time).0 best.valid;
        newest =
            All-mono _ _ txts (λ txt low y s v. low y s ((valid_iff y time).1 v))
              (parsed-All c provider_public_key _ txts best.newest);
      }

  keep_cert-ok :
      (r : Result Certificate) (cached : Option Certificate) (w : W) {cert : Certificate}
      {cached' : Option Certificate} {w' : W}
      → keep_cert c network provider_public_key r cached w ≡ (ok cert, cached', w')
      → (r ≡ ok cert) × (cached' ≡ some cert) × (w ≡ w')
  unfolding keep_cert
  keep_cert-ok (ok x) cached w e =
      let same : x ≡ _ = cc (ap (λ t. t.0) e) in
      (ap ok same, sym (ap (λ t. t.1) e) ∙ ap some same, ap (λ t. t.2) e)
  keep_cert-ok (err x) cached w e = absurd (cc (ap (λ t. t.0) e))
  keep_cert-ok panic cached w e = absurd (cc (ap (λ t. t.0) e))

  refresh_cert-Current :
      (cached : Option Certificate) (w : W) {cert : Certificate} {cached' : Option Certificate}
      {w' : W}
      → refresh_cert c network provider_public_key cached w ≡ (ok cert, cached', w')
      → (is_valid_at cert (now w') ≡ true) × (cached' ≡ some cert)
  unfolding refresh_cert
  refresh_cert-Current cached w e =
      let (chosen, stored, moved) =
        keep_cert-ok ((fetch w).0 >>= choose c network provider_public_key (now (fetch w).1)) cached
          (fetch w).1 e in
      let (txts, fetched, found) = >>=-eq-ok (fetch w).0 _ chosen in
      (rw moved at (choose-IsHighest (now (fetch w).1) txts found).valid, stored)

  -- The certificate that a query is sent with is valid at that time, and it is the one that stays in
  -- the cache.
  pub current_cert-Current :
      (cached : Option Certificate) (w : W) {cert : Certificate} {cached' : Option Certificate}
      {w' : W}
      → current_cert c network provider_public_key cached w ≡ (ok cert, cached', w')
      → (is_valid_at cert (now w') ≡ true) × (cached' ≡ some cert)
  unfolding current_cert
  current_cert-Current none w e = refresh_cert-Current none w e
  current_cert-Current (some x) w {cert} {cached'} {w'} e =
      elim (Bool-cases (is_valid_at x (now w))) [
        | inr over ↦ refresh_cert-Current (some x) w (rw (over, current_cert) at e)
        | inl valid ↦
            let kept : (ok x, some x, w) ≡ (ok cert, cached', w') = rw (valid, current_cert) at e in
            let same : x ≡ cert = cc (ap (λ t. t.0) kept) in
            let moved : w ≡ w' = ap (λ t. t.2) kept in
            (rw (← same, ← moved) valid, sym (ap (λ t. t.1) kept) ∙ ap some same)
      ]

-- ===== src/Error.antt =====
-- src/error.rs: `DohError`, the result of a fallible operation, and `should_retry`. The text that a
-- message shows is kept as the constructor that says which message it is.
use dnsproxy_rs.Prelude.{ℕ, Bool, true, false, ◌||◌, Option, none, some, ◌≡◌, ◌≢◌, refl}
use dnsproxy_rs.Prelude.Text.{Text, codes, split_once}

-- What the decoder of a message, or of a padded plaintext, was applied to.
pub data Packet : Type 0 where
  response reparsed_response doh_request doq_request dot_message udp_packet tcp_message
        dnscrypt_query dnscrypt_response :
      Packet

-- The messages of `DohError::InvalidResponse`.
pub data Invalid : Type 0 where
  unpacking : Packet → Invalid
  decoding_dns_param too_large : Invalid
  question_count : ℕ → Invalid
  mismatched_type : ℕ → Invalid
  mismatched_name : Invalid

-- The messages of `DohError::DnsCrypt`.
pub data Refusal : Type 0 where
  invalid_provider_key invalid_padding encrypting decrypting : Refusal
  response_too_short wrong_resolver_magic wrong_nonce : Refusal
  query_too_short wrong_client_magic too_large_for_tcp no_valid_certificate : Refusal

-- The messages of `DohError::Bootstrap`.
pub data Bootstrap : Type 0 where
  no_upstreams no_resolvers all_failed no_addresses : Bootstrap
  nothing_to_dial expected_tcp resolving_timed_out dialing_timed_out packing unpacking_answer :
      Bootstrap
  invalid_name lookup_failed dialing : Text → Bootstrap

pub data DohError : Type 0 where
  bootstrap : Bootstrap → DohError
  pack : DohError
  http : Text → DohError
  unexpected_status : ℕ → Text → DohError
  non_zero_id : ℕ → DohError
  invalid_response : Invalid → DohError
  timeout : ℕ → DohError
  no_supported_versions : DohError
  io : DohError
  quic : Text → DohError
  dns_crypt : Refusal → DohError

-- What a fallible operation returns, or that the task panics: an index out of bounds, or `unwrap`
-- of nothing.
pub data Result {ℓ} (A : Type ℓ) : Type ℓ where
  panic : Result A
  err : DohError → Result A
  ok : A → Result A

module _ {ℓ} {A : Type ℓ} where
  -- `ok_or` and `map_err` on a library call that may fail
  abbrev pub ok_or : DohError → Option A → Result A
  ok_or e (some found) = ok found
  ok_or e none = err e

  abbrev pub is_ok : Result A → Bool
  is_ok panic = false
  is_ok (err e) = false
  is_ok (ok found) = true

  pub ok_or-eq-ok :
      (e : DohError) (o : Option A) {found : A} → ok_or e o ≡ ok found → o ≡ some found
  ok_or-eq-ok e (some x) same = cc
  ok_or-eq-ok e none same = cc

  pub ok_or-ne-panic : (e : DohError) (o : Option A) → ok_or e o ≢ panic
  ok_or-ne-panic e (some x) same = cc same
  ok_or-ne-panic e none same = cc same

-- `?` on a result
module _ {ℓ κ} {A : Type ℓ} {B : Type κ} where
  infixl 5 ◌>>=◌
  abbrev pub ◌>>=◌ : Result A → (A → Result B) → Result B
  panic >>= next = panic
  (err e) >>= next = err e
  (ok found) >>= next = next found

  -- where a chain of steps succeeds, its first step does
  pub >>=-eq-ok :
      (first : Result A) (next : A → Result B) {last : B}
      → first >>= next ≡ ok last
      → (found : A) × (first ≡ ok found) × (next found ≡ ok last)
  >>=-eq-ok panic next same = cc
  >>=-eq-ok (err e) next same = cc
  >>=-eq-ok (ok found) next same = (found, refl, same)

  -- a chain of steps panics only if a step does
  pub >>=-ne-panic :
      (first : Result A) (next : A → Result B)
      → first ≢ panic
      → ((found : A) → next found ≢ panic)
      → first >>= next ≢ panic
  >>=-ne-panic panic next safe safe' same = safe refl
  >>=-ne-panic (err e) next safe safe' same = cc same
  >>=-ne-panic (ok found) next safe safe' same = safe' found same

module _ {κ} {B : Type κ} where
  infixl 5 ◌>>◌
  abbrev pub ◌>>◌ : Result (Unit {0}) → Result B → Result B
  first >> next = first >>= λ _. next

  pub >>-eq-ok :
      (first : Result (Unit {0})) (next : Result B) {last : B}
      → first >> next ≡ ok last
      → (first ≡ ok tt) × (next ≡ ok last)
  >>-eq-ok panic next same = cc
  >>-eq-ok (err e) next same = cc
  >>-eq-ok (ok tt) next same = (refl, same)

-- `str::contains`
unfoldable pub contains : Text → Text → Bool
unfolding split_once
contains piece s = elim (split_once piece s) [ none ↦ false | some _ ↦ true ]

unfoldable pub should_retry : DohError → Bool
unfolding contains
should_retry (timeout d) = true
should_retry (quic msg) = contains (codes "0-RTT") msg || contains (codes "retry") msg
should_retry _ = false

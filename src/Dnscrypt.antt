-- ===== src/Dnscrypt.antt =====
-- src/client/dnscrypt/crypto.rs: the DNSCrypt v2 wire protocol. The crates crypto_box and
-- ed25519_dalek are the interface `Crypto`; random bytes are arguments.
pub mod Padding
pub mod Frames
pub mod Certificates
pub mod Client
pub mod Stamp
pub mod Listener
use dnsproxy_rs.Prelude.{ℕ, Bool, true, List, Option, some, length, ◌≡◌}

abbrev pub Bytes : Type 0
Bytes = List ℕ

pub record Crypto : Type 1 where
  pub SecretKey : Type 0
  pub SigningKey : Type 0
  pub public_key : SecretKey → Bytes
  pub length-public_key : (k : SecretKey) → length (public_key k) ≡ 32
  -- `SalsaBox::encrypt` and `decrypt`, for the box of a secret and a public key
  pub seal : SecretKey → Bytes → Bytes → Bytes → Option Bytes
  pub unseal : SecretKey → Bytes → Bytes → Bytes → Option Bytes
  -- both sides derive the same box
  pub unseal-seal :
      (a b : SecretKey) (nonce msg : Bytes) {sealed : Bytes}
      → seal a (public_key b) nonce msg ≡ some sealed
      → unseal b (public_key a) nonce sealed ≡ some msg
  -- Ed25519; `is_key` says whether `VerifyingKey::from_bytes` accepts the bytes
  pub is_key : Bytes → Bool
  pub verifying_key : SigningKey → Bytes
  pub is_key-verifying_key : (k : SigningKey) → is_key (verifying_key k) ≡ true
  pub sign : SigningKey → Bytes → Bytes
  pub length-sign : (k : SigningKey) (msg : Bytes) → length (sign k msg) ≡ 64
  -- key, message, signature
  pub verify : Bytes → Bytes → Bytes → Bool
  pub verify-sign :
      (k : SigningKey) (msg : Bytes) → verify (verifying_key k) msg (sign k msg) ≡ true

-- ===== src/Dnscrypt/Padding.antt =====
-- `pad` and `unpad`.
use mathlib.Core.Path.{ap₂}
use dnsproxy_rs.Dnscrypt.{Bytes}
use dnsproxy_rs.Error.{dns_crypt, invalid_padding, Result, ok, err}
use dnsproxy_rs.Prelude.{
  ℕ, zero, suc, ◌+◌, ◌-◌, ◌%◌, ◌≤◌, ◌<◌, ◌≡◌, refl, ◌↔◌, [], ◌∷◌, ◌++◌, Option, none, some, ◌==◌,
  if◌then◌else◌, length, take, get_or, replicate, length-append, length-replicate, arith, ap, ◌∙◌,
  append_assoc, subst, Bool-cases, Option-cases, inl, inr, take-append,
}

abbrev pub pad_block_size : ℕ
pad_block_size = 64

unfoldable pub fill : ℕ → Bytes
fill rem = if rem == 0 then [] else replicate (pad_block_size - rem) 0

unfoldable pub pad : Bytes → Bytes
unfolding fill
pad msg = let marked = msg ++ 0x80 ∷ [] in marked ++ fill (length marked % pad_block_size)

-- `rposition(|&b| b != 0)`
unfoldable pub last_nonzero : Bytes → Option ℕ
last_nonzero [] = none
last_nonzero (b ∷ bs) = elim (last_nonzero bs) [
  | some i ↦ some (suc i)
  | none ↦ if b == 0 then none else some 0
]

unfoldable pub unpad : Bytes → Result Bytes
unfolding last_nonzero
unpad padded = elim (last_nonzero padded) [
  | none ↦ err (dns_crypt invalid_padding)
  | some i ↦
      if get_or padded i 0 == 0x80 then ok (take i padded) else err (dns_crypt invalid_padding)
]

length-fill : (rem : ℕ) → rem < 64 → length (fill rem) ≡ (64 - rem) % 64
unfolding fill
length-fill rem h = elim (Bool-cases (rem == 0)) [
  | inl whole ↦ rw whole (ground arith)
  | inr part ↦ rw part (length-replicate {0} (64 - rem) 0 ∙ ground arith)
]

-- A padded message is a whole number of blocks, and is longer than the message by one to 64 bytes.
pub pad_blocks :
    (msg : Bytes)
    → (length (pad msg) % 64 ≡ 0)
      × (length msg < length (pad msg))
      × (length (pad msg) ≤ length msg + 64)
unfolding pad
pad_blocks msg =
    let marked = msg ++ 0x80 ∷ [] in
    let one_more : length marked ≡ length msg + 1 = length-append msg (0x80 ∷ []) in
    let filled : length (fill (length marked % 64)) ≡ (64 - length marked % 64) % 64 =
      length-fill (length marked % 64) (omega arith) in
    let whole = length-append marked (fill (length marked % 64)) in
    (omega arith, omega arith, omega arith)

-- the zeros that `pad` adds
pub zeros_of : Bytes → ℕ
zeros_of msg = length (fill (length (msg ++ 0x80 ∷ []) % pad_block_size))

fill-replicate : (rem : ℕ) → fill rem ≡ replicate (length (fill rem)) 0
unfolding fill
fill-replicate rem = elim (Bool-cases (rem == 0)) [
  | inl whole ↦ rw whole
  | inr part ↦ rw (part, length-replicate)
]

pad-marked : (msg : Bytes) → pad msg ≡ msg ++ 0x80 ∷ replicate (zeros_of msg) 0
unfolding pad zeros_of
pad-marked msg =
    append_assoc msg (0x80 ∷ []) (fill (length (msg ++ 0x80 ∷ []) % pad_block_size))
    ∙ ap (λ z. msg ++ 0x80 ∷ z) (fill-replicate (length (msg ++ 0x80 ∷ []) % pad_block_size))

last_nonzero-zeros : (k : ℕ) → last_nonzero (replicate k 0) ≡ none
unfolding last_nonzero
last_nonzero-zeros zero = refl
last_nonzero-zeros (suc k) = rw (last_nonzero-zeros k)

last_nonzero-marked :
    (msg : Bytes) (k : ℕ) → last_nonzero (msg ++ 0x80 ∷ replicate k 0) ≡ some (length msg)
unfolding last_nonzero
last_nonzero-marked [] k = rw (last_nonzero, last_nonzero-zeros k)
last_nonzero-marked (b ∷ msg) k = rw (last_nonzero, last_nonzero-marked msg k)

get_or-marked : (msg : Bytes) (x : ℕ) (rest : Bytes) → get_or (msg ++ x ∷ rest) (length msg) 0 ≡ x
get_or-marked [] x rest = refl
get_or-marked (b ∷ msg) x rest = get_or-marked msg x rest

unpad-marked : (msg : Bytes) (k : ℕ) → unpad (msg ++ 0x80 ∷ replicate k 0) ≡ ok msg
unfolding unpad
unpad-marked msg k =
    rw (last_nonzero-marked msg k, unpad, get_or-marked msg 0x80 (replicate k 0))
      (ap ok (take-append msg (0x80 ∷ replicate k 0) (length msg) refl))

-- Unpadding gives back every padded message.
pub unpad-pad : (msg : Bytes) → unpad (pad msg) ≡ ok msg
unpad-pad msg = ap unpad (pad-marked msg) ∙ unpad-marked msg (zeros_of msg)

last_nonzero-none : (p : Bytes) → last_nonzero p ≡ none → p ≡ replicate (length p) 0
unfolding last_nonzero
last_nonzero-none [] e = refl
last_nonzero-none (b ∷ bs) e = elim (Option-cases (last_nonzero bs)) [
  | inr (i, found) ↦ absurd (ground arith)
  | inl all_zero ↦
      let zero_b : b ≡ 0 = ground arith in ap₂ ◌∷◌ zero_b (last_nonzero-none bs all_zero)
]

last_nonzero-split :
    (p : Bytes) {i : ℕ}
    → last_nonzero p ≡ some i
    → (k : ℕ) × (p ≡ take i p ++ get_or p i 0 ∷ replicate k 0)
unfolding last_nonzero
last_nonzero-split [] e = absurd (cc e)
last_nonzero-split (b ∷ bs) {i} e = elim (Option-cases (last_nonzero bs)) [
  | inr (j, found) ↦
      let (k, split) = last_nonzero-split bs found in
      let next : suc j ≡ i = ground arith in
      (
        k,
        subst (λ n. b ∷ bs ≡ take n (b ∷ bs) ++ get_or (b ∷ bs) n 0 ∷ replicate k 0) next
            (ap (◌∷◌ b) split),
      )
  | inl all_zero ↦
      let first : 0 ≡ i = ground arith in
      (
        length bs,
        subst (λ n. b ∷ bs ≡ take n (b ∷ bs) ++ get_or (b ∷ bs) n 0 ∷ replicate (length bs) 0) first
            (ap (◌∷◌ b) (last_nonzero-none bs all_zero)),
      )
]

unpad_sound :
    (p : Bytes) {msg : Bytes} → unpad p ≡ ok msg → (k : ℕ) × (p ≡ msg ++ 0x80 ∷ replicate k 0)
unfolding unpad
unpad_sound p {msg} e = elim (Option-cases (last_nonzero p)) [
  | inl all_zero ↦ absurd (ground arith)
  | inr (i, found) ↦
      let (k, split) = last_nonzero-split p found in
      let marker : get_or p i 0 ≡ 0x80 = ground arith in
      let front : take i p ≡ msg = ground arith in
      (k, split ∙ ap₂ (λ m x. m ++ x ∷ replicate k 0) front marker)
]

-- A text is accepted, and gives `msg`, exactly when it is `msg`, the marker 0x80 and zeros; every
-- other text is refused.
pub unpad_iff : (p msg : Bytes) → (unpad p ≡ ok msg) ↔ ((k : ℕ) × (p ≡ msg ++ 0x80 ∷ replicate k 0))
unpad_iff p msg = (unpad_sound p, λ s. ap unpad s.1 ∙ unpad-marked msg s.0)

-- ===== src/Dnscrypt/Stamp/Enough.antt =====
-- `read_lp` ends before its fuel does.
use dnsproxy_rs.Dnscrypt.Stamp.{segments, read_lp}
use dnsproxy_rs.Dnscrypt.{Bytes}
use dnsproxy_rs.Prelude.{
  ℕ, zero, suc, ◌%◌, ◌<◌, ◌≡◌, refl, [], ◌∷◌, ◌++◌, length, take, drop, length-drop-le, arith,
}

segments-enough :
    (m n : ℕ) (out buf : Bytes)
    → length buf < m
    → length buf < n
    → segments m out buf ≡ segments n out buf
unfolding segments
segments-enough zero n out buf short enough = absurd (omega arith)
segments-enough (suc m) zero out buf short enough = absurd (omega arith)
segments-enough (suc m) (suc n) out [] short enough = refl
segments-enough (suc m) (suc n) out (b ∷ buf) short enough =
    let bound = length-drop-le (b % 128) buf in
    let later =
      segments-enough m n (out ++ take (b % 128) buf) (drop (b % 128) buf) (omega arith)
        (omega arith) in
    rw later refl

-- The loop of `read_lp` ends before its fuel does: with any more fuel, the result is the same.
pub read_lp-enough :
    (buf : Bytes) (fuel : ℕ) → length buf < fuel → segments fuel [] buf ≡ read_lp buf
unfolding read_lp
read_lp-enough buf fuel enough = segments-enough fuel (suc (length buf)) [] buf enough (omega arith)

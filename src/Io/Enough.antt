-- ===== src/Io/Enough.antt =====
-- The loop over a connection ends before its fuel does.
use dnsproxy_rs.Error.{Result, ok, err, panic}
use dnsproxy_rs.Io.{Bytes, read_exact, read_u16, read_prefixed, serve_tcp, serve_connection}
use dnsproxy_rs.Prelude.{
  ℕ, zero, suc, ◌+◌, ◌*◌, ◌<◌, ◌≡◌, refl, [], ◌∷◌, ◌++◌, ltb, length, length-drop-le, take, drop,
  arith, subst, Bool-cases, inl, inr,
}

read_prefixed-shorter :
    (stream : Bytes) {packet rest : Bytes}
    → read_prefixed stream ≡ ok (packet, rest)
    → length rest < length stream
unfolding read_prefixed read_u16 read_exact
read_prefixed-shorter [] e = absurd (cc e)
read_prefixed-shorter (a ∷ []) e = absurd (cc e)
read_prefixed-shorter (a ∷ b ∷ stream) {packet} {rest} e =
    elim (Bool-cases (ltb (length stream) (a * 256 + b))) [
      | inl short ↦ absurd (cc (rw short at e))
      | inr long ↦
          let read : ok (take (a * 256 + b) stream, drop (a * 256 + b) stream) ≡ ok (packet, rest) =
            rw long at e in
          let same : drop (a * 256 + b) stream ≡ rest = cc read in
          let bound = length-drop-le (a * 256 + b) stream in
          subst (λ r. length r < length (a ∷ b ∷ stream)) same (omega arith)
    ]

module _ {W : Type 0} (answer : Bytes → W → Result Bytes × W) where
  -- one pass, where the passes behind it agree
  module _ (m n : ℕ) (stream written : Bytes) (w : W)
      (agree : (rest out : Bytes) (w' : W)
        → length rest < length stream
        → serve_tcp answer m rest out w' ≡ serve_tcp answer n rest out w') where
    pass_answered :
        (packet rest : Bytes) (r : Result Bytes)
        → read_prefixed stream ≡ ok (packet, rest)
        → (answer packet w).0 ≡ r
        → serve_tcp answer (suc m) stream written w ≡ serve_tcp answer (suc n) stream written w
    unfolding serve_tcp
    pass_answered packet rest (ok out) e a =
        rw (e, serve_tcp, a)
          (agree rest (written ++ out) (answer packet w).1 (read_prefixed-shorter stream e))
    pass_answered packet rest (err x) e a = rw (e, serve_tcp, a) refl
    pass_answered packet rest panic e a = rw (e, serve_tcp, a) refl

    pass :
        (r : Result (Bytes × Bytes))
        → read_prefixed stream ≡ r
        → serve_tcp answer (suc m) stream written w ≡ serve_tcp answer (suc n) stream written w
    unfolding serve_tcp
    pass panic e = rw (e, serve_tcp) refl
    pass (err x) e = rw (e, serve_tcp) refl
    pass (ok (packet, rest)) e = pass_answered packet rest (answer packet w).0 e refl

  serve_tcp-enough :
      (m n : ℕ) (stream written : Bytes) (w : W)
      → length stream < m
      → length stream < n
      → serve_tcp answer m stream written w ≡ serve_tcp answer n stream written w
  serve_tcp-enough zero n stream written w short enough = absurd (omega arith)
  serve_tcp-enough (suc m) zero stream written w short enough = absurd (omega arith)
  serve_tcp-enough (suc m) (suc n) stream written w short enough =
      pass m n stream written w
        (λ rest out w' shorter. serve_tcp-enough m n rest out w' (omega arith) (omega arith))
        (read_prefixed stream) refl

  -- The loop over a connection ends before its fuel does: with any more fuel, the result, what is
  -- written and the world are the same.
  pub serve_connection-enough :
      (stream : Bytes) (w : W) (fuel : ℕ)
      → length stream < fuel
      → serve_tcp answer fuel stream [] w ≡ serve_connection answer stream w
  unfolding serve_connection
  serve_connection-enough stream w fuel enough =
      serve_tcp-enough fuel (suc (length stream)) stream [] w enough (omega arith)

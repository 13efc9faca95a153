-- ===== src/Client/Reuse/Attempts.antt =====
-- When a client asks twice, and what becomes of its connection.
use dnsproxy_rs.Client.Reuse.{keep_new, get, retry_on, retry, settle, exchange_with, exchange}
use dnsproxy_rs.Error.{DohError, should_retry, Result, ok, err, panic}
use dnsproxy_rs.Exec.{Exec}
use dnsproxy_rs.Prelude.{
  ◌≡◌, refl, Bool, true, false, ◌&&◌, Option, none, some, Bool-cases, inl, inr,
}

module _ {C W M : Type 0} (open_new : Exec W C) (renew : C → Exec W C)
    (attempt : C → W → Result M × C × W) where
  -- The connection of the first attempt: the kept one, or a new one.
  pub data Connected : Option C → W → C → Bool → W → Type 0 where
    reused : (c : C) (w : W) → Connected (some c) w c true w
    opened : (c : C) (w w' : W) → open_new w ≡ (ok c, w') → Connected none w c false w'

  -- How an exchange in the state `kept` and `w` ends, with what result and in what state.
  pub data Attempts (kept : Option C) (w : W) : Result M → Option C → W → Type 0 where
    -- no connection: nothing was asked, and nothing is kept
    unconnected :
        {w' : W} (e : DohError)
        → kept ≡ none
        → open_new w ≡ (err e, w')
        → Attempts kept w (err e) none w'
    -- the first answer counts, and its connection is kept
    answered :
        {c c' : C} {b : Bool} {w' w'' : W} (m : M)
        → Connected kept w c b w'
        → attempt c w' ≡ (ok m, c', w'')
        → Attempts kept w (ok m) (some c') w''
    -- the connection was new, or the error is final: it is dropped
    failed :
        {c c' : C} {b : Bool} {w' w'' : W} (e : DohError)
        → Connected kept w c b w'
        → attempt c w' ≡ (err e, c', w'')
        → (b && should_retry e) ≡ false
        → Attempts kept w (err e) none w''
    -- a kept connection failed with an error that is tried again, and no new one could be made
    not_renewed :
        {c c' : C} {w' w'' : W} (e e' : DohError)
        → kept ≡ some c
        → attempt c w ≡ (err e, c', w')
        → should_retry e ≡ true
        → renew c' w' ≡ (err e', w'')
        → Attempts kept w (err e') (some c') w''
    -- it failed, and the second attempt, over a new connection, counts
    retried :
        {c c' d d' : C} {w' w'' w''' : W} {r : Result M} (e : DohError)
        → kept ≡ some c
        → attempt c w ≡ (err e, c', w')
        → should_retry e ≡ true
        → renew c' w' ≡ (ok d, w'')
        → attempt d w'' ≡ (r, d', w''')
        → Attempts kept w r (some d') w'''
    -- a panic while the connection is made, in the first attempt, or while it is renewed
    panicked_opening :
        {w' : W} → kept ≡ none → open_new w ≡ (panic, w') → Attempts kept w panic none w'
    panicked_asking :
        {c c' : C} {b : Bool} {w' w'' : W}
        → Connected kept w c b w'
        → attempt c w' ≡ (panic, c', w'')
        → Attempts kept w panic (some c') w''
    panicked_renewing :
        {c c' : C} {w' w'' : W} (e : DohError)
        → kept ≡ some c
        → attempt c w ≡ (err e, c', w')
        → should_retry e ≡ true
        → renew c' w' ≡ (panic, w'')
        → Attempts kept w panic (some c') w''

  -- The state and the result behind a step, as a relation holds of them.
  abbrev Behind : (Result M → Option C → W → Type 0) → Result M × Option C × W → Type 0
  Behind P (r, kept, w) = P r kept w

  retry_on-Attempts :
      (c c' : C) (w w' : W) (e : DohError)
      → attempt c w ≡ (err e, c', w')
      → should_retry e ≡ true
      → (r : Result C) (w'' : W) → renew c' w' ≡ (r, w'')
      → Behind (Attempts (some c) w) (retry_on open_new renew attempt c' r w'')
  unfolding retry_on
  retry_on-Attempts c c' w w' e asked again panic w'' made =
      panicked_renewing e refl asked again made
  retry_on-Attempts c c' w w' e asked again (err e') w'' made =
      not_renewed e e' refl asked again made
  retry_on-Attempts c c' w w' e asked again (ok d) w'' made = retried e refl asked again made refl

  settle-Attempts :
      {kept : Option C} {w : W} {c : C} {b : Bool} {w' : W}
      → Connected kept w c b w'
      → (r : Result M) (c' : C) (w'' : W) → attempt c w' ≡ (r, c', w'')
      → Behind (Attempts kept w) (settle open_new renew attempt b r c' w'')
  unfolding settle retry
  settle-Attempts connected panic c' w'' asked = panicked_asking connected asked
  settle-Attempts connected (ok m) c' w'' asked = answered m connected asked
  settle-Attempts (opened c w w' made) (err e) c' w'' asked =
      failed e (opened c w w' made) asked refl
  settle-Attempts (reused c w) (err e) c' w'' asked = elim (Bool-cases (should_retry e)) [
    | inl again ↦
        rw again (retry_on-Attempts c c' w w'' e asked again (renew c' w'').0 (renew c' w'').1 refl)
    | inr final ↦ rw final (failed e (reused c w) asked final)
  ]

  exchange-Attempts_new :
      (w : W) (r : Result C) (w' : W)
      → open_new w ≡ (r, w')
      → Behind
          (Attempts none w)
          (exchange_with open_new renew attempt (keep_new open_new renew attempt r w'))
  unfolding exchange_with keep_new
  exchange-Attempts_new w panic w' made = panicked_opening refl made
  exchange-Attempts_new w (err e) w' made = unconnected e refl made
  exchange-Attempts_new w (ok c) w' made =
      settle-Attempts (opened c w w' made) (attempt c w').0 (attempt c w').1 (attempt c w').2 refl

  -- A query is asked once, or twice: a second time only if the first attempt was over a kept
  -- connection and failed with an error that is worth a retry, and then over a new connection. The
  -- connection of the last answer is kept; a first attempt that fails for good drops it.
  pub exchange-Attempts :
      (kept : Option C) (w : W)
      → let (r, kept', w') = exchange open_new renew attempt kept w in Attempts kept w r kept' w'
  unfolding exchange get
  exchange-Attempts none w = exchange-Attempts_new w (open_new w).0 (open_new w).1 refl
  exchange-Attempts (some c) w =
      settle-Attempts (reused c w) (attempt c w).0 (attempt c w).1 (attempt c w).2 refl

-- ===== src/Bootstrap/Parallel.antt =====
-- Which answer of several resolvers counts.
use dnsproxy_rs.Bootstrap.{first_answer, parallel_lookup}
use dnsproxy_rs.Error.{DohError, bootstrap, all_failed, Result, ok, err, panic}
use dnsproxy_rs.Prelude.{◌≡◌, ◌≢◌, refl, List, [], ◌∷◌, ◌++◌, All, ap}

module _ {A : Type 0} where
  -- a result that the search passes over
  pub data IsPassed : Result (List A) → Type 0 where
    is_failed : (e : DohError) → IsPassed (err e)
    is_empty : IsPassed (ok [])

  -- How the search over results in the order of their arrival ends.
  pub data Finds (rs : List (Result (List A))) : Result (List A) → Type 0 where
    -- the first result that has an address
    found :
        (before after : List (Result (List A))) (ips : List A)
        → rs ≡ before ++ ok ips ∷ after
        → All IsPassed before
        → ips ≢ []
        → Finds rs (ok ips)
    crashed :
        (before after : List (Result (List A)))
        → rs ≡ before ++ panic ∷ after
        → All IsPassed before
        → Finds rs panic
    all_passed : All IsPassed rs → Finds rs (err (bootstrap all_failed))

  Finds-cons :
      (r : Result (List A)) (rs : List (Result (List A))) {out : Result (List A)}
      → IsPassed r
      → Finds rs out
      → Finds (r ∷ rs) out
  Finds-cons r rs p (found before after ips split passed some_ip) =
      found (r ∷ before) after ips (ap (◌∷◌ r) split) (p, passed) some_ip
  Finds-cons r rs p (crashed before after split passed) =
      crashed (r ∷ before) after (ap (◌∷◌ r) split) (p, passed)
  Finds-cons r rs p (all_passed passed) = all_passed (p, passed)

  first_answer-Finds : (rs : List (Result (List A))) → Finds rs (first_answer rs)
  unfolding first_answer
  first_answer-Finds [] = all_passed tt
  first_answer-Finds (ok [] ∷ rs) = Finds-cons (ok []) rs is_empty (first_answer-Finds rs)
  first_answer-Finds (ok (ip ∷ ips) ∷ rs) = found [] rs (ip ∷ ips) refl tt (λ e. cc e)
  first_answer-Finds (err e ∷ rs) = Finds-cons (err e) rs (is_failed e) (first_answer-Finds rs)
  first_answer-Finds (panic ∷ rs) = crashed [] rs refl tt

  -- Of resolvers asked at once, of which there is one at least, the first answer to arrive that has an
  -- address counts, and the lookup fails exactly when there is none.
  pub parallel_lookup-Finds :
      (r : Result (List A)) (rs : List (Result (List A)))
      → Finds (r ∷ rs) (parallel_lookup (r ∷ rs))
  unfolding parallel_lookup
  parallel_lookup-Finds r rs = first_answer-Finds (r ∷ rs)

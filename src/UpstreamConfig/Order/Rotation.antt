-- ===== src/UpstreamConfig/Order/Rotation.antt =====
-- The rotation of the mode `RoundRobin`.
use dnsproxy_rs.Prelude.{
  ℕ, suc, ◌+◌, ◌-◌, ◌%◌, ◌^◌, ◌<◌, ◌≡◌, refl, List, [], ◌∷◌, ◌++◌, arith, take, drop, length,
  get_elem?, get_elem?-append_left, get_elem?-append_right, get_elem?-drop, get_elem?-take,
  length-drop, ◌∙◌, ap, zero, sym,
}
use dnsproxy_rs.Upstream.{Tracked, Latencies}
use dnsproxy_rs.UpstreamConfig.Order.{rotated, next_round, ordered_by}
use dnsproxy_rs.UpstreamConfig.{round_robin, Group}
use native.Mathlib.Nat.{mod-eq_of_lt, mod-eq-sub-mod, mod-lt, mod-add-mod}
use native.Mathlib.Decide.{dec_lt}

module _ {U : Type 0} where
  get_elem?-rotated_at :
      (start : ℕ) (us : List (Tracked U)) (i : ℕ)
      → start < length us
      → i < length us
      → get_elem? (drop start us ++ take start us) i ≡ get_elem? us ((start + i) % length us)
  get_elem?-rotated_at start us i s h = elim (dec_lt (start + i) (length us)) [
    | yes inside ↦
        let e : (start + i) % length us ≡ start + i = mod-eq_of_lt inside in
        rw e (
          get_elem?-append_left (drop start us) (take start us) i
            (omega (arith, length-drop {0} start us))
          ∙ get_elem?-drop start us i)
    | no outside ↦
        let n = length us in
        let j : ℕ = start + i - n in
        let e : (start + i) % n ≡ j = mod-eq-sub-mod (omega arith) ∙ mod-eq_of_lt (omega arith) in
        let at_end : i ≡ length (drop start us) + j = omega (arith, length-drop {0} start us) in
        ap (get_elem? (drop start us ++ take start us)) at_end
        ∙ get_elem?-append_right (drop start us) (take start us) j
        ∙ get_elem?-take start us j (omega arith)
        ∙ ap (get_elem? us) (sym e)
  ]

  get_elem?-rotated :
      (cursor : ℕ) (us : List (Tracked U)) (i : ℕ)
      → i < length us
      → get_elem? (rotated cursor us) i ≡ get_elem? us ((cursor + i) % length us)
  unfolding rotated
  get_elem?-rotated cursor us i h =
      get_elem?-rotated_at (cursor % length us) us i (mod-lt cursor (omega arith)) h
      ∙ ap (get_elem? us) (mod-add-mod cursor (length us) i)

  get_elem?-next_round :
      (g : Group U) (us : List (Tracked U)) (i : ℕ)
      → i < length us
      → (get_elem? (next_round g us).0 i ≡ get_elem? us ((g.round_robin_cursor + i) % length us))
        × ((next_round g us).1
            ≡ record g { round_robin_cursor = (g.round_robin_cursor + 1) % 2 ^ 64 })
  unfolding next_round
  get_elem?-next_round g [] i h = absurd (omega arith)
  get_elem?-next_round g (u ∷ us) i h = (get_elem?-rotated g.round_robin_cursor (u ∷ us) i h, refl)

  module _ (shuffle : List (Tracked U) → List (Tracked U)) (l : Latencies) where
    -- The group after `k` queries.
    unfoldable pub rounds : ℕ → Group U → Group U
    rounds zero g = g
    rounds (suc k) g = rounds k (ordered_by shuffle l round_robin g).1

    ordered_by_round :
        (g : Group U) (i : ℕ)
        → i < length g.upstreams
        → (get_elem? (ordered_by shuffle l round_robin g).0 i
            ≡ get_elem? g.upstreams ((g.round_robin_cursor + i) % length g.upstreams))
          × ((ordered_by shuffle l round_robin g).1
              ≡ record g { round_robin_cursor = (g.round_robin_cursor + 1) % 2 ^ 64 })
    unfolding ordered_by
    ordered_by_round g i h = get_elem?-next_round g g.upstreams i h

    -- In the mode `RoundRobin`, as long as the cursor does not wrap around, query number `k` from
    -- here tries as its upstream number `i` the one at place cursor + k + i of the group, counted
    -- around the end.
    pub rounds-ordered_by :
        (k : ℕ) (g : Group U) (i : ℕ)
        → i < length g.upstreams
        → g.round_robin_cursor + k < 2 ^ 64
        → get_elem? (ordered_by shuffle l round_robin (rounds k g)).0 i
          ≡ get_elem? g.upstreams ((g.round_robin_cursor + k + i) % length g.upstreams)
    unfolding rounds
    rounds-ordered_by zero g i h b =
        (ordered_by_round g i h).0
        ∙ ap (λ x. get_elem? g.upstreams ((x + i) % length g.upstreams)) (omega arith)
    rounds-ordered_by (suc k) g i h b =
        let c = g.round_robin_cursor in
        let g' : Group U = record g { round_robin_cursor = (c + 1) % 2 ^ 64 } in
        let e : (c + 1) % 2 ^ 64 + k ≡ c + suc k = omega arith in
        rw (ordered_by_round g i h).1 (
          rounds-ordered_by k g' i h (omega arith)
          ∙ ap (λ x. get_elem? g.upstreams ((x + i) % length g.upstreams)) e)

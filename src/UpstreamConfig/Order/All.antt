-- ===== src/UpstreamConfig/Order/All.antt =====
-- Whatever the mode and the latencies, each upstream of a group is tried exactly once.
use mathlib.Core.List.Perm
use mathlib.Core.Logic.Or
use mathlib.Core.List.{Mem, not-mem-nil, mem-cons, Perm, perm_append_comm, perm_middle}
use dnsproxy_rs.Prelude.Sort.{sort_by, sort_by-perm, sort_by-IsSorted, IsSorted}
use dnsproxy_rs.Prelude.{
  ℕ, ◌≡◌, ◌≢◌, refl, true, false, List, [], ◌∷◌, ◌++◌, Option, none, some, inl, inr, Bool-cases,
  Option-cases, arith, take, drop, All, take-append-drop, length, ◌%◌, subst, sym,
}
use dnsproxy_rs.Upstream.{Tracked, Latencies, average}
use dnsproxy_rs.UpstreamConfig.Order.{
  option_le, is_some, latency, tested, untested, balanced, rotated, next_round, ordered_by,
}
use dnsproxy_rs.UpstreamConfig.{Mode, ordered, round_robin, load_balance, Group}

module _ {A : Type 0} where
  All-Mem :
      (P : A → Type 0)
      → ((x : A) → IsProp (P x))
      → (xs : List A) → All P xs
      → (x : A) → Mem x xs
      → P x
  All-Mem P prop [] all x m = absurd (not-mem-nil m)
  All-Mem P prop (y ∷ ys) all x m =
      Or.elim (prop x) (mem-cons.0 m) (λ same. subst P (sym same) all.0)
        (λ later. All-Mem P prop ys all.1 x later)

module _ {U : Type 0} where
  rotated-perm : (n : ℕ) (us : List (Tracked U)) → Perm (rotated n us) us
  unfolding rotated
  rotated-perm n us =
      let start = n % length us in
      subst (Perm (drop start us ++ take start us)) (take-append-drop start us)
        (perm_append_comm (drop start us) (take start us))

  next_round-perm :
      (g : Group U) (us : List (Tracked U))
      → g.upstreams ≡ us
      → Perm (next_round g us).0 us × ((next_round g us).1.upstreams ≡ us)
  unfolding next_round
  next_round-perm g [] e = (Perm.refl [], e)
  next_round-perm g (u ∷ us) e = (rotated-perm g.round_robin_cursor (u ∷ us), e)

module _ {U : Type 0} (shuffle : List (Tracked U) → List (Tracked U)) (l : Latencies)
    (shuffled : (us : List (Tracked U)) → Perm (shuffle us) us) where
  tested-perm : (us : List (Tracked U)) → Perm (untested shuffle l us ++ tested shuffle l us) us
  unfolding tested untested
  tested-perm [] = Perm.refl []
  tested-perm (u ∷ us) = elim (Bool-cases (is_some (latency shuffle l u))) [
    | inl measured ↦ rw measured (
        Perm.trans (perm_middle (untested shuffle l us) (tested shuffle l us))
          (Perm.cons u (tested-perm us)))
    | inr fresh ↦ rw fresh (Perm.cons u (tested-perm us))
  ]

  balanced-perm : (us : List (Tracked U)) → Perm (balanced shuffle l us) us
  unfolding balanced
  balanced-perm us =
      Perm.trans
        (Perm.append (shuffled (untested shuffle l us)) (sort_by-perm _ (tested shuffle l us)))
        (tested-perm us)

  -- If shuffle permutes: in every mode, and whatever the cursor and the latencies, a query tries each upstream of the
  -- group as often as the group lists it, and the group keeps its upstreams.
  pub ordered_by-perm :
      (mode : Mode) (g : Group U)
      → Perm (ordered_by shuffle l mode g).0 g.upstreams
        × ((ordered_by shuffle l mode g).1.upstreams ≡ g.upstreams)
  unfolding ordered_by
  ordered_by-perm ordered g = (Perm.refl g.upstreams, refl)
  ordered_by-perm round_robin g = next_round-perm g g.upstreams refl
  ordered_by-perm load_balance g = (balanced-perm g.upstreams, refl)

  untested-fresh :
      (us : List (Tracked U)) → All (λ u. latency shuffle l u ≡ none) (untested shuffle l us)
  unfolding untested
  untested-fresh [] = tt
  untested-fresh (u ∷ us) = elim (Option-cases (latency shuffle l u)) [
    | inl fresh ↦ rw fresh (fresh, untested-fresh us)
    | inr (t, measured) ↦ rw measured (untested-fresh us)
  ]

  tested-measured :
      (us : List (Tracked U)) → All (λ u. latency shuffle l u ≢ none) (tested shuffle l us)
  unfolding tested
  tested-measured [] = tt
  tested-measured (u ∷ us) = elim (Option-cases (latency shuffle l u)) [
    | inl fresh ↦ rw fresh (tested-measured us)
    | inr (t, measured) ↦ rw measured (λ e. cc (e, measured), tested-measured us)
  ]

  -- How the mode `LoadBalance` ranks the upstreams of a group.
  pub record IsBalanced (us ranked : List (Tracked U)) : Type 0 where
    pub fresh : List (Tracked U)
    pub measured : List (Tracked U)
    pub split : ranked ≡ fresh ++ measured
    -- together they are the group's upstreams, each as often as the group lists it
    pub all_ranked : Perm ranked us
    -- the front holds those without an average, in some order
    pub all_fresh : (u : Tracked U) → Mem u fresh → average (l u.id) ≡ none
    -- the back holds the others, by rising average
    pub all_measured : (u : Tracked U) → Mem u measured → average (l u.id) ≢ none
    pub rising : IsSorted (λ u v. option_le (latency shuffle l u) (latency shuffle l v)) measured

  option_le_total : (a b : Option ℕ) → option_le a b ≡ false → option_le b a ≡ true
  option_le_total none b e = cc
  option_le_total (some a) none e = refl
  option_le_total (some a) (some b) e = ground arith

  option_le_trans :
      (a b c : Option ℕ) → option_le a b ≡ true → option_le b c ≡ true → option_le a c ≡ true
  option_le_trans none b c p q = refl
  option_le_trans (some a) none c p q = cc
  option_le_trans (some a) (some b) none p q = cc
  option_le_trans (some a) (some b) (some c) p q = ground arith

  -- If shuffle permutes: `LoadBalance` tries each upstream of the group as often as the group lists
  -- it, first those without an average, in some order, and then the measured ones by rising average.
  pub ordered_by-IsBalanced :
      (g : Group U) → IsBalanced g.upstreams (ordered_by shuffle l load_balance g).0
  unfolding ordered_by balanced
  ordered_by-IsBalanced g = record {
    fresh = shuffle (untested shuffle l g.upstreams);
    measured = sort_by _ (tested shuffle l g.upstreams);
    split = refl;
    all_ranked = balanced-perm g.upstreams;
    all_fresh = λ u m.
        All-Mem _ (λ v. hlevel) (untested shuffle l g.upstreams) (untested-fresh g.upstreams) u
          ((Perm.mem_iff (shuffled (untested shuffle l g.upstreams))).0 m);
    all_measured = λ u m.
        All-Mem _ (λ v. hlevel) (tested shuffle l g.upstreams) (tested-measured g.upstreams) u
          ((Perm.mem_iff (sort_by-perm _ (tested shuffle l g.upstreams))).0 m);
    rising =
        sort_by-IsSorted (λ u v. option_le (latency shuffle l u) (latency shuffle l v))
          (λ u v. option_le_total (latency shuffle l u) (latency shuffle l v))
          (λ u v w.
            option_le_trans (latency shuffle l u) (latency shuffle l v) (latency shuffle l w))
          (tested shuffle l g.upstreams);
  }

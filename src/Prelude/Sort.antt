-- ===== src/Prelude/Sort.antt =====
-- A stable sort, as the standard library's `sort_by_key`: it permutes, and it orders.
use mathlib.Core.List.Perm
use mathlib.Core.List.{Perm, List, [], ◌∷◌}
use mathlib.Core.Bool.{Bool, true, false}
use mathlib.Core.Logic.{◌⊎◌, inl, inr}
use dnsproxy_rs.Prelude.Lists.{All, Any}
use mathlib.Core.Path.{◌≡◌}
use dnsproxy_rs.Prelude.Tests.{Bool-cases, if◌then◌else◌}

module _ {A : Type 0} where
  unfoldable pub insert_by : (A → A → Bool) → A → List A → List A
  insert_by le x [] = x ∷ []
  insert_by le x (y ∷ ys) = if le x y then x ∷ y ∷ ys else y ∷ insert_by le x ys

  unfoldable pub sort_by : (A → A → Bool) → List A → List A
  unfolding insert_by
  sort_by le [] = []
  sort_by le (x ∷ xs) = insert_by le x (sort_by le xs)

module _ {A : Type 0} (le : A → A → Bool) where
  insert_by-perm : (x : A) (ys : List A) → Perm (insert_by le x ys) (x ∷ ys)
  unfolding insert_by
  insert_by-perm x [] = Perm.refl (x ∷ [])
  insert_by-perm x (y ∷ ys) = elim (Bool-cases (le x y)) [
    | inl before ↦ rw before (Perm.refl (x ∷ y ∷ ys))
    | inr after ↦ rw after (Perm.trans (Perm.cons y (insert_by-perm x ys)) (Perm.swap x y ys))
  ]

  pub sort_by-perm : (xs : List A) → Perm (sort_by le xs) xs
  unfolding sort_by
  sort_by-perm [] = Perm.refl []
  sort_by-perm (x ∷ xs) =
      Perm.trans (insert_by-perm x (sort_by le xs)) (Perm.cons x (sort_by-perm xs))

  All-insert_by :
      (P : A → Type 0) (x : A) (ys : List A) → All P (insert_by le x ys) → P x × All P ys
  unfolding insert_by
  All-insert_by P x [] all = all
  All-insert_by P x (y ∷ ys) all = elim (Bool-cases (le x y)) [
    | inl before ↦ rw before at all
    | inr after ↦
        let apart : P y × All P (insert_by le x ys) = rw after at all in
        let later = All-insert_by P x ys apart.1 in (later.0, (apart.0, later.1))
  ]

  pub All-sort_by : (P : A → Type 0) (xs : List A) → All P (sort_by le xs) → All P xs
  unfolding sort_by
  All-sort_by P [] all = tt
  All-sort_by P (x ∷ xs) all =
      let later = All-insert_by P x (sort_by le xs) all in (later.0, All-sort_by P xs later.1)

  Any-insert_by :
      (P : A → Type 0) (x : A) (ys : List A) → Any P (insert_by le x ys) → P x ⊎ Any P ys
  unfolding insert_by
  Any-insert_by P x [] any = any
  Any-insert_by P x (y ∷ ys) any = elim (Bool-cases (le x y)) [
    | inl before ↦ rw before at any
    | inr after ↦
        let apart : P y ⊎ Any P (insert_by le x ys) = rw after at any in
        elim apart [
          | inl here ↦ inr (inl here)
          | inr there ↦ elim (Any-insert_by P x ys there) [
            | inl first ↦ inl first
            | inr later ↦ inr (inr later)
          ]
        ]
  ]

  pub Any-sort_by : (P : A → Type 0) (xs : List A) → Any P (sort_by le xs) → Any P xs
  unfolding sort_by
  Any-sort_by P [] any = any
  Any-sort_by P (x ∷ xs) any = elim (Any-insert_by P x (sort_by le xs) any) [
    | inl first ↦ inl first
    | inr later ↦ inr (Any-sort_by P xs later)
  ]

  -- each element before all that follow
  abbrev pub First : A → List A → Type 0
  First x [] = Unit
  First x (y ∷ ys) = (le x y ≡ true) × First x ys

  abbrev pub IsSorted : List A → Type 0
  IsSorted [] = Unit
  IsSorted (x ∷ xs) = First x xs × IsSorted xs

  module _ (total : (x y : A) → le x y ≡ false → le y x ≡ true)
      (trans : (x y z : A) → le x y ≡ true → le y z ≡ true → le x z ≡ true) where
    First-trans : (x y : A) (zs : List A) → le x y ≡ true → First y zs → First x zs
    First-trans x y [] p f = tt
    First-trans x y (z ∷ zs) p f = (trans x y z p f.0, First-trans x y zs p f.1)

    First-insert_by :
        (x y : A) (ys : List A) → le y x ≡ true → First y ys → First y (insert_by le x ys)
    unfolding insert_by
    First-insert_by x y [] p f = (p, tt)
    First-insert_by x y (z ∷ zs) p f = elim (Bool-cases (le x z)) [
      | inl before ↦ rw before (p, f)
      | inr after ↦ rw after (f.0, First-insert_by x y zs p f.1)
    ]

    insert_by-IsSorted : (x : A) (ys : List A) → IsSorted ys → IsSorted (insert_by le x ys)
    unfolding insert_by
    insert_by-IsSorted x [] s = (tt, tt)
    insert_by-IsSorted x (y ∷ ys) s = elim (Bool-cases (le x y)) [
      | inl before ↦ rw before ((before, First-trans x y ys before s.0), s)
      | inr after ↦
          rw after (First-insert_by x y ys (total x y after) s.0, insert_by-IsSorted x ys s.1)
    ]

    pub sort_by-IsSorted : (xs : List A) → IsSorted (sort_by le xs)
    unfolding sort_by
    sort_by-IsSorted [] = tt
    sort_by-IsSorted (x ∷ xs) = insert_by-IsSorted x (sort_by le xs) (sort_by-IsSorted xs)

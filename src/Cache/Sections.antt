-- ===== src/Cache/Sections.antt =====
-- The records of the three sections that are not OPT, apart from how `cacheable_records` finds them.
use dnsproxy_rs.Cache.{is_cacheable, cacheable, cacheable_records}
use dnsproxy_rs.Dns.{Hickory, Message, Record, opt}
use dnsproxy_rs.Prelude.{
  ◌≡◌, ◌≢◌, ◌⊎◌, refl, inl, inr, Bool-cases, List, [], ◌∷◌, ◌++◌, ◌∙◌, ap, subst, arith, All, Any,
}

module _ {A : Type 0} where
  All-append : (P : A → Type 0) (xs ys : List A) → All P (xs ++ ys) → All P xs × All P ys
  All-append P [] ys all = (tt, all)
  All-append P (x ∷ xs) ys all =
      let (front, back) = All-append P xs ys all.1 in ((all.0, front), back)

  Any-append : (P : A → Type 0) (xs ys : List A) → Any P (xs ++ ys) → Any P xs ⊎ Any P ys
  Any-append P [] ys any = inr any
  Any-append P (x ∷ xs) ys (inl here) = inl (inl here)
  Any-append P (x ∷ xs) ys (inr there) = elim (Any-append P xs ys there) [
    | inl front ↦ inl (inr front)
    | inr back ↦ inr back
  ]

module _ {h : Hickory} where
  -- Each record of the three sections that is not OPT has the property.
  abbrev pub EachRecord : (Record h → Type 0) → Message h → Type 0
  EachRecord P resp =
      All (λ r. r.record_type ≢ opt → P r) resp.answers
      × All (λ r. r.record_type ≢ opt → P r) resp.authorities
      × All (λ r. r.record_type ≢ opt → P r) resp.additionals

  -- Some record of the three sections is not OPT and has the property.
  abbrev pub SomeRecord : (Record h → Type 0) → Message h → Type 0
  SomeRecord P resp =
      Any (λ r. (r.record_type ≢ opt) × P r) resp.answers
      ⊎ Any (λ r. (r.record_type ≢ opt) × P r) resp.authorities
      ⊎ Any (λ r. (r.record_type ≢ opt) × P r) resp.additionals

  All-cacheable :
      (P : Record h → Type 0) (rs : List (Record h))
      → All P (cacheable rs)
      → All (λ r. r.record_type ≢ opt → P r) rs
  unfolding cacheable
  All-cacheable P [] all = tt
  All-cacheable P (r ∷ rs) all = elim (Bool-cases (is_cacheable r)) [
    | inl counts ↦ let kept = rw counts at all in (λ not_opt. kept.0, All-cacheable P rs kept.1)
    | inr is_opt ↦
        (λ not_opt. absurd (ground (arith, not_opt, is_opt)), All-cacheable P rs (rw is_opt at all))
  ]

  Any-cacheable :
      (P : Record h → Type 0) (rs : List (Record h))
      → Any P (cacheable rs)
      → Any (λ r. (r.record_type ≢ opt) × P r) rs
  unfolding cacheable
  Any-cacheable P [] any = any
  Any-cacheable P (r ∷ rs) any = elim (Bool-cases (is_cacheable r)) [
    | inl counts ↦
        let kept : Any P (r ∷ cacheable rs) = rw counts at any in
        elim kept [
          | inl here ↦ inl (λ is_opt. ground (arith, is_opt, counts), here)
          | inr there ↦ inr (Any-cacheable P rs there)
        ]
    | inr is_opt ↦ inr (Any-cacheable P rs (rw is_opt at any))
  ]

  cacheable-append :
      (rs rs' : List (Record h)) → cacheable (rs ++ rs') ≡ cacheable rs ++ cacheable rs'
  unfolding cacheable
  cacheable-append [] rs' = refl
  cacheable-append (r ∷ rs) rs' = elim (Bool-cases (is_cacheable r)) [
    | inl counts ↦ rw counts (ap (◌∷◌ r) (cacheable-append rs rs'))
    | inr is_opt ↦ rw is_opt (cacheable-append rs rs')
  ]

  cacheable_records-sections :
      (resp : Message h)
      → cacheable_records resp
        ≡ cacheable resp.answers ++ (cacheable resp.authorities ++ cacheable resp.additionals)
  unfolding cacheable_records
  cacheable_records-sections resp =
      cacheable-append resp.answers (resp.authorities ++ resp.additionals)
      ∙ ap (◌++◌ (cacheable resp.answers)) (cacheable-append resp.authorities resp.additionals)

  pub EachRecord-cacheable :
      (P : Record h → Type 0) (resp : Message h)
      → All P (cacheable_records resp)
      → EachRecord P resp
  EachRecord-cacheable P resp all =
      let split = subst (All P) (cacheable_records-sections resp) all in
      let (first, others) = All-append P (cacheable resp.answers) _ split in
      let (second_part, third) = All-append P (cacheable resp.authorities) _ others in
      (
        All-cacheable P resp.answers first,
        All-cacheable P resp.authorities second_part,
        All-cacheable P resp.additionals third,
      )

  pub SomeRecord-cacheable :
      (P : Record h → Type 0) (resp : Message h)
      → Any P (cacheable_records resp)
      → SomeRecord P resp
  SomeRecord-cacheable P resp any =
      let split = subst (Any P) (cacheable_records-sections resp) any in
      elim (Any-append P (cacheable resp.answers) _ split) [
        | inl first ↦ inl (Any-cacheable P resp.answers first)
        | inr others ↦ elim (Any-append P (cacheable resp.authorities) _ others) [
          | inl next ↦ inr (inl (Any-cacheable P resp.authorities next))
          | inr last ↦ inr (inr (Any-cacheable P resp.additionals last))
        ]
      ]

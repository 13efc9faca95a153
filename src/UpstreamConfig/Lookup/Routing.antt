-- ===== src/UpstreamConfig/Lookup/Routing.antt =====
-- Which group `group_for` returns, said without the search: the rule of the longest domain of the
-- name that has one.
use dnsproxy_rs.Prelude.Text.{Text, to_ascii_lowercase}
use dnsproxy_rs.Prelude.{
  ℕ, true, false, ◌<◌, ◌≡◌, refl, ◌≢◌, ◌⊎◌, inl, inr, List, [], ◌∷◌, ◌++◌, none, some, ◌==◌, length,
  arith, Bool-cases, Option-cases, ap, sym, subst, length-append,
}
use dnsproxy_rs.UpstreamConfig.Lookup.Specific.{ancestors, first_rule, rule_for-first_rule}
use dnsproxy_rs.UpstreamConfig.Lookup.{Search, found, unmatched, stuck, or_default, group_for}
use dnsproxy_rs.UpstreamConfig.{Group, Map, lookup, Config}

-- `d` is `s`, or stands behind one of its dots and is not empty.
pub data IsDomainOf (s d : Text) : Type 0 where
  itself : d ≡ s → IsDomainOf s d
  above : (label : Text) → s ≡ label ++ b'.' ∷ d → d ≢ [] → IsDomainOf s d

-- The group for the name `s`.
pub data Routes {U : Type 0} (rules : Map (Group U)) (fallback : Group U) (s : Text)
    : Group U → Type 0 where
  -- the rule of a domain of `s`, where no longer domain of `s` has a rule
  rule :
      (d : Text) {g : Group U}
      → IsDomainOf s d
      → lookup d rules ≡ some g
      → ((d' : Text) → IsDomainOf s d' → length d < length d' → lookup d' rules ≡ none)
      → Routes rules fallback s g
  -- the default group, where no domain of `s` has a rule
  no_rule :
      {g : Group U}
      → g ≡ fallback
      → ((d' : Text) → IsDomainOf s d' → lookup d' rules ≡ none)
      → Routes rules fallback s g

abbrev In : Text → List Text → Type 0
In d [] = ⊥
In d (x ∷ xs) = (d ≡ x) ⊎ In d xs

-- a character in front keeps a domain
IsDomainOf-cons :
    (c : ℕ) (s d : Text)
    → (label : Text) × (s ≡ label ++ b'.' ∷ d)
    → (label : Text) × (c ∷ s ≡ label ++ b'.' ∷ d)
IsDomainOf-cons c s d (label, e) = (c ∷ label, ap (◌∷◌ c) e)

ancestors_dot :
    (c x : ℕ) (cs : Text)
    → (c == b'.') ≡ true
    → ancestors (c ∷ x ∷ cs) ≡ (x ∷ cs) ∷ ancestors (x ∷ cs)
ancestors_dot c x cs e = rw e

ancestors_other :
    (c x : ℕ) (cs : Text) → (c == b'.') ≡ false → ancestors (c ∷ x ∷ cs) ≡ ancestors (x ∷ cs)
ancestors_other c x cs e = rw e

In-ancestors :
    (s d : Text) → In d (ancestors s) → ((label : Text) × (s ≡ label ++ b'.' ∷ d)) × (d ≢ [])
In-ancestors [] d i = absurd i
In-ancestors (c ∷ []) d i = absurd i
In-ancestors (c ∷ x ∷ cs) d i = elim (Bool-cases (c == b'.')) [
  | inl dot ↦ elim (subst (In d) (ancestors_dot c x cs dot) i) [
    | inl e ↦ (([], ground arith), λ empty. cc (e, empty))
    | inr higher ↦
        let (split, ne) = In-ancestors (x ∷ cs) d higher in (IsDomainOf-cons c (x ∷ cs) d split, ne)
  ]
  | inr other ↦
      let (split, ne) = In-ancestors (x ∷ cs) d (subst (In d) (ancestors_other c x cs other) i) in
      (IsDomainOf-cons c (x ∷ cs) d split, ne)
]

In-cons : (c x : ℕ) (cs d : Text) → In d (ancestors (x ∷ cs)) → In d (ancestors (c ∷ x ∷ cs))
In-cons c x cs d i = elim (Bool-cases (c == b'.')) [
  | inl dot ↦ subst (In d) (sym (ancestors_dot c x cs dot)) (inr i)
  | inr other ↦ subst (In d) (sym (ancestors_other c x cs other)) i
]

ancestors-In : (s label d : Text) → s ≡ label ++ b'.' ∷ d → d ≢ [] → In d (ancestors s)
ancestors-In [] [] d e ne = absurd (cc e)
ancestors-In [] (l ∷ label) d e ne = absurd (cc e)
ancestors-In (c ∷ []) [] d e ne = absurd (ne (cc e))
ancestors-In (c ∷ []) (l ∷ label) d e ne = ancestors-In [] label d (cc e) ne
ancestors-In (c ∷ x ∷ cs) [] d e ne =
    subst (In d) (sym (ancestors_dot c x cs (ground arith))) (inl (cc e))
ancestors-In (c ∷ x ∷ cs) (l ∷ label) d e ne =
    In-cons c x cs d (ancestors-In (x ∷ cs) label d (cc e) ne)

In-length : (s d : Text) → In d (ancestors s) → length d < length s
In-length s d i =
    let ((label, e), ne) = In-ancestors s d i in
    omega (arith, ap length e, length-append {0} label (b'.' ∷ d))

-- longest first
abbrev Descends : List Text → Type 0
Descends [] = Unit
Descends (x ∷ xs) = ((d : Text) → In d xs → length d < length x) × Descends xs

ancestors-Descends : (s : Text) → Descends (ancestors s)
ancestors-Descends [] = tt
ancestors-Descends (c ∷ []) = tt
ancestors-Descends (c ∷ x ∷ cs) = elim (Bool-cases (c == b'.')) [
  | inl dot ↦
      subst Descends (sym (ancestors_dot c x cs dot))
        (In-length (x ∷ cs), ancestors-Descends (x ∷ cs))
  | inr other ↦ subst Descends (sym (ancestors_other c x cs other)) (ancestors-Descends (x ∷ cs))
]

module _ {U : Type 0} (rules : Map (Group U)) (fallback : Group U) where
  -- What the first rule along a list is.
  abbrev Chosen : List Text → Search (Group U) → Type 0
  Chosen ds (found d g) =
      In d ds
      × (lookup d rules ≡ some g)
      × ((d' : Text) → In d' ds → length d < length d' → lookup d' rules ≡ none)
  Chosen ds unmatched = (d' : Text) → In d' ds → lookup d' rules ≡ none
  Chosen ds stuck = ⊥

  Chosen-cons :
      (x : Text) (xs : List Text) (r : Search (Group U))
      → lookup x rules ≡ none
      → Chosen xs r
      → Chosen (x ∷ xs) r
  Chosen-cons x xs (found d g) miss (i, has, longer) =
      (inr i, has, λ d' j less. elim j [ inl e ↦ rw e miss | inr k ↦ longer d' k less ])
  Chosen-cons x xs unmatched miss none_else =
      λ d' j. elim j [ inl e ↦ rw e miss | inr k ↦ none_else d' k ]
  Chosen-cons x xs stuck miss c = c

  first_rule_miss :
      (x : Text) (xs : List Text)
      → lookup x rules ≡ none
      → first_rule rules (x ∷ xs) ≡ first_rule rules xs
  unfolding first_rule
  first_rule_miss x xs miss = rw (miss, first_rule)

  first_rule_hit :
      (x : Text) (xs : List Text) {g : Group U}
      → lookup x rules ≡ some g
      → first_rule rules (x ∷ xs) ≡ found x g
  unfolding first_rule
  first_rule_hit x xs hit = rw (hit, first_rule)

  first_rule-Chosen : (ds : List Text) → Descends ds → Chosen ds (first_rule rules ds)
  unfolding first_rule
  first_rule-Chosen [] desc = λ d' i. absurd i
  first_rule-Chosen (x ∷ xs) desc = elim (Option-cases (lookup x rules)) [
    | inl miss ↦
        subst (Chosen (x ∷ xs)) (sym (first_rule_miss x xs miss))
          (Chosen-cons x xs (first_rule rules xs) miss (first_rule-Chosen xs desc.1))
    | inr (g, hit) ↦ subst (Chosen (x ∷ xs)) (sym (first_rule_hit x xs hit)) (
      inl refl,
      hit,
      λ d' j less. elim j [
        | inl e ↦ absurd (let same = ap length e in omega arith)
        | inr k ↦ absurd (let shorter = desc.0 d' k in omega arith)
      ],
    )
  ]

  domain-In : (s d : Text) → IsDomainOf s d → In d (s ∷ ancestors s)
  domain-In s d (itself e) = inl e
  domain-In s d (above label e ne) = inr (ancestors-In s label d e ne)

  In-domain : (s d : Text) → In d (s ∷ ancestors s) → IsDomainOf s d
  In-domain s d (inl e) = itself e
  In-domain s d (inr i) = let ((label, e), ne) = In-ancestors s d i in above label e ne

  Chosen-Routes :
      (s : Text) (r : Search (Group U))
      → Chosen (s ∷ ancestors s) r
      → Routes rules fallback s (or_default r fallback)
  Chosen-Routes s (found d g) (i, has, longer) =
      rule d (In-domain s d i) has (λ d' above_it. longer d' (domain-In s d' above_it))
  Chosen-Routes s unmatched none_else = no_rule refl (λ d' i. none_else d' (domain-In s d' i))
  Chosen-Routes s stuck c = absurd c

-- For every configuration and name, `group_for` ends and returns the group of the longest domain of
-- the lowercased name that has a rule, and the default group if no domain of it has one.
pub group_for-Routes :
    {U : Type 0} (c : Config U) (fqdn : Text)
    → Routes c.domain_upstreams c.default_upstreams (to_ascii_lowercase fqdn) (group_for c fqdn)
unfolding group_for
group_for-Routes c fqdn =
    let lower = to_ascii_lowercase fqdn in
    let descends : Descends (lower ∷ ancestors lower) =
      (In-length lower, ancestors-Descends lower) in
    rw (rule_for-first_rule c.domain_upstreams fqdn) (
      Chosen-Routes c.domain_upstreams c.default_upstreams lower _
        (first_rule-Chosen c.domain_upstreams c.default_upstreams _ descends))

-- ===== src/UpstreamConfig/Lookup/Specific.antt =====
-- The search through the rules takes the most specific one, and ends.
use dnsproxy_rs.Prelude.Text.{Text, split_once_char, to_ascii_lowercase, before}
use dnsproxy_rs.Prelude.{
  ℕ, zero, suc, ◌<◌, ◌≡◌, ◌≢◌, refl, inl, inr, true, false, List, [], ◌∷◌, Option, none, some, ◌==◌,
  if◌then◌else◌, length, arith, Bool-cases, Option-cases, sym, subst,
}
use dnsproxy_rs.UpstreamConfig.Lookup.{
  Search, found, unmatched, stuck, parent, search_rules, rule_for,
}
use dnsproxy_rs.UpstreamConfig.{Map, lookup}

-- The domains above `s`, the longest first: what stands behind each dot, where that is not empty.
abbrev pub ancestors : Text → List Text
ancestors [] = []
ancestors (c ∷ []) = []
ancestors (c ∷ d ∷ cs) = if c == b'.' then (d ∷ cs) ∷ ancestors (d ∷ cs) else ancestors (d ∷ cs)

parent-before : (c : ℕ) (o : Option (Text × Text)) → parent (before c o) ≡ parent o
unfolding parent
parent-before c none = refl
parent-before c (some (a, [])) = refl
parent-before c (some (a, x ∷ b)) = refl

-- What the next step of the loop tells of the ancestors.
abbrev Ancestry : Text → Option Text → Type 0
Ancestry s none = ancestors s ≡ []
Ancestry s (some r) = (ancestors s ≡ r ∷ ancestors r) × (length r < length s)

Ancestry-cons :
    (c d : ℕ) (cs : Text) (o : Option Text)
    → (c == b'.') ≡ false
    → Ancestry (d ∷ cs) o
    → Ancestry (c ∷ d ∷ cs) o
Ancestry-cons c d cs none e a = ground arith
Ancestry-cons c d cs (some r) e a = (ground arith, omega arith)

split-cons :
    (c : ℕ) (cs : Text)
    → (c == b'.') ≡ false
    → parent (split_once_char b'.' (c ∷ cs)) ≡ parent (split_once_char b'.' cs)
unfolding split_once_char
split-cons c cs e = rw e (parent-before c (split_once_char b'.' cs))

split-dot :
    (c d : ℕ) (cs : Text)
    → (c == b'.') ≡ true
    → parent (split_once_char b'.' (c ∷ d ∷ cs)) ≡ some (d ∷ cs)
unfolding split_once_char parent
split-dot c d cs e = rw e

split-last : (c : ℕ) → parent (split_once_char b'.' (c ∷ [])) ≡ none
unfolding split_once_char parent
split-last c = ground arith

parent-Ancestry : (s : Text) → Ancestry s (parent (split_once_char b'.' s))
unfolding parent split_once_char
parent-Ancestry [] = refl
parent-Ancestry (c ∷ []) = subst (Ancestry (c ∷ [])) (sym (split-last c)) refl
parent-Ancestry (c ∷ d ∷ cs) = elim (Bool-cases (c == b'.')) [
  | inl dot ↦ subst (Ancestry (c ∷ d ∷ cs)) (sym (split-dot c d cs dot)) (ground arith, omega arith)
  | inr other ↦
      subst (Ancestry (c ∷ d ∷ cs)) (sym (split-cons c (d ∷ cs) other))
        (Ancestry-cons c d cs _ other (parent-Ancestry (d ∷ cs)))
]

module _ {V : Type 0} where
  -- The specification: the first of the domains that has a rule.
  unfoldable pub first_rule : Map V → List Text → Search V
  first_rule rules [] = unmatched
  first_rule rules (d ∷ ds) = elim (lookup d rules) [
    | some v ↦ found d v
    | none ↦ first_rule rules ds
  ]

  search_rules-first_rule :
      (fuel : ℕ) (rules : Map V) (s : Text)
      → length s < fuel
      → search_rules fuel rules s ≡ first_rule rules (s ∷ ancestors s)
  unfolding search_rules first_rule
  search_rules-first_rule zero rules s h = absurd (omega arith)
  search_rules-first_rule (suc fuel) rules s h = elim (Option-cases (lookup s rules)) [
    | inr (v, rule) ↦ rw (rule, search_rules, first_rule)
    | inl miss ↦ elim (Option-cases (parent (split_once_char b'.' s))) [
      | inl top ↦
          let alone : ancestors s ≡ [] = rw top at (parent-Ancestry s) in
          rw (miss, search_rules, first_rule, top, alone)
      | inr (r, up) ↦
          let above : (ancestors s ≡ r ∷ ancestors r) × (length r < length s) =
            rw up at (parent-Ancestry s) in
          rw (miss, search_rules, first_rule, up, above.0)
            (search_rules-first_rule fuel rules r (omega arith))
    ]
  ]

  first_rule-nil : (ds : List Text) → first_rule [] ds ≡ unmatched
  unfolding first_rule lookup
  first_rule-nil [] = refl
  first_rule-nil (d ∷ ds) = first_rule-nil ds

  -- The search takes the first rule on the way up from the lowercased name.
  pub rule_for-first_rule :
      (rules : Map V) (fqdn : Text)
      → let lower = to_ascii_lowercase fqdn in
        rule_for rules fqdn ≡ first_rule rules (lower ∷ ancestors lower)
  unfolding rule_for
  rule_for-first_rule [] fqdn =
      sym (first_rule-nil (to_ascii_lowercase fqdn ∷ ancestors (to_ascii_lowercase fqdn)))
  rule_for-first_rule (r ∷ rules) fqdn =
      let lower = to_ascii_lowercase fqdn in
      search_rules-first_rule (suc (length lower)) (r ∷ rules) lower (omega arith)

  first_rule-ne-stuck : (rules : Map V) (ds : List Text) → first_rule rules ds ≢ stuck
  unfolding first_rule
  first_rule-ne-stuck rules [] = λ e. cc e
  first_rule-ne-stuck rules (d ∷ ds) = elim (Option-cases (lookup d rules)) [
    | inl miss ↦ rw (miss, first_rule) (first_rule-ne-stuck rules ds)
    | inr (v, hit) ↦ rw (hit, first_rule) (λ e. cc e)
  ]

  -- The search always ends: its fuel is enough for every name.
  pub rule_for-ne-stuck : (rules : Map V) (fqdn : Text) → rule_for rules fqdn ≢ stuck
  rule_for-ne-stuck rules fqdn = rw (rule_for-first_rule rules fqdn) (first_rule-ne-stuck rules _)

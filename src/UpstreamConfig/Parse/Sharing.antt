-- ===== src/UpstreamConfig/Parse/Sharing.antt =====
-- The refinement theorem of the upstream list: what an accepted configuration holds.
use dnsproxy_rs.Prelude.Text.{Text, text_eq, text_eq_iff, trim}
use dnsproxy_rs.Prelude.{
  ℕ, ◌+◌, ◌<◌, ◌≡◌, refl, ◌⊎◌, List, [], ◌∷◌, ◌++◌, Option, some, arith, Bool-cases, Option-cases,
  inl, inr, sym, ◌∙◌, ap, All,
}
use dnsproxy_rs.Upstream.{Tracked}
use dnsproxy_rs.UpstreamConfig.Line.{Split, parts, refused, split_config_line}
use dnsproxy_rs.UpstreamConfig.Maps.{lookup-change}
use dnsproxy_rs.UpstreamConfig.Parse.Errors.{
  register-index, add_upstream_new, add_upstream_old, all_errors, add_lines-Reports,
}
use dnsproxy_rs.UpstreamConfig.Parse.Groups.{
  Target, default, domain, group_of, group_at, all_texts, assigned,
}
use dnsproxy_rs.UpstreamConfig.Parse.Known.{Known, add_lines-Known, IsBuilt, all_texts-IsBuilt}
use dnsproxy_rs.UpstreamConfig.Parse.Refinement.{add_lines-Files, Builds}
use dnsproxy_rs.UpstreamConfig.Parse.{
  Parsed, built, failed, ConfigError, State, config, is_skipped, start, register, build,
  add_upstream, add_upstreams, add_split, add_line, add_lines, finish, parse_with_mode,
}
use dnsproxy_rs.UpstreamConfig.{Mode, lookup, change, Config}

module _ {E U : Type 0} (parse_any_upstream : Text → Parsed E U) where
  -- Equal allocations have equal texts, and new ones get a new number.
  record IsNumbered (s : State E U) : Type 0 where
    below : (u : Text) (t : Tracked U) → lookup u s.upstream_index ≡ some t → t.id < s.next
    distinct :
        (u v : Text) (t w : Tracked U)
        → lookup u s.upstream_index ≡ some t
        → lookup v s.upstream_index ≡ some w
        → t.id ≡ w.id
        → u ≡ v

  register-next : (ds : List Text) (t : Tracked U) (s : State E U) → (register ds t s).next ≡ s.next
  unfolding register
  register-next [] t s = refl
  register-next (d ∷ ds) t s = refl

  -- only the index and the counter matter
  IsNumbered-same :
      (s s' : State E U)
      → s'.upstream_index ≡ s.upstream_index
      → s'.next ≡ s.next
      → IsNumbered s
      → IsNumbered s'
  IsNumbered-same s s' same_index same_next n = record {
    below = λ u t e. rw same_next (n.below u t (ap (lookup u) (sym same_index) ∙ e));
    distinct = λ u v t w e e'.
        n.distinct u v t w (ap (lookup u) (sym same_index) ∙ e)
          (ap (lookup v) (sym same_index) ∙ e');
  }

  -- what a lookup after the insertion of `u` finds
  lookup_new :
      (s : State E U) (u v : Text) (b w : Tracked U)
      → lookup v (change u b (λ _. b) s.upstream_index) ≡ some w
      → ((v ≡ u) × (w ≡ b)) ⊎ (lookup v s.upstream_index ≡ some w)
  lookup_new s u v b w e =
      let split = sym (lookup-change u v b (λ _. b) s.upstream_index) ∙ e in
      elim (Bool-cases (text_eq u v)) [
        | inl same ↦
            let new : some b ≡ some w = rw same at split in
            inl (sym ((text_eq_iff u v).0 same), cc new)
        | inr other ↦ inr (rw other at split)
      ]

  IsNumbered-new :
      (s s' : State E U) (u : Text) (b : U)
      → s'.upstream_index
        ≡ change u
            (record { id = s.next; upstream = b })
            (λ _. record { id = s.next; upstream = b })
            s.upstream_index
      → s'.next ≡ s.next + 1
      → IsNumbered s
      → IsNumbered s'
  IsNumbered-new s s' u b same_index same_next n = record {
    below = λ v w e. elim (lookup_new s u v t w (found v e)) [
      | inl (_, is_new) ↦ rw (is_new, same_next) (omega arith)
      | inr old ↦ let less = n.below v w old in rw same_next (omega arith)
    ];
    distinct = λ v v' w w' e e' ids. elim (lookup_new s u v t w (found v e)) [
      | inl (p, new) ↦ elim (lookup_new s u v' t w' (found v' e')) [
        | inl (p', new') ↦ p ∙ sym p'
        | inr old' ↦ absurd (
            let less = n.below v' w' old' in
            let same : s.next ≡ w'.id = ap (λ x. x.id) (sym new) ∙ ids in omega arith)
      ]
      | inr old ↦ elim (lookup_new s u v' t w' (found v' e')) [
        | inl (p', new') ↦ absurd (
            let less = n.below v w old in
            let same : w.id ≡ s.next = ids ∙ ap (λ x. x.id) new' in omega arith)
        | inr old' ↦ n.distinct v v' w w' old old' ids
      ]
    ];
  }
    where
      t : Tracked U
      t = record { id = s.next; upstream = b }

      found :
          (v : Text) {w : Tracked U}
          → lookup v s'.upstream_index ≡ some w
          → lookup v (change u t (λ _. t) s.upstream_index) ≡ some w
      found v e = ap (lookup v) (sym same_index) ∙ e

  build-IsNumbered :
      (idx : ℕ) (ds : List Text) (u : Text) (p : Parsed E U) (s : State E U)
      → IsNumbered s
      → IsNumbered (build parse_any_upstream idx ds u p s)
  unfolding build
  build-IsNumbered idx ds u (failed e) s n = IsNumbered-same s _ refl refl n
  build-IsNumbered idx ds u (built b) s n =
      IsNumbered-new s _ u b (register-index parse_any_upstream ds _ _) (register-next ds _ _) n

  add_upstream-IsNumbered :
      (idx : ℕ) (ds : List Text) (u : Text) (s : State E U)
      → IsNumbered s
      → IsNumbered (add_upstream parse_any_upstream idx ds u s)
  add_upstream-IsNumbered idx ds u s n = elim (Option-cases (lookup u s.upstream_index)) [
    | inl new ↦
        rw (add_upstream_new parse_any_upstream idx ds u s new)
          (build-IsNumbered idx ds u (parse_any_upstream u) s n)
    | inr (t, old) ↦
        rw (add_upstream_old parse_any_upstream idx ds u s old)
          (IsNumbered-same s _ (register-index parse_any_upstream ds t s) (register-next ds t s) n)
  ]

  add_split-IsNumbered :
      (idx : ℕ) (p : Split) (s : State E U)
      → IsNumbered s
      → IsNumbered (add_split parse_any_upstream idx p s)
  unfolding add_split add_upstreams
  add_split-IsNumbered idx (refused e) s n = IsNumbered-same s _ refl refl n
  add_split-IsNumbered idx (parts [] ds) s n = n
  add_split-IsNumbered idx (parts (u ∷ us) ds) s n =
      add_split-IsNumbered idx (parts us ds) (add_upstream parse_any_upstream idx ds u s)
        (add_upstream-IsNumbered idx ds u s n)

  add_lines-IsNumbered :
      (idx : ℕ) (ls : List Text) (s : State E U)
      → IsNumbered s
      → IsNumbered (add_lines parse_any_upstream idx ls s)
  unfolding add_lines add_line
  add_lines-IsNumbered idx [] s n = n
  add_lines-IsNumbered idx (l ∷ ls) s n = elim (Bool-cases (is_skipped (trim l))) [
    | inl skipped ↦ rw skipped (add_lines-IsNumbered (idx + 1) ls s n)
    | inr kept ↦ rw kept (
        add_lines-IsNumbered (idx + 1) ls _
          (add_split-IsNumbered idx (split_config_line (trim l)) s n))
  ]

  -- What an accepted list of lines becomes.
  pub record Accepted (ls : List Text) (mode : Mode) (c : Config U) : Type 0 where
    pub same_mode : c.mode ≡ mode
    -- the upstream of each text, built from it
    pub assign : Text → Option (Tracked U)
    pub builds : Builds parse_any_upstream assign
    -- different texts have different allocations
    pub distinct :
        (u v : Text) (t w : Tracked U) → assign u ≡ some t → assign v ≡ some w → t.id ≡ w.id → u ≡ v
    -- each group holds the upstreams of its texts, in order
    pub groups :
        (g : Target)
        → group_at g c.domain_upstreams c.default_upstreams
          ≡ assigned parse_any_upstream assign (all_texts parse_any_upstream g ls)
    -- and no text of it is left out
    pub complete :
        (g : Target)
        → All (λ u. (t : Tracked U) × (assign u ≡ some t)) (all_texts parse_any_upstream g ls)

  finish-config :
      (mode : Mode) (s : State E U) (found : List (ℕ × ConfigError E)) {c : Config U}
      → finish parse_any_upstream mode s found ≡ config c
      → (found ≡ [])
        × (record {
          domain_upstreams = s.domain_upstreams;
          default_upstreams = s.default_upstreams;
          mode = mode;
        }
            ≡ c)
  unfolding finish
  finish-config mode s [] e = (refl, cc e)
  finish-config mode s (x ∷ xs) e = cc

  group_start :
      (g : Target) (us : List (Tracked U)) → group_of parse_any_upstream g start ++ us ≡ us
  unfolding lookup
  group_start default us = refl
  group_start (domain k) us = refl

  Known-assigned :
      (s : State E U) (us : List Text)
      → All (Known parse_any_upstream s) us
      → All (IsBuilt parse_any_upstream) us
      → All (λ u. (t : Tracked U) × (lookup u s.upstream_index ≡ some t)) us
  Known-assigned s [] k b = tt
  Known-assigned s (u ∷ us) (inl here, k) b = (here, Known-assigned s us k b.1)
  Known-assigned s (u ∷ us) (inr (e, bad), k) b = absurd (cc (bad, b.0.1))

  -- Every accepted list gives exactly what its lines say: each rule's group, and the default group,
  -- holds the upstreams of the texts that the lines name for it, in order and none left out, and two
  -- texts share an upstream exactly when they are equal.
  pub parse_with_mode-Accepted :
      (ls : List Text) (mode : Mode) {c : Config U}
      → parse_with_mode parse_any_upstream ls mode ≡ config c
      → Accepted ls mode c
  unfolding parse_with_mode
  parse_with_mode-Accepted ls mode {c} e =
      let last = add_lines parse_any_upstream 0 ls start in
      let finished = finish-config mode last last.errors e in
      let reports =
        add_lines-Reports parse_any_upstream 0 ls start (λ u t found. absurd (cc found)) in
      let clean : all_errors parse_any_upstream 0 ls ≡ [] = sym reports.added ∙ finished.0 in
      let files = add_lines-Files parse_any_upstream 0 ls start in
      let numbered = add_lines-IsNumbered 0 ls start (record {
        below = λ u t found. absurd (cc found);
        distinct = λ u v t w found found' ids. absurd (cc found);
      }) in
      record {
        same_mode = ap (λ x. x.mode) (sym finished.1);
        assign = λ u. lookup u last.upstream_index;
        builds = reports.indexed;
        distinct = numbered.distinct;
        groups = λ g.
            ap (λ x. group_at g x.domain_upstreams x.default_upstreams) (sym finished.1)
            ∙ files.filed (λ u. lookup u last.upstream_index) reports.indexed (λ u t found. found) g
            ∙ group_start g (assigned parse_any_upstream _ (all_texts parse_any_upstream g ls));
        complete = λ g.
            Known-assigned last (all_texts parse_any_upstream g ls)
              (add_lines-Known parse_any_upstream 0 g ls start)
              (all_texts-IsBuilt parse_any_upstream 0 g ls clean);
      }

-- ===== src/UpstreamConfig/Parse/Known.antt =====
-- Every text that a line names is in the index afterwards, or is one that cannot be built; and the
-- latter are errors.
use dnsproxy_rs.Prelude.Text.{Text, text_eq, text_eq_iff, trim}
use dnsproxy_rs.Prelude.{
  ℕ, ◌+◌, ◌≡◌, refl, ◌⊎◌, List, [], ◌∷◌, map, some, Bool-cases, Option-cases, inl, inr, ◌∙◌, ap,
  All, All-append, All-mono, append-eq-nil, map-eq-nil,
}
use dnsproxy_rs.Upstream.{Tracked}
use dnsproxy_rs.UpstreamConfig.Line.{Split, parts, refused, split_config_line}
use dnsproxy_rs.UpstreamConfig.Maps.{lookup-change}
use dnsproxy_rs.UpstreamConfig.Parse.Errors.{
  register-index, add_upstream_new, add_upstream_old, upstream_error, upstream_errors, split_errors,
  line_errors, all_errors,
}
use dnsproxy_rs.UpstreamConfig.Parse.Groups.{
  Target, default, domain, copies, upstream_texts, split_texts, line_texts, all_texts,
}
use dnsproxy_rs.UpstreamConfig.Parse.Refinement.{Files, add_upstreams-Files, add_lines-Files}
use dnsproxy_rs.UpstreamConfig.Parse.{
  Parsed, built, failed, State, is_skipped, build, add_upstream, add_upstreams, add_split, add_line,
  add_lines,
}
use dnsproxy_rs.UpstreamConfig.{lookup}

module _ {E U : Type 0} (parse_any_upstream : Text → Parsed E U) where
  abbrev pub Known : State E U → Text → Type 0
  Known s u =
      ((t : Tracked U) × (lookup u s.upstream_index ≡ some t))
      ⊎ ((e : E) × (parse_any_upstream u ≡ failed e))

  All-copies :
      (P : Text → Type 0) (g : Target) (ds : List Text) (u : Text) → P u → All P (copies g ds u)
  All-copies P default [] u p = (p, tt)
  All-copies P default (d ∷ ds) u p = tt
  All-copies P (domain k) [] u p = tt
  All-copies P (domain k) (d ∷ ds) u p = elim (Bool-cases (text_eq d k)) [
    | inl same ↦ rw same (p, All-copies P (domain k) ds u p)
    | inr other ↦ rw other (All-copies P (domain k) ds u p)
  ]

  build-Known :
      (idx : ℕ) (ds : List Text) (u : Text) (p : Parsed E U) (s : State E U)
      → parse_any_upstream u ≡ p
      → Known (build parse_any_upstream idx ds u p s) u
  unfolding build
  build-Known idx ds u (failed e) s p = inr (e, p)
  build-Known idx ds u (built b) s p =
      let t : Tracked U = record { id = s.next; upstream = b } in
      inl (
        t,
        ap (lookup u) (register-index parse_any_upstream ds t _)
            ∙ rw (lookup-change, (text_eq_iff u u).1 refl),
      )

  add_upstream-Known :
      (idx : ℕ) (ds : List Text) (u : Text) (s : State E U)
      → Known (add_upstream parse_any_upstream idx ds u s) u
  add_upstream-Known idx ds u s = elim (Option-cases (lookup u s.upstream_index)) [
    | inl new ↦
        rw (add_upstream_new parse_any_upstream idx ds u s new)
          (build-Known idx ds u (parse_any_upstream u) s refl)
    | inr (t, old) ↦
        rw (add_upstream_old parse_any_upstream idx ds u s old)
          (inl (t, ap (lookup u) (register-index parse_any_upstream ds t s) ∙ old))
  ]

  Known-grows :
      {s s' : State E U} {texts : Target → List Text}
      → Files parse_any_upstream s s' texts
      → (u : Text) → Known s u
      → Known s' u
  Known-grows f u (inl (t, e)) = inl (t, f.grows u t e)
  Known-grows f u (inr r) = inr r

  add_upstreams-Known :
      (idx : ℕ) (g : Target) (ds us : List Text) (s : State E U)
      → All
          (Known (add_upstreams parse_any_upstream idx ds us s))
          (upstream_texts parse_any_upstream g ds us)
  unfolding add_upstreams
  add_upstreams-Known idx g ds [] s = tt
  add_upstreams-Known idx g ds (u ∷ us) s =
      let s' = add_upstream parse_any_upstream idx ds u s in
      let last = add_upstreams parse_any_upstream idx ds us s' in
      All-append (Known last) (copies g ds u) (upstream_texts parse_any_upstream g ds us)
        (All-copies (Known last) g ds u (
          Known-grows (add_upstreams-Files parse_any_upstream idx ds us s') u
            (add_upstream-Known idx ds u s)))
        (add_upstreams-Known idx g ds us s')

  split-Known :
      (idx : ℕ) (g : Target) (p : Split) (s : State E U)
      → All (Known (add_split parse_any_upstream idx p s)) (split_texts parse_any_upstream g p)
  unfolding add_split
  split-Known idx g (refused e) s = tt
  split-Known idx g (parts us ds) s = add_upstreams-Known idx g ds us s

  add_line-Known :
      (idx : ℕ) (g : Target) (l : Text) (s : State E U)
      → All (Known (add_line parse_any_upstream idx l s)) (line_texts parse_any_upstream g l)
  unfolding add_line
  add_line-Known idx g l s = elim (Bool-cases (is_skipped (trim l))) [
    | inl skipped ↦ rw skipped tt
    | inr kept ↦ rw kept (split-Known idx g (split_config_line (trim l)) s)
  ]

  pub add_lines-Known :
      (idx : ℕ) (g : Target) (ls : List Text) (s : State E U)
      → All (Known (add_lines parse_any_upstream idx ls s)) (all_texts parse_any_upstream g ls)
  unfolding add_lines
  add_lines-Known idx g [] s = tt
  add_lines-Known idx g (l ∷ ls) s =
      let s' = add_line parse_any_upstream idx l s in
      let last = add_lines parse_any_upstream (idx + 1) ls s' in
      All-append (Known last) (line_texts parse_any_upstream g l)
        (all_texts parse_any_upstream g ls)
        (All-mono (Known s') (Known last) (line_texts parse_any_upstream g l)
          (Known-grows (add_lines-Files parse_any_upstream (idx + 1) ls s'))
          (add_line-Known idx g l s))
        (add_lines-Known (idx + 1) g ls s')

  -- Without an error, every text was built.
  abbrev pub IsBuilt : Text → Type 0
  IsBuilt u = (b : U) × (parse_any_upstream u ≡ built b)

  upstream_error-IsBuilt :
      (u : Text) (p : Parsed E U)
      → parse_any_upstream u ≡ p
      → upstream_error parse_any_upstream u p ≡ []
      → IsBuilt u
  upstream_error-IsBuilt u (failed e) p none_found = absurd (cc none_found)
  upstream_error-IsBuilt u (built b) p none_found = (b, p)

  upstream_texts-IsBuilt :
      (g : Target) (ds us : List Text)
      → upstream_errors parse_any_upstream us ≡ []
      → All IsBuilt (upstream_texts parse_any_upstream g ds us)
  upstream_texts-IsBuilt g ds [] e = tt
  upstream_texts-IsBuilt g ds (u ∷ us) e =
      let split =
        append-eq-nil (upstream_error parse_any_upstream u (parse_any_upstream u))
          (upstream_errors parse_any_upstream us) e in
      All-append IsBuilt (copies g ds u) (upstream_texts parse_any_upstream g ds us)
        (All-copies IsBuilt g ds u (upstream_error-IsBuilt u (parse_any_upstream u) refl split.0))
        (upstream_texts-IsBuilt g ds us split.1)

  split_texts-IsBuilt :
      (g : Target) (p : Split)
      → split_errors parse_any_upstream p ≡ []
      → All IsBuilt (split_texts parse_any_upstream g p)
  split_texts-IsBuilt g (refused x) e = absurd (cc e)
  split_texts-IsBuilt g (parts us ds) e = upstream_texts-IsBuilt g ds us e

  line_texts-IsBuilt :
      (g : Target) (l : Text)
      → line_errors parse_any_upstream l ≡ []
      → All IsBuilt (line_texts parse_any_upstream g l)
  line_texts-IsBuilt g l e = elim (Bool-cases (is_skipped (trim l))) [
    | inl skipped ↦ rw skipped tt
    | inr kept ↦ rw kept (split_texts-IsBuilt g (split_config_line (trim l)) (rw kept at e))
  ]

  pub all_texts-IsBuilt :
      (idx : ℕ) (g : Target) (ls : List Text)
      → all_errors parse_any_upstream idx ls ≡ []
      → All IsBuilt (all_texts parse_any_upstream g ls)
  all_texts-IsBuilt idx g [] e = tt
  all_texts-IsBuilt idx g (l ∷ ls) e =
      let split =
        append-eq-nil (map (λ x. (idx, x)) (line_errors parse_any_upstream l))
          (all_errors parse_any_upstream (idx + 1) ls) e in
      All-append IsBuilt (line_texts parse_any_upstream g l) (all_texts parse_any_upstream g ls)
        (line_texts-IsBuilt g l (map-eq-nil _ (line_errors parse_any_upstream l) split.0))
        (all_texts-IsBuilt (idx + 1) g ls split.1)

-- ===== src/UpstreamConfig/Parse/Errors.antt =====
-- The errors of an upstream list, line by line.
use dnsproxy_rs.Prelude.Text.{Text, text_eq, text_eq_iff, trim}
use dnsproxy_rs.Prelude.{
  ℕ, ◌+◌, ◌≡◌, refl, ◌↔◌, List, [], ◌∷◌, ◌++◌, map, append-nil, append_assoc, none, some,
  Bool-cases, Option-cases, inl, inr, if◌then◌else◌, sym, ◌∙◌, ◌≢◌, ap, subst,
}
use mathlib.Core.List.{map-append}
use dnsproxy_rs.Upstream.{Tracked}
use dnsproxy_rs.UpstreamConfig.Line.{Split, parts, refused, split_config_line}
use dnsproxy_rs.UpstreamConfig.Maps.{lookup-change}
use dnsproxy_rs.UpstreamConfig.Parse.{
  Parsed, built, failed, ConfigError, line, upstream, State, rejected, is_skipped, start, register,
  build, add_upstream, add_upstreams, add_split, add_line, add_lines, finish, parse_with_mode,
}
use dnsproxy_rs.UpstreamConfig.{Mode, Map, lookup, change}

module _ {E U : Type 0} (parse_any_upstream : Text → Parsed E U) where
  -- The errors of one upstream, of the parts of a line, of a line and of a list: no state.
  abbrev pub upstream_error : Text → Parsed E U → List (ConfigError E)
  upstream_error u (failed e) = upstream u e ∷ []
  upstream_error u (built b) = []

  abbrev pub upstream_errors : List Text → List (ConfigError E)
  upstream_errors [] = []
  upstream_errors (u ∷ us) = upstream_error u (parse_any_upstream u) ++ upstream_errors us

  abbrev pub split_errors : Split → List (ConfigError E)
  split_errors (refused e) = line e ∷ []
  split_errors (parts us domains) = upstream_errors us

  abbrev pub line_errors : Text → List (ConfigError E)
  line_errors l = if is_skipped (trim l) then [] else split_errors (split_config_line (trim l))

  abbrev pub all_errors : ℕ → List Text → List (ℕ × ConfigError E)
  all_errors idx [] = []
  all_errors idx (l ∷ ls) = map (λ e. (idx, e)) (line_errors l) ++ all_errors (idx + 1) ls

  -- The index holds only upstreams that were built from their text.
  abbrev pub Indexed : State E U → Type 0
  Indexed s =
      (u : Text) (t : Tracked U)
      → lookup u s.upstream_index ≡ some t
      → parse_any_upstream u ≡ built t.upstream

  -- A step adds these errors and keeps the index right.
  pub record Reports (s s' : State E U) (new : List (ℕ × ConfigError E)) : Type 0 where
    pub added : s'.errors ≡ s.errors ++ new
    pub indexed : Indexed s'

  register-errors :
      (ds : List Text) (t : Tracked U) (s : State E U) → (register ds t s).errors ≡ s.errors
  unfolding register
  register-errors [] t s = refl
  register-errors (d ∷ ds) t s = refl

  pub register-index :
      (ds : List Text) (t : Tracked U) (s : State E U)
      → (register ds t s).upstream_index ≡ s.upstream_index
  unfolding register
  register-index [] t s = refl
  register-index (d ∷ ds) t s = refl

  -- A new entry keeps the index right.
  index-change :
      (m : Map (Tracked U)) (u : Text) (t : Tracked U)
      → parse_any_upstream u ≡ built t.upstream
      → ((v : Text) (w : Tracked U) → lookup v m ≡ some w → parse_any_upstream v ≡ built w.upstream)
      → (v : Text) (w : Tracked U) → lookup v (change u t (λ _. t) m) ≡ some w
      → parse_any_upstream v ≡ built w.upstream
  index-change m u t p ok v w found =
      let split = sym (lookup-change u v t (λ _. t) m) ∙ found in
      elim (Bool-cases (text_eq u v)) [
        | inl same ↦
            let new : some t ≡ some w = rw same at split in
            let here : u ≡ v = (text_eq_iff u v).0 same in
            ap parse_any_upstream (sym here) ∙ p ∙ cc new
        | inr other ↦ ok v w (rw other at split)
      ]

  build-Reports :
      (idx : ℕ) (ds : List Text) (u : Text) (p : Parsed E U) (s : State E U)
      → parse_any_upstream u ≡ p
      → Indexed s
      → Reports s (build parse_any_upstream idx ds u p s) (map (λ e. (idx, e)) (upstream_error u p))
  unfolding build
  build-Reports idx ds u (failed e) s p ok = record { added = refl; indexed = ok }
  build-Reports idx ds u (built b) s p ok = record {
    added = register-errors ds _ _ ∙ sym (append-nil s.errors);
    indexed = λ v w found.
        index-change s.upstream_index u _ p ok v w
          (ap (lookup v) (sym (register-index ds _ _)) ∙ found);
  }

  pub add_upstream_new :
      (idx : ℕ) (ds : List Text) (u : Text) (s : State E U)
      → lookup u s.upstream_index ≡ none
      → add_upstream parse_any_upstream idx ds u s
        ≡ build parse_any_upstream idx ds u (parse_any_upstream u) s
  unfolding add_upstream
  add_upstream_new idx ds u s new = rw (new, add_upstream)

  pub add_upstream_old :
      (idx : ℕ) (ds : List Text) (u : Text) (s : State E U) {t : Tracked U}
      → lookup u s.upstream_index ≡ some t
      → add_upstream parse_any_upstream idx ds u s ≡ register ds t s
  unfolding add_upstream
  add_upstream_old idx ds u s old = rw (old, add_upstream)

  add_upstream-Reports :
      (idx : ℕ) (ds : List Text) (u : Text) (s : State E U)
      → Indexed s
      → Reports s
          (add_upstream parse_any_upstream idx ds u s)
          (map (λ e. (idx, e)) (upstream_error u (parse_any_upstream u)))
  add_upstream-Reports idx ds u s ok = elim (Option-cases (lookup u s.upstream_index)) [
    | inl new ↦
        rw (add_upstream_new idx ds u s new)
          (build-Reports idx ds u (parse_any_upstream u) s refl ok)
    | inr (t, old) ↦
        rw (add_upstream_old idx ds u s old, ok u t old)
          (record {
            added = register-errors ds t s ∙ sym (append-nil s.errors);
            indexed = λ v w found. ok v w (ap (lookup v) (sym (register-index ds t s)) ∙ found);
          })
  ]

  Reports-trans :
      {s s' s'' : State E U} (xs ys : List (ℕ × ConfigError E))
      → Reports s s' xs
      → Reports s' s'' ys
      → Reports s s'' (xs ++ ys)
  Reports-trans {s} xs ys a b = record {
    added = b.added ∙ ap (λ l. l ++ ys) a.added ∙ append_assoc s.errors xs ys;
    indexed = b.indexed;
  }

  add_upstreams-Reports :
      (idx : ℕ) (ds us : List Text) (s : State E U)
      → Indexed s
      → Reports s
          (add_upstreams parse_any_upstream idx ds us s)
          (map (λ e. (idx, e)) (upstream_errors us))
  unfolding add_upstreams
  add_upstreams-Reports idx ds [] s ok = record { added = sym (append-nil s.errors); indexed = ok }
  add_upstreams-Reports idx ds (u ∷ us) s ok =
      let first = add_upstream-Reports idx ds u s ok in
      rw map-append (Reports-trans _ _ first (add_upstreams-Reports idx ds us _ first.indexed))

  add_split-Reports :
      (idx : ℕ) (p : Split) (s : State E U)
      → Indexed s
      → Reports s (add_split parse_any_upstream idx p s) (map (λ e. (idx, e)) (split_errors p))
  unfolding add_split
  add_split-Reports idx (refused e) s ok = record { added = refl; indexed = ok }
  add_split-Reports idx (parts us ds) s ok = add_upstreams-Reports idx ds us s ok

  add_line-Reports :
      (idx : ℕ) (l : Text) (s : State E U)
      → Indexed s
      → Reports s (add_line parse_any_upstream idx l s) (map (λ e. (idx, e)) (line_errors l))
  unfolding add_line
  add_line-Reports idx l s ok = elim (Bool-cases (is_skipped (trim l))) [
    | inl skipped ↦ rw skipped (record { added = sym (append-nil s.errors); indexed = ok })
    | inr kept ↦ rw kept (add_split-Reports idx (split_config_line (trim l)) s ok)
  ]

  pub add_lines-Reports :
      (idx : ℕ) (ls : List Text) (s : State E U)
      → Indexed s
      → Reports s (add_lines parse_any_upstream idx ls s) (all_errors idx ls)
  unfolding add_lines
  add_lines-Reports idx [] s ok = record { added = sym (append-nil s.errors); indexed = ok }
  add_lines-Reports idx (l ∷ ls) s ok =
      let first = add_line-Reports idx l s ok in
      Reports-trans _ _ first (add_lines-Reports (idx + 1) ls _ first.indexed)

  finish_iff :
      (mode : Mode) (s : State E U) (found es : List (ℕ × ConfigError E))
      → (finish parse_any_upstream mode s found ≡ rejected es) ↔ ((es ≡ found) × (es ≢ []))
  unfolding finish
  finish_iff mode s [] es = (λ e. absurd (cc e), λ p. absurd (p.1 p.0))
  finish_iff mode s (x ∷ found) es = (λ e. (cc e, λ empty. absurd (cc (e, empty))), λ p. rw p.0)

  -- A list of upstreams is refused with the errors `es` exactly when `es` holds every error of every
  -- line, in order and under the line's index, and there is one; sharing equal upstreams between
  -- lines hides no error. Otherwise the list is accepted.
  pub parse-errors_iff :
      (ls : List Text) (mode : Mode) (es : List (ℕ × ConfigError E))
      → (parse_with_mode parse_any_upstream ls mode ≡ rejected es)
        ↔ ((es ≡ all_errors 0 ls) × (es ≢ []))
  unfolding parse_with_mode
  parse-errors_iff ls mode es =
      let last : State E U = add_lines parse_any_upstream 0 ls start in
      let reports = add_lines-Reports 0 ls start (λ v w found. absurd (cc found)) in
      subst
        (λ found.
          (finish parse_any_upstream mode last last.errors ≡ rejected es)
          ↔ ((es ≡ found) × (es ≢ [])))
        reports.added (finish_iff mode last last.errors es)

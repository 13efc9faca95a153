-- ===== src/UpstreamConfig/Parse/Refinement.antt =====
-- An accepted list builds, in each group, the upstreams of the texts that its lines name for that
-- group, in order, and equal texts share one upstream.
use mathlib.Core.List.{append-nil, append_assoc}
use mathlib.Core.Path.{ap₂}
use dnsproxy_rs.Prelude.Text.{Text, text_eq, text_eq_iff, trim}
use dnsproxy_rs.Prelude.{
  ℕ, ◌+◌, ◌≡◌, refl, List, [], ◌∷◌, ◌++◌, Option, none, some, arith, Bool-cases, Option-cases, inl,
  inr, sym, ◌∙◌, ap,
}
use dnsproxy_rs.Upstream.{Tracked}
use dnsproxy_rs.UpstreamConfig.Line.{Split, parts, refused, split_config_line}
use dnsproxy_rs.UpstreamConfig.Maps.{lookup-change}
use dnsproxy_rs.UpstreamConfig.Parse.Errors.{register-index, add_upstream_new, add_upstream_old}
use dnsproxy_rs.UpstreamConfig.Parse.Groups.{
  Target, default, domain, copies, group_at, group_of, register-group, upstream_texts, split_texts,
  line_texts, all_texts, assigned,
}
use dnsproxy_rs.UpstreamConfig.Parse.{
  Parsed, built, failed, State, is_skipped, register, build, add_upstream, add_upstreams, add_split,
  add_line, add_lines,
}
use dnsproxy_rs.UpstreamConfig.{lookup}

module _ {E U : Type 0} (parse_any_upstream : Text → Parsed E U) where
  assigned-append :
      (f : Text → Option (Tracked U)) (xs ys : List Text)
      → assigned parse_any_upstream f (xs ++ ys)
        ≡ assigned parse_any_upstream f xs ++ assigned parse_any_upstream f ys
  assigned-append f [] ys = refl
  assigned-append f (x ∷ xs) ys = ground (arith, assigned-append f xs ys)

  assigned-copies-some :
      (f : Text → Option (Tracked U)) (g : Target) (ds : List Text) (u : Text) {t : Tracked U}
      → f u ≡ some t
      → assigned parse_any_upstream f (copies g ds u) ≡ copies g ds t
  assigned-copies-some f default [] u e = rw e
  assigned-copies-some f default (d ∷ ds) u e = refl
  assigned-copies-some f (domain k) [] u e = refl
  assigned-copies-some f (domain k) (d ∷ ds) u e =
      ground (arith, assigned-copies-some f (domain k) ds u e)

  assigned-copies-none :
      (f : Text → Option (Tracked U)) (g : Target) (ds : List Text) (u : Text)
      → f u ≡ none
      → assigned parse_any_upstream f (copies g ds u) ≡ []
  assigned-copies-none f default [] u e = rw e
  assigned-copies-none f default (d ∷ ds) u e = refl
  assigned-copies-none f (domain k) [] u e = refl
  assigned-copies-none f (domain k) (d ∷ ds) u e =
      ground (arith, assigned-copies-none f (domain k) ds u e)

  -- The assignment knows what the index holds; it assigns what is built from the text.
  abbrev pub Agrees : (Text → Option (Tracked U)) → State E U → Type 0
  Agrees f s = (u : Text) (t : Tracked U) → lookup u s.upstream_index ≡ some t → f u ≡ some t

  abbrev pub Builds : (Text → Option (Tracked U)) → Type 0
  Builds f = (u : Text) (t : Tracked U) → f u ≡ some t → parse_any_upstream u ≡ built t.upstream

  -- A step keeps the index and files these texts.
  pub record Files (s s' : State E U) (texts : Target → List Text) : Type 0 where
    pub grows :
        (u : Text) (t : Tracked U)
        → lookup u s.upstream_index ≡ some t
        → lookup u s'.upstream_index ≡ some t
    pub filed :
        (f : Text → Option (Tracked U))
        → Builds f
        → Agrees f s'
        → (g : Target)
        → group_of parse_any_upstream g s'
          ≡ group_of parse_any_upstream g s ++ assigned parse_any_upstream f (texts g)

  Files-none : (s : State E U) → Files s s (λ g. [])
  Files-none s = record {
    grows = λ u t e. e;
    filed = λ f b a g. sym (append-nil (group_of parse_any_upstream g s));
  }

  Files-trans :
      {s s' s'' : State E U} (xs ys : Target → List Text)
      → Files s s' xs
      → Files s' s'' ys
      → Files s s'' (λ g. xs g ++ ys g)
  Files-trans {s} xs ys a b = record {
    grows = λ u t e. b.grows u t (a.grows u t e);
    filed = λ f builds agrees g.
        b.filed f builds agrees g
        ∙ ap (λ l. l ++ assigned parse_any_upstream f (ys g))
            (a.filed f builds (λ u t e. agrees u t (b.grows u t e)) g)
        ∙ append_assoc (group_of parse_any_upstream g s) (assigned parse_any_upstream f (xs g))
            (assigned parse_any_upstream f (ys g))
        ∙ ap (λ l. group_of parse_any_upstream g s ++ l) (sym (assigned-append f (xs g) (ys g)));
  }

  -- to register the upstream that the index then holds for the text
  register-Files :
      (ds : List Text) (u : Text) (t : Tracked U) (s s' : State E U)
      → s'.domain_upstreams ≡ s.domain_upstreams
      → s'.default_upstreams ≡ s.default_upstreams
      → ((v : Text) (w : Tracked U)
          → lookup v s.upstream_index ≡ some w
          → lookup v s'.upstream_index ≡ some w)
      → lookup u s'.upstream_index ≡ some t
      → Files s (register ds t s') (λ g. copies g ds u)
  register-Files ds u t s s' same_rules same_default grows holds = record {
    grows = λ v w e. ap (lookup v) (register-index parse_any_upstream ds t s') ∙ grows v w e;
    filed = λ f builds agrees g.
        let known : f u ≡ some t =
          agrees u t (ap (lookup u) (register-index parse_any_upstream ds t s') ∙ holds) in
        register-group parse_any_upstream g ds t s'
        ∙ ap₂ (λ rules d. group_at g rules d ++ copies g ds t) same_rules same_default
        ∙ ap (λ l. group_of parse_any_upstream g s ++ l)
            (sym (assigned-copies-some f g ds u known));
  }

  build-Files :
      (idx : ℕ) (ds : List Text) (u : Text) (p : Parsed E U) (s : State E U)
      → parse_any_upstream u ≡ p
      → lookup u s.upstream_index ≡ none
      → Files s (build parse_any_upstream idx ds u p s) (λ g. copies g ds u)
  unfolding build
  build-Files idx ds u (failed e) s p new = record {
    grows = λ v w e'. e';
    filed = λ f builds agrees g. elim (Option-cases (f u)) [
      | inl nothing ↦
          sym (append-nil (group_of parse_any_upstream g s))
          ∙ ap (λ l. group_of parse_any_upstream g s ++ l)
              (sym (assigned-copies-none f g ds u nothing))
      | inr (t, known) ↦ absurd (cc (builds u t known, p))
    ];
  }
  build-Files idx ds u (built b) s p new =
      let t : Tracked U = record { id = s.next; upstream = b } in
      register-Files ds u t s _ refl refl
        (λ v w e. elim (Bool-cases (text_eq u v)) [
          | inl same ↦
              absurd (cc (ap (λ x. lookup x s.upstream_index) ((text_eq_iff u v).0 same), new, e))
          | inr other ↦ rw (lookup-change, other) e
        ])
        (rw (lookup-change, (text_eq_iff u u).1 refl))

  pub add_upstream-Files :
      (idx : ℕ) (ds : List Text) (u : Text) (s : State E U)
      → Files s (add_upstream parse_any_upstream idx ds u s) (λ g. copies g ds u)
  add_upstream-Files idx ds u s = elim (Option-cases (lookup u s.upstream_index)) [
    | inl new ↦
        rw (add_upstream_new parse_any_upstream idx ds u s new)
          (build-Files idx ds u (parse_any_upstream u) s refl new)
    | inr (t, old) ↦
        rw (add_upstream_old parse_any_upstream idx ds u s old)
          (register-Files ds u t s s refl refl (λ v w e. e) old)
  ]

  pub add_upstreams-Files :
      (idx : ℕ) (ds us : List Text) (s : State E U)
      → Files s
          (add_upstreams parse_any_upstream idx ds us s)
          (λ g. upstream_texts parse_any_upstream g ds us)
  unfolding add_upstreams
  add_upstreams-Files idx ds [] s = Files-none s
  add_upstreams-Files idx ds (u ∷ us) s =
      Files-trans _ _ (add_upstream-Files idx ds u s) (add_upstreams-Files idx ds us _)

  pub add_line-Files :
      (idx : ℕ) (l : Text) (s : State E U)
      → Files s (add_line parse_any_upstream idx l s) (λ g. line_texts parse_any_upstream g l)
  unfolding add_line add_split
  add_line-Files idx l s = elim (Bool-cases (is_skipped (trim l))) [
    | inl skipped ↦ rw skipped (Files-none s)
    | inr kept ↦ rw kept (split-Files (split_config_line (trim l)))
  ]
    where
      split-Files :
          (p : Split)
          → Files s (add_split parse_any_upstream idx p s) (λ g. split_texts parse_any_upstream g p)
      split-Files (refused e) = record {
        grows = λ u t e'. e';
        filed = λ f b a g. sym (append-nil (group_of parse_any_upstream g s));
      }
      split-Files (parts us ds) = add_upstreams-Files idx ds us s

  pub add_lines-Files :
      (idx : ℕ) (ls : List Text) (s : State E U)
      → Files s (add_lines parse_any_upstream idx ls s) (λ g. all_texts parse_any_upstream g ls)
  unfolding add_lines
  add_lines-Files idx [] s = Files-none s
  add_lines-Files idx (l ∷ ls) s =
      Files-trans _ _ (add_line-Files idx l s) (add_lines-Files (idx + 1) ls _)

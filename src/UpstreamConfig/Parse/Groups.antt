-- ===== src/UpstreamConfig/Parse/Groups.antt =====
-- The groups that a list of upstreams builds, against the texts of its lines.
use mathlib.Core.List.{append-nil, append_assoc}
use dnsproxy_rs.Prelude.Text.{Text, text_eq, trim}
use dnsproxy_rs.Prelude.{
  ◌≡◌, refl, List, [], ◌∷◌, ◌++◌, Option, none, some, Bool-cases, inl, inr, if◌then◌else◌, sym, ◌∙◌,
  ap,
}
use dnsproxy_rs.Upstream.{Tracked}
use dnsproxy_rs.UpstreamConfig.Line.{Split, parts, refused, split_config_line}
use dnsproxy_rs.UpstreamConfig.Maps.{lookup-change, or_else}
use dnsproxy_rs.UpstreamConfig.Parse.{Parsed, State, is_skipped, push_domains, register}
use dnsproxy_rs.UpstreamConfig.{Group, Map, lookup, change, push, empty_group}

-- A group of the configuration: that of a rule's domain, or the default group.
pub data Target : Type 0 where
  default : Target
  domain : Text → Target

-- One for each time that a line with these domains names the target.
abbrev pub copies {ℓ} : {A : Type ℓ} → Target → List Text → A → List A
copies default [] x = x ∷ []
copies default (d ∷ ds) x = []
copies (domain k) [] x = []
copies (domain k) (d ∷ ds) x = (if text_eq d k then x ∷ [] else []) ++ copies (domain k) ds x

module _ {U : Type 0} where
  abbrev pub members : Option (Group U) → List (Tracked U)
  members none = []
  members (some g) = g.upstreams

  abbrev pub group_at : Target → Map (Group U) → Group U → List (Tracked U)
  group_at default rules d = d.upstreams
  group_at (domain k) rules d = members (lookup k rules)

  members-push :
      (o : Option (Group U)) (t : Tracked U)
      → members (some (push t (or_else empty_group o))) ≡ members o ++ t ∷ []
  members-push none t = refl
  members-push (some g) t = refl

  members-change :
      (k d : Text) (t : Tracked U) (rules : Map (Group U))
      → members (lookup k (change d empty_group (push t) rules))
        ≡ members (lookup k rules) ++ (if text_eq d k then t ∷ [] else [])
  members-change k d t rules = elim (Bool-cases (text_eq d k)) [
    | inl same ↦ rw (lookup-change, same) (members-push (lookup k rules) t)
    | inr other ↦ rw (lookup-change, other) (sym (append-nil (members (lookup k rules))))
  ]

  members-push_domains :
      (k : Text) (ds : List Text) (t : Tracked U) (rules : Map (Group U))
      → members (lookup k (push_domains ds t rules))
        ≡ members (lookup k rules) ++ copies (domain k) ds t
  unfolding push_domains
  members-push_domains k [] t rules = sym (append-nil (members (lookup k rules)))
  members-push_domains k (d ∷ ds) t rules =
      members-push_domains k ds t (change d empty_group (push t) rules)
      ∙ ap (λ xs. xs ++ copies (domain k) ds t) (members-change k d t rules)
      ∙ append_assoc (members (lookup k rules)) (if text_eq d k then t ∷ [] else [])
          (copies (domain k) ds t)

module _ {E U : Type 0} (parse_any_upstream : Text → Parsed E U) where
  abbrev pub group_of : Target → State E U → List (Tracked U)
  group_of g s = group_at g s.domain_upstreams s.default_upstreams

  pub register-group :
      (g : Target) (ds : List Text) (t : Tracked U) (s : State E U)
      → group_of g (register ds t s) ≡ group_of g s ++ copies g ds t
  unfolding register
  register-group default [] t s = refl
  register-group default (d ∷ ds) t s = sym (append-nil s.default_upstreams.upstreams)
  register-group (domain k) [] t s = sym (append-nil (members (lookup k s.domain_upstreams)))
  register-group (domain k) (d ∷ ds) t s = members-push_domains k (d ∷ ds) t s.domain_upstreams

  -- The texts that the lines name for a group, in order.
  abbrev pub upstream_texts : Target → List Text → List Text → List Text
  upstream_texts g ds [] = []
  upstream_texts g ds (u ∷ us) = copies g ds u ++ upstream_texts g ds us

  abbrev pub split_texts : Target → Split → List Text
  split_texts g (refused e) = []
  split_texts g (parts us ds) = upstream_texts g ds us

  abbrev pub line_texts : Target → Text → List Text
  line_texts g l = if is_skipped (trim l) then [] else split_texts g (split_config_line (trim l))

  abbrev pub all_texts : Target → List Text → List Text
  all_texts g [] = []
  all_texts g (l ∷ ls) = line_texts g l ++ all_texts g ls

  -- The upstreams of the texts, by an assignment.
  abbrev pub assigned : (Text → Option (Tracked U)) → List Text → List (Tracked U)
  assigned f [] = []
  assigned f (u ∷ us) = elim (f u) [ none ↦ assigned f us | some t ↦ t ∷ assigned f us ]

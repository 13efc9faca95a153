-- ===== src/Doh/Credentials.antt =====
-- src/listener/doh_auth.rs: the credentials of the DoH listeners, as the values of the header
-- `Authorization` that they stand for. `encode` is base64 of a text's bytes.
use dnsproxy_rs.Prelude.Text.{Text, codes, text_eq, split_once_char}
use dnsproxy_rs.Prelude.{
  Bool, true, false, ◌||◌, List, [], ◌∷◌, ◌++◌, Option, none, some, ◌⊎◌, inl, inr, ◌≡◌, ◌↔◌, refl,
  subst, Any, Bool-cases,
}
use dnsproxy_rs.Prelude.Text.{text_eq_iff}

-- The messages of a refused pair.
pub data PairError : Type 0 where
  no_password empty_username : PairError

-- `parse_pair`, behind the split
abbrev pub named : Option (Text × Text) → PairError ⊎ (Text × Text)
named none = inl no_password
named (some ([], pass)) = inl empty_username
named (some (c ∷ cs, pass)) = inr (c ∷ cs, pass)

unfoldable pub parse_pair : Text → PairError ⊎ (Text × Text)
unfolding split_once_char
parse_pair s = named (split_once_char b':' s)

module _ (encode : Text → Text) where
  -- the header for a pair
  abbrev pub header : Text × Text → Text
  header (user, pass) = codes "Basic " ++ encode (user ++ (codes ":" ++ pass))

  -- `Credentials::new`
  unfoldable pub new : List (Text × Text) → List Text
  new [] = []
  new (pair ∷ pairs) = header pair ∷ new pairs

-- `is_empty`
abbrev pub is_open : List Text → Bool
is_open [] = true
is_open (v ∷ vs) = false

abbrev pub any_valid : List Text → Text → Bool
any_valid [] given = false
any_valid (v ∷ vs) given = text_eq v given || any_valid vs given

-- `is_authorized`
unfoldable pub is_authorized : List Text → Option Text → Bool
unfolding text_eq
is_authorized valid_headers none = false
is_authorized valid_headers (some given) = any_valid valid_headers given

module _ (encode : Text → Text) where
  -- some pair has this header, of the scheme Basic
  abbrev pub Given : Text → List (Text × Text) → Type 0
  Given given = Any (λ pair. codes "Basic " ++ encode (pair.0 ++ (codes ":" ++ pair.1)) ≡ given)

  any_valid_sound :
      (pairs : List (Text × Text)) (given : Text)
      → any_valid (new encode pairs) given ≡ true
      → Given given pairs
  unfolding new
  any_valid_sound [] given e = absurd (cc e)
  any_valid_sound (pair ∷ pairs) given e = elim (Bool-cases (text_eq (header encode pair) given)) [
    | inl same ↦ inl ((text_eq_iff (header encode pair) given).0 same)
    | inr other ↦ inr (any_valid_sound pairs given (rw other at e))
  ]

  any_valid_complete :
      (pairs : List (Text × Text)) (given : Text)
      → Given given pairs
      → any_valid (new encode pairs) given ≡ true
  unfolding new
  any_valid_complete [] given e = absurd e
  any_valid_complete (pair ∷ pairs) given (inl same) =
      rw ((text_eq_iff (header encode pair) given).1 same) refl
  any_valid_complete (pair ∷ pairs) given (inr later) =
      elim (Bool-cases (text_eq (header encode pair) given)) [
        | inl same ↦ rw same refl
        | inr other ↦ rw other (any_valid_complete pairs given later)
      ]

  -- A header is accepted exactly if it is there and is that of one of the configured pairs, in the
  -- scheme Basic.
  pub is_authorized_iff :
      (pairs : List (Text × Text)) (authorization : Option Text)
      → (is_authorized (new encode pairs) authorization ≡ true)
        ↔ ((given : Text) × (authorization ≡ some given) × Given given pairs)
  unfolding is_authorized
  is_authorized_iff pairs none = (λ e. absurd (cc e), λ (given, e, p). absurd (cc e))
  is_authorized_iff pairs (some given) = (
    λ e. (given, refl, any_valid_sound pairs given e),
    λ (given', e, p).
        let same : given' ≡ given = cc e in
        any_valid_complete pairs given (subst (λ g. Given g pairs) same p),
  )

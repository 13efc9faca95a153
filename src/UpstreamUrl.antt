-- ===== src/UpstreamUrl.antt =====
-- src/client/upstream_url.rs: the address of an upstream. The standard library's
-- parser of a port is a parameter.
pub mod Hosts
pub mod Userinfo
pub mod Build
use mathlib.Core.Option
use dnsproxy_rs.Dnscrypt.Stamp.{StampError}
use dnsproxy_rs.Prelude.Text.{Text, codes, text_eq, split_once, split_once_char}
use dnsproxy_rs.Prelude.{
  ℕ, Bool, true, false, not, ◌||◌, List, [], ◌∷◌, ◌++◌, Option, none, some, ◌==◌, if◌then◌else◌,
}

-- The messages of a refused address.
pub data UrlError : Type 0 where
  not_absolute no_password unterminated_bracket invalid_port invalid_host : UrlError
  unsupported_scheme invalid_uri no_host no_literal_host : UrlError
  invalid_stamp : StampError → UrlError
  -- `unwrap` of nothing
  panicked : UrlError

pub data Parse (A : Type 0) : Type 0 where
  parsed : A → Parse A
  refused : UrlError → Parse A

infixl 5 ◌>>=◌
abbrev pub ◌>>=◌ : {A B : Type 0} → Parse A → (A → Parse B) → Parse B
refused e >>= next = refused e
parsed x >>= next = next x

abbrev pub or_refuse : {A : Type 0} → UrlError → Option A → Parse A
or_refuse e (some x) = parsed x
or_refuse e none = refused e

-- `rsplit_once` at a character: the parts around its last occurrence
abbrev pub shift : ℕ → Option (Text × Text) → Option (Text × Text)
shift c none = none
shift c (some (left, right)) = some (c ∷ left, right)

unfoldable pub rsplit_once_char : ℕ → Text → Option (Text × Text)
rsplit_once_char sep [] = none
rsplit_once_char sep (c ∷ cs) =
    let later = rsplit_once_char sep cs in
    elim later [
      | some parts ↦ shift c (some parts)
      | none ↦ if c == sep then some ([], cs) else none
    ]

-- `str::contains` of a character
unfoldable pub has_char : ℕ → Text → Bool
has_char sep [] = false
has_char sep (c ∷ cs) = c == sep || has_char sep cs

-- `extract_userinfo`: the credentials, and the URL without them
unfoldable pub split_userinfo : Text → Text → Parse (Option (Text × Text) × Text)
unfolding rsplit_once_char split_once_char
split_userinfo scheme rest = elim (rsplit_once_char b'@' rest) [
  | none ↦ parsed (none, scheme ++ (codes "://" ++ rest))
  | some (userinfo, host_and_path) ↦ elim (split_once_char b':' userinfo) [
    | none ↦ refused no_password
    | some (user, pass) ↦ parsed (some (user, pass), scheme ++ (codes "://" ++ host_and_path))
  ]
]

unfoldable pub extract_userinfo : Text → Parse (Option (Text × Text) × Text)
unfolding split_userinfo split_once
extract_userinfo url = elim (split_once (codes "://") url) [
  | none ↦ refused not_absolute
  | some (scheme, rest) ↦ split_userinfo scheme rest
]

module _ (parse_u16 : Text → Option ℕ) where
  -- behind a bracketed host
  unfoldable pub bracket_port : Text → Text → Parse (Text × Option ℕ)
  bracket_port host [] = parsed (host, none)
  bracket_port host (c ∷ p) =
      if c == b':'
      then (or_refuse invalid_port (parse_u16 p) >>= λ port. parsed (host, some port))
      else refused invalid_host

  unfoldable pub split_bracketed : Text → Parse (Text × Option ℕ)
  unfolding bracket_port split_once_char
  split_bracketed stripped = elim (split_once_char b']' stripped) [
    | none ↦ refused unterminated_bracket
    | some (host, after) ↦ bracket_port host after
  ]

  unfoldable pub split_plain : Text → Parse (Text × Option ℕ)
  unfolding rsplit_once_char has_char
  split_plain rest = elim (rsplit_once_char b':' rest) [
    | none ↦ parsed (rest, none)
    | some (host, port) ↦
        if has_char b':' host
        then parsed (rest, none)
        else (or_refuse invalid_port (parse_u16 port) >>= λ n. parsed (host, some n))
  ]

  -- `split_host_port`
  unfoldable pub split_host_port : Text → Parse (Text × Option ℕ)
  unfolding split_bracketed split_plain
  split_host_port [] = split_plain []
  split_host_port (c ∷ rest) =
      let plain = split_plain (c ∷ rest) in
      let bracketed = split_bracketed rest in if c == b'[' then bracketed else plain

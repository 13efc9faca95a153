-- ===== src/UpstreamUrl/Hosts.antt =====
-- Which hosts and ports `split_host_port` reads.
use dnsproxy_rs.Prelude.Text.{Text, split_once_char}
use dnsproxy_rs.Prelude.{
  ℕ, ◌≡◌, refl, true, false, [], ◌∷◌, ◌++◌, Option, none, some, ◌==◌, ◌∙◌, arith,
}
use dnsproxy_rs.UpstreamUrl.{
  parsed, rsplit_once_char, has_char, bracket_port, split_bracketed, split_plain, split_host_port,
}

pub rsplit_once_char-none :
    (sep : ℕ) (s : Text) → has_char sep s ≡ false → rsplit_once_char sep s ≡ none
unfolding rsplit_once_char has_char
rsplit_once_char-none sep [] h = refl
rsplit_once_char-none sep (c ∷ cs) h =
    let other : (c == sep) ≡ false = ground arith in
    let rest : has_char sep cs ≡ false = ground arith in
    rw (rsplit_once_char-none sep cs rest, other) refl

pub rsplit_once_char-last :
    (sep : ℕ) (left right : Text)
    → has_char sep right ≡ false
    → rsplit_once_char sep (left ++ sep ∷ right) ≡ some (left, right)
unfolding rsplit_once_char has_char
rsplit_once_char-last sep [] right h =
    let same : (sep == sep) ≡ true = ground arith in
    rw (rsplit_once_char-none sep right h, same) refl
rsplit_once_char-last sep (c ∷ left) right h = rw (rsplit_once_char-last sep left right h) refl

pub split_once_char-first :
    (sep : ℕ) (left right : Text)
    → has_char sep left ≡ false
    → split_once_char sep (left ++ sep ∷ right) ≡ some (left, right)
unfolding split_once_char has_char
split_once_char-first sep [] right h = let same : (sep == sep) ≡ true = ground arith in rw same refl
split_once_char-first sep (c ∷ left) right h =
    let other : (c == sep) ≡ false = ground arith in
    let rest : has_char sep left ≡ false = ground arith in
    rw (other, split_once_char-first sep left right rest) refl

-- A text begins with another character, or is empty.
abbrev pub StartsNot : ℕ → Text → Type 0
StartsNot c [] = Unit
StartsNot c (d ∷ ds) = (d == c) ≡ false

module _ (parse_u16 : Text → Option ℕ) where
  -- The ways to write a host and an optional port.
  pub data Written : Text → Text → Option ℕ → Type 0 where
    host_only :
        (host : Text) → StartsNot b'[' host → has_char b':' host ≡ false → Written host host none
    host_port :
        (host port : Text) {n : ℕ}
        → StartsNot b'[' (host ++ b':' ∷ port)
        → has_char b':' host ≡ false
        → has_char b':' port ≡ false
        → parse_u16 port ≡ some n
        → Written (host ++ b':' ∷ port) host (some n)
    -- two colons at least, as in an IPv6 address without brackets
    bare :
        (left right : Text)
        → StartsNot b'[' (left ++ b':' ∷ right)
        → has_char b':' left ≡ true
        → has_char b':' right ≡ false
        → Written (left ++ b':' ∷ right) (left ++ b':' ∷ right) none
    in_brackets :
        (host : Text) → has_char b']' host ≡ false → Written (b'[' ∷ (host ++ b']' ∷ [])) host none
    in_brackets_port :
        (host port : Text) {n : ℕ}
        → has_char b']' host ≡ false
        → parse_u16 port ≡ some n
        → Written (b'[' ∷ (host ++ b']' ∷ b':' ∷ port)) host (some n)

  split_host_port-split_plain :
      (s : Text) → StartsNot b'[' s → split_host_port parse_u16 s ≡ split_plain parse_u16 s
  unfolding split_host_port
  split_host_port-split_plain [] h = refl
  split_host_port-split_plain (c ∷ cs) h = rw h refl

  split_bracketed-first :
      (host after : Text)
      → has_char b']' host ≡ false
      → split_bracketed parse_u16 (host ++ b']' ∷ after) ≡ bracket_port parse_u16 host after
  unfolding split_bracketed
  split_bracketed-first host after h =
      rw (split_once_char-first b']' host after h, split_bracketed) refl

  -- However a host and an optional port are written, they are read back; a bare IPv6 address is a host
  -- without a port.
  pub split_host_port-Written :
      (s host : Text) (port : Option ℕ)
      → Written s host port
      → split_host_port parse_u16 s ≡ parsed (host, port)
  unfolding split_host_port split_plain split_bracketed bracket_port
  split_host_port-Written s host port (host_only h no_bracket no_colon) =
      split_host_port-split_plain h no_bracket
      ∙ rw (rsplit_once_char-none b':' h no_colon, split_plain) refl
  split_host_port-Written s host port (host_port h p no_bracket no_colon last reads) =
      split_host_port-split_plain (h ++ b':' ∷ p) no_bracket
      ∙ rw (rsplit_once_char-last b':' h p last, split_plain, no_colon, reads) refl
  split_host_port-Written s host port (bare left right no_bracket colon last) =
      split_host_port-split_plain (left ++ b':' ∷ right) no_bracket
      ∙ rw (rsplit_once_char-last b':' left right last, split_plain, colon) refl
  split_host_port-Written s host port (in_brackets h no_bracket) =
      split_bracketed-first h [] no_bracket
  split_host_port-Written s host port (in_brackets_port h p no_bracket reads) =
      split_bracketed-first h (b':' ∷ p) no_bracket ∙ rw reads refl

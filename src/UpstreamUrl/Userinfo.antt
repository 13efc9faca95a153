-- ===== src/UpstreamUrl/Userinfo.antt =====
-- The credentials in an upstream's URL.
use dnsproxy_rs.Prelude.Text.{Text, codes, strip_prefix, split_once}
use dnsproxy_rs.Prelude.{◌≡◌, refl, false, [], ◌∷◌, ◌++◌, some, ◌==◌, arith}
use dnsproxy_rs.UpstreamUrl.Hosts.{rsplit_once_char-last, split_once_char-first}
use dnsproxy_rs.UpstreamUrl.{parsed, has_char, split_userinfo, extract_userinfo}

split_once-scheme :
    (scheme rest : Text)
    → has_char b':' scheme ≡ false
    → split_once (codes "://") (scheme ++ (codes "://" ++ rest)) ≡ some (scheme, rest)
unfolding split_once strip_prefix has_char
split_once-scheme [] rest h = refl
split_once-scheme (c ∷ scheme) rest h =
    let other : (b':' == c) ≡ false = ground arith in
    let later : has_char b':' scheme ≡ false = ground arith in
    rw (other, split_once, split_once-scheme scheme rest later) refl

split_userinfo-credentials :
    (scheme user pass rest : Text)
    → has_char b':' user ≡ false
    → has_char b'@' rest ≡ false
    → split_userinfo scheme ((user ++ b':' ∷ pass) ++ b'@' ∷ rest)
      ≡ parsed (some (user, pass), scheme ++ (codes "://" ++ rest))
unfolding split_userinfo
split_userinfo-credentials scheme user pass rest u r =
    rw
      (
        rsplit_once_char-last b'@' (user ++ b':' ∷ pass) rest r,
        split_userinfo,
        split_once_char-first b':' user pass u,
      )
      refl

-- From a URL with credentials, where the scheme and the user have no colon and what follows the
-- credentials has no @, the user, the password and the URL without them are read.
pub extract_userinfo-credentials :
    (scheme user pass rest : Text)
    → has_char b':' scheme ≡ false
    → has_char b':' user ≡ false
    → has_char b'@' rest ≡ false
    → extract_userinfo (scheme ++ (codes "://" ++ ((user ++ b':' ∷ pass) ++ b'@' ∷ rest)))
      ≡ parsed (some (user, pass), scheme ++ (codes "://" ++ rest))
unfolding extract_userinfo split_userinfo
extract_userinfo-credentials scheme user pass rest s u r =
    rw (split_once-scheme scheme ((user ++ b':' ∷ pass) ++ b'@' ∷ rest) s, extract_userinfo)
      (split_userinfo-credentials scheme user pass rest u r)

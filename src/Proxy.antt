-- ===== src/Proxy.antt =====
-- src/main.rs: what the command line turns into. Of the command line, the fields that decide
-- something; files are their texts.
pub mod Listening
pub mod Private
pub mod Answering
use dnsproxy_rs.Bootstrap.{Addresses}
use dnsproxy_rs.Cache.{CacheOptions, second}
use dnsproxy_rs.Doh.Credentials as Credentials
use dnsproxy_rs.Doh.Credentials.{PairError, parse_pair}
use dnsproxy_rs.Prelude.Text.{Text, codes, first_part, trim}
use dnsproxy_rs.Prelude.{
  ℕ, ◌*◌, Bool, true, false, not, ◌&&◌, ◌||◌, List, [], ◌∷◌, ◌++◌, map, Option, none, some, ◌==◌,
  ltb, if◌then◌else◌, ◌⊎◌, inl, inr,
}
use dnsproxy_rs.Sockets.{SocketAddr}

-- `str::lines`
abbrev pub line_break : ℕ
line_break = 10

unfoldable pub lines : Text → List Text
lines [] = []
lines (c ∷ []) = if c == line_break then [] ∷ [] else (c ∷ []) ∷ []
lines (c ∷ d ∷ cs) =
    let behind = lines (d ∷ cs) in
    let behind_both = lines cs in
    if c == line_break
    then [] ∷ behind
    else if c == 13 && d == line_break
    then [] ∷ behind_both
    else first_part c behind

-- `PRIVATE_REVERSE_ZONES`
abbrev pub private_reverse_zones : List Text
private_reverse_zones =
    codes "10.in-addr.arpa"
    ∷ codes "16.172.in-addr.arpa"
    ∷ codes "17.172.in-addr.arpa"
    ∷ codes "18.172.in-addr.arpa"
    ∷ codes "19.172.in-addr.arpa"
    ∷ codes "20.172.in-addr.arpa"
    ∷ codes "21.172.in-addr.arpa"
    ∷ codes "22.172.in-addr.arpa"
    ∷ codes "23.172.in-addr.arpa"
    ∷ codes "24.172.in-addr.arpa"
    ∷ codes "25.172.in-addr.arpa"
    ∷ codes "26.172.in-addr.arpa"
    ∷ codes "27.172.in-addr.arpa"
    ∷ codes "28.172.in-addr.arpa"
    ∷ codes "29.172.in-addr.arpa"
    ∷ codes "30.172.in-addr.arpa"
    ∷ codes "31.172.in-addr.arpa"
    ∷ codes "168.192.in-addr.arpa"
    ∷ codes "127.in-addr.arpa"
    ∷ codes "254.169.in-addr.arpa"
    ∷ codes "c.f.ip6.arpa"
    ∷ codes "d.f.ip6.arpa"
    ∷ codes "8.e.f.ip6.arpa"
    ∷ codes "9.e.f.ip6.arpa"
    ∷ codes "a.e.f.ip6.arpa"
    ∷ codes "b.e.f.ip6.arpa"
    ∷ codes "0.0.0.0.0.0.0.0.0.0.0.0.0.0.0.0.0.0.0.0.0.0.0.0.0.0.0.0.0.0.0.ip6.arpa"
    ∷ []

-- `join` with a slash
unfoldable pub joined : List Text → Text
joined [] = []
joined (zone ∷ []) = zone
joined (zone ∷ next ∷ zones) = zone ++ (codes "/" ++ joined (next ∷ zones))

unfoldable pub private_upstream_line : Text → Text
unfolding joined
private_upstream_line upstream =
    codes "[/" ++ (joined private_reverse_zones ++ (codes "/]" ++ upstream))

abbrev pub one_line : Option Text → List Text
one_line none = []
one_line (some upstream) = private_upstream_line upstream ∷ []

abbrev pub lines_of : List Text → List Text
lines_of [] = []
lines_of (text ∷ texts) = lines text ++ lines_of texts

abbrev pub file_lines : Option Text → List Text
file_lines none = []
file_lines (some text) = lines text

-- the lines of the upstream list: of `--private-upstream`, of each `--upstream` or of the file that it
-- names, and of `--upstream-file`
unfoldable pub upstream_lines : Option Text → List Text → Option Text → List Text
unfolding lines private_upstream_line
upstream_lines private_upstream arg_texts file_text =
    one_line private_upstream ++ (lines_of arg_texts ++ file_lines file_text)

-- the lines of a file of credentials that count
abbrev pub counts : Text → Bool
counts [] = false
counts (c ∷ cs) = not (c == b'#')

unfoldable pub credential_lines : List Text → List Text
unfolding trim
credential_lines [] = []
credential_lines (line ∷ ls) =
    if counts (trim line) then trim line ∷ credential_lines ls else credential_lines ls

abbrev pub keep_pair : Text × Text → PairError ⊎ List (Text × Text) → PairError ⊎ List (Text × Text)
keep_pair pair (inl e) = inl e
keep_pair pair (inr pairs) = inr (pair ∷ pairs)

abbrev pub with_pair :
    PairError ⊎ (Text × Text) → PairError ⊎ List (Text × Text) → PairError ⊎ List (Text × Text)
with_pair (inl e) rest = inl e
with_pair (inr pair) rest = keep_pair pair rest

unfoldable pub parse_pairs : List Text → PairError ⊎ List (Text × Text)
unfolding parse_pair
parse_pairs [] = inr []
parse_pairs (s ∷ ss) = with_pair (parse_pair s) (parse_pairs ss)

-- the pairs of `--doh-auth` and of `--doh-auth-file`
unfoldable pub doh_credentials : List Text → Option Text → PairError ⊎ List (Text × Text)
unfolding parse_pairs credential_lines lines
doh_credentials doh_auth file_text =
    parse_pairs (doh_auth ++ credential_lines (file_lines file_text))

-- the options of the cache; nothing if the size is zero
unfoldable pub cache_options : ℕ → ℕ → ℕ → Option CacheOptions
cache_options size min_ttl max_ttl =
    if size == 0
    then none
    else some (record {
      size = size;
      min_ttl = min_ttl * second;
      max_ttl = if ltb 0 max_ttl then some (max_ttl * second) else none;
    })

-- `Ipv4Addr::UNSPECIFIED`, `Ipv6Addr::UNSPECIFIED` and 127.0.0.1
pub record Wildcards (a : Addresses) : Type 0 where
  pub any_v4 : a.IpAddr
  pub any_v6 : a.IpAddr
  pub loopback : a.IpAddr

-- A pair of flags, `--*-listen` and `--*-port`.
pub record Listen (a : Addresses) : Type 0 where
  pub listen : List (SocketAddr a)
  pub port : Option ℕ

pub record Args (a : Addresses) : Type 0 where
  pub plain : Listen a
  pub quic : Listen a
  pub tls : Listen a
  pub https : Listen a
  pub dnscrypt : Listen a

module _ (a : Addresses) (wild : Wildcards a) where
  open wild use {any_v4, any_v6, loopback}

  abbrev pub on_port : ℕ → List (SocketAddr a)
  on_port port = (any_v4, port) ∷ (any_v6, port) ∷ []

  abbrev pub port_or : Option ℕ → List (SocketAddr a) → List (SocketAddr a)
  port_or none listen = listen
  port_or (some port) listen = on_port port

  -- `expand_listen`
  unfoldable pub expand_listen : Listen a → List (SocketAddr a)
  expand_listen l = port_or l.port l.listen

  abbrev pub some_addr : List (SocketAddr a) → Bool
  some_addr [] = false
  some_addr (addr ∷ addrs) = true

  abbrev pub some_port : Option ℕ → Bool
  some_port none = false
  some_port (some port) = true

  unfoldable pub is_requested : Listen a → Bool
  is_requested l = some_addr l.listen || some_port l.port

  -- `secure_listener_enabled`
  unfoldable pub secure_listener_enabled : Args a → Bool
  unfolding is_requested
  secure_listener_enabled args =
      is_requested args.quic
      || (is_requested args.tls || (is_requested args.https || is_requested args.dnscrypt))

  abbrev pub listen_or : List (SocketAddr a) → List (SocketAddr a) → List (SocketAddr a)
  listen_or [] default = default
  listen_or (addr ∷ addrs) default = addr ∷ addrs

  -- `listen_addrs`
  unfoldable pub listen_addrs : Args a → List (SocketAddr a)
  unfolding secure_listener_enabled
  listen_addrs args = port_or args.plain.port (
      listen_or args.plain.listen
        (if secure_listener_enabled args then [] else (loopback, 53) ∷ []))

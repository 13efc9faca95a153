-- ===== src/Options.antt =====
-- src/options.rs: the settings that an upstream is built with. `R` is the type of resolvers,
-- `Arc<dyn Resolver>`; durations are numbers of nanoseconds.
use dnsproxy_rs.Prelude.Text.{Text, codes}
use dnsproxy_rs.Prelude.{ℕ, Bool, true, false, List, [], ◌∷◌, Option, none, some}

pub data HttpVersion : Type 0 where
  http11 http2 http3 : HttpVersion

unfoldable pub alpn : HttpVersion → Text
alpn http11 = codes "http/1.1"
alpn http2 = codes "h2"
alpn http3 = codes "h3"

unfoldable pub is_http3 : HttpVersion → Bool
is_http3 http11 = false
is_http3 http2 = false
is_http3 http3 = true

abbrev pub default_http_versions : List HttpVersion
default_http_versions = http11 ∷ http2 ∷ []

abbrev pub or_default_versions : List HttpVersion → List HttpVersion
or_default_versions [] = default_http_versions
or_default_versions (v ∷ vs) = v ∷ vs

pub record Options (R : Type 0) : Type 0 where
  pub bootstrap : Option R
  pub http_versions : List HttpVersion
  pub timeout : Option ℕ
  pub insecure_skip_verify : Bool
  pub prefer_ipv6 : Bool
  -- user and password
  pub basic_auth : Option (Text × Text)

module _ {R : Type 0} where
  -- `Options::default`
  unfoldable pub default : Options R
  default = record {
    bootstrap = none;
    http_versions = [];
    timeout = some 10_000_000_000;
    insecure_skip_verify = false;
    prefer_ipv6 = false;
    basic_auth = none;
  }

  unfoldable pub resolved_http_versions : Options R → List HttpVersion
  resolved_http_versions o = or_default_versions o.http_versions

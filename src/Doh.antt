-- ===== src/Doh.antt =====
-- DNS over HTTPS: the upstream of src/client/doh.rs, its settings and its requests. The crates hyper,
-- http and h3 are the interface `Http`.
pub mod Https
pub mod Http3
pub mod Client
pub mod Versions
pub mod Kept
pub mod Credentials
pub mod Listener
pub mod Listener3
pub mod RoundTrip
use dnsproxy_rs.Bootstrap.Dial.{Resolver}
use dnsproxy_rs.Bootstrap.{Addresses}
use dnsproxy_rs.Client.{Formats, or_port, or_system}
use dnsproxy_rs.Dns.{Hickory, Message, Codec}
use dnsproxy_rs.Error.{http, Result, ok, err, ◌>>=◌}
use dnsproxy_rs.Exec.{Exec, Call, map_err}
use dnsproxy_rs.Io.{Bytes}
use dnsproxy_rs.Options.{HttpVersion, Options, is_http3, resolved_http_versions}
use dnsproxy_rs.Prelude.Text.{Text, codes}
use dnsproxy_rs.Prelude.{
  ℕ, Bool, true, not, ◌||◌, List, [], ◌∷◌, ◌++◌, Option, none, some, ◌⊎◌, leb, ltb, ◌&&◌,
}
use dnsproxy_rs.Sockets.{Sockets, SocketAddr}

-- A GET request: its URI, and its header `Authorization`. The headers `User-Agent` and `Accept` are
-- always the same.
pub record Get : Type 0 where
  pub uri : Text
  pub authorization : Option Text

-- What comes back: the status, and the chunks of the body, up to its end or to an error.
pub record Reply : Type 0 where
  pub status : ℕ
  pub chunks : List Bytes
  pub broken : Option Text

pub record Http (a : Addresses) {W : Type 0} (net : Sockets a W) : Type 1 where
  -- the clock, in nanoseconds
  pub now : W → ℕ
  -- a client, which opens connections by its connector
  pub Client : Type 0
  pub build_client : Exec W net.Stream → W → Client × W
  -- whether a URI and the request for it can be built
  pub parse_uri : Text → Text ⊎ Unit {0}
  pub build_request : Get → Text ⊎ Unit {0}
  -- `client.request`, with the body that is then collected
  pub request : Client → Get → Call W Reply
  -- a sender of h3 over a connection, and one request on it
  pub Sender : Type 0
  pub open_h3 : net.Quic → Call W Sender
  pub request_h3 : Sender → Get → Call W Reply
  -- `tokio::select!` of two actions begun at once: the first result, and the world at that moment
  pub select : Exec W net.Quic → Exec W (Unit {0}) → W → (Result net.Quic ⊎ Result (Unit {0})) × W

-- `is_success`
unfoldable pub is_success : ℕ → Bool
is_success status = leb 200 status && ltb status 300

module _ (a : Addresses) (f : Formats a) {W : Type 0} (net : Sockets a W) where
  -- `DohUpstream`, without what its mutexes hold
  pub record DohUpstream : Type 0 where
    pub host : Text
    pub port : ℕ
    pub path : Text
    pub addr_redacted : Text
    pub http_versions : List HttpVersion
    pub resolver : Resolver a net
    pub prefer_ipv6 : Bool
    pub timeout : Option ℕ
    pub insecure_skip_verify : Bool
    pub basic_auth_header : Option Text

  module _ (encode : Text → Text) where
    abbrev basic_auth : Option (Text × Text) → Option Text
    basic_auth none = none
    basic_auth (some (user, pass)) = some (codes "Basic " ++ encode (user ++ (codes ":" ++ pass)))

    -- `DohUpstream::new`; `encode` is base64 of the text's bytes
    unfoldable pub new : Text → Option ℕ → Text → Options (Resolver a net) → DohUpstream
    unfolding resolved_http_versions
    new host port path opts = record {
      host = host;
      port = or_port 443 port;
      path = path;
      addr_redacted =
          codes "https://" ++ (host ++ (codes ":" ++ (f.show_port (or_port 443 port) ++ path)));
      http_versions = resolved_http_versions opts;
      resolver = or_system a f net opts.bootstrap;
      prefer_ipv6 = opts.prefer_ipv6;
      timeout = opts.timeout;
      insecure_skip_verify = opts.insecure_skip_verify;
      basic_auth_header = basic_auth opts.basic_auth;
    }

  module _ (lib : Http a net) where
    open lib use {parse_uri, build_request}

    -- the request for a URI, as `exchange_https` and `Http3Transport::exchange` build it
    unfoldable pub get_request : Text → Option Text → Result Get
    get_request uri auth = do
      parsed ← map_err (λ e. http (codes "building request uri: " ++ e)) (parse_uri uri)
      let req : Get = record { uri = uri; authorization = auth }
      built ← map_err (λ e. http (codes "building request: " ++ e)) (build_request req)
      ok req

-- ===== src/Doh/Client.antt =====
-- `DohUpstream::exchange` of src/client/doh.rs: the choice of the HTTP version, and the client or the
-- transport that is kept.
use dnsproxy_rs.Bootstrap.Dial.{resolve}
use dnsproxy_rs.Bootstrap.{Addresses}
use dnsproxy_rs.Client.Reuse
use dnsproxy_rs.Client.{Formats}
use dnsproxy_rs.Dns.{Hickory, Message, Codec}
use dnsproxy_rs.Doh.Http3
use dnsproxy_rs.Doh.Http3.{Transport, reset, probe_h3}
use dnsproxy_rs.Doh.Https.{create_client, first_client, exchange_https}
use dnsproxy_rs.Doh.{Http, DohUpstream}
use dnsproxy_rs.Doq.Client.{first_of}
use dnsproxy_rs.Error.{bootstrap, no_addresses, Result, ok, err, panic, ok_or}
use dnsproxy_rs.Exec.{Exec, done, lift, ◌>>=◌}
use dnsproxy_rs.Options.{HttpVersion, is_http3}
use dnsproxy_rs.Prelude.{
  Bool, true, false, not, ◌||◌, List, [], ◌∷◌, Option, none, some, if◌then◌else◌,
}
use dnsproxy_rs.Sockets.{Sockets, SocketAddr}
use dnsproxy_rs.Wire.{Base64}

-- `contains(&HttpVersion::Http3)`, and `http2_supported`
unfoldable pub allows_http3 : List HttpVersion → Bool
unfolding is_http3
allows_http3 [] = false
allows_http3 (v ∷ vs) = is_http3 v || allows_http3 vs

unfoldable pub http2_supported : List HttpVersion → Bool
unfolding is_http3
http2_supported [] = false
http2_supported (v ∷ vs) = not (is_http3 v) || http2_supported vs

module _ (a : Addresses) (f : Formats a) {W : Type 0} (net : Sockets a W) (lib : Http a net) where
  open lib use {Client}

  -- What the mutexes of an upstream hold.
  pub record Kept : Type 0 where
    pub client : Option Client
    pub h3 : Option (Transport a f net lib)
    pub prefer_h3 : Option Bool

  abbrev pub untouched : Kept
  untouched = record { client = none; h3 = none; prefer_h3 = none }

  unfoldable pub first_addr : DohUpstream a f net → Exec W (SocketAddr a)
  unfolding ◌>>=◌ resolve
  first_addr u = do
    addrs ← resolve a net u.timeout u.resolver u.host u.port u.prefer_ipv6
    lift (ok_or (bootstrap no_addresses) (first_of addrs))

  -- the probe, whose result is kept
  unfoldable pub probe :
      DohUpstream a f net → Result (SocketAddr a) × W → Kept → Result Bool × Kept × W
  unfolding probe_h3
  probe u (panic, w) k = (panic, k, w)
  probe u (err e, w) k = (err e, k, w)
  probe u (ok addr, w) k =
      let (prefer, w') = probe_h3 a f net lib u addr w in
      (ok prefer, record k { prefer_h3 = some prefer }, w')

  abbrev pub preferred_or : Option Bool → Kept → W → Result Bool × Kept × W → Result Bool × Kept × W
  preferred_or none k w probed = probed
  preferred_or (some prefer) k w probed = (ok prefer, k, w)

  unfoldable pub should_use_http3 : DohUpstream a f net → Kept → W → Result Bool × Kept × W
  unfolding allows_http3 http2_supported probe first_addr
  should_use_http3 u k w =
      if not (allows_http3 u.http_versions)
      then (ok false, k, w)
      else if not (http2_supported u.http_versions)
      then (ok true, k, w)
      else preferred_or k.prefer_h3 k w (probe u (first_addr u w) k)

  -- `get_h3_transport`, where there is none yet
  unfoldable pub new_transport : DohUpstream a f net → Exec W (Transport a f net lib)
  unfolding ◌>>=◌ first_addr
  new_transport u = do addr ← first_addr u; done (record { server_addr = addr; inner = none })

  abbrev pub renewed :
      {B : Type 0} → Result B × Transport a f net lib × W → Result (Transport a f net lib) × W
  renewed (panic, t, w) = (panic, w)
  renewed (err e, t, w) = (err e, w)
  renewed (ok s, t, w) = (ok t, w)

  module _ {h : Hickory} (c : Codec h) (b : Base64) where
    -- `exchange_h3`
    unfoldable pub exchange_h3 :
        DohUpstream a f net
        → Message h
        → Option (Transport a f net lib)
        → W
        → Result (Message h) × Option (Transport a f net lib) × W
    unfolding Reuse.exchange new_transport reset Http3.exchange
    exchange_h3 u req =
        Reuse.exchange (new_transport u) (λ t w. renewed (reset a f net lib u t w))
          (Http3.exchange a f net lib c b u req)

    abbrev pub attempt_https :
        DohUpstream a f net → Message h → Client → W → Result (Message h) × Client × W
    attempt_https u req client w =
        let (r, w') = exchange_https a f net lib c b u client req w in (r, client, w')

    -- the rest of `exchange`, with `get_client`, `reset_client` and `reset_client_ignore_err`
    unfoldable pub exchange_http :
        DohUpstream a f net → Message h → Option Client → W → Result (Message h) × Option Client × W
    unfolding Reuse.exchange first_client create_client exchange_https
    exchange_http u req =
        Reuse.exchange (first_client a f net lib u) (λ _. create_client a f net lib u)
          (attempt_https u req)

    abbrev over_http3 :
        Kept
        → Result (Message h) × Option (Transport a f net lib) × W
        → Result (Message h) × Kept × W
    over_http3 k (r, h3, w) = (r, record k { h3 = h3 }, w)

    abbrev over_https :
        Kept → Result (Message h) × Option Client × W → Result (Message h) × Kept × W
    over_https k (r, client, w) = (r, record k { client = client }, w)

    unfoldable pub exchange_by :
        DohUpstream a f net → Message h → Result Bool × Kept × W → Result (Message h) × Kept × W
    unfolding exchange_h3 exchange_http
    exchange_by u req (panic, k, w) = (panic, k, w)
    exchange_by u req (err e, k, w) = (err e, k, w)
    exchange_by u req (ok true, k, w) = over_http3 k (exchange_h3 u req k.h3 w)
    exchange_by u req (ok false, k, w) = over_https k (exchange_http u req k.client w)

    -- `DohUpstream::exchange`
    unfoldable pub exchange :
        DohUpstream a f net → Message h → Kept → W → Result (Message h) × Kept × W
    unfolding exchange_by should_use_http3
    exchange u req k w = exchange_by u req (should_use_http3 u k w)

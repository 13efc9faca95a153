-- ===== src/Doh/Https.antt =====
-- Requests over HTTP/1.1 and HTTP/2: `create_client` and `exchange_https` of src/client/doh.rs.
use dnsproxy_rs.Bootstrap.Dial.{Network, tcp, Conn, over_tcp, over_udp, resolve_dial_context}
use dnsproxy_rs.Bootstrap.{Addresses}
use dnsproxy_rs.Client.Plain.{within}
use dnsproxy_rs.Client.{Formats}
use dnsproxy_rs.Dns.{Hickory, Message, Codec}
use dnsproxy_rs.Doh.{Reply, Http, is_success, DohUpstream, get_request}
use dnsproxy_rs.Error.{
  http, unexpected_status, no_supported_versions, timeout, Result, ok, err, panic,
}
use dnsproxy_rs.Exec.{Exec, lift, ◌>>=◌, call, map_err, timed}
use dnsproxy_rs.Io.{Bytes}
use dnsproxy_rs.Options.{HttpVersion, alpn, is_http3}
use dnsproxy_rs.Prelude.Text.{Text, codes}
use dnsproxy_rs.Prelude.{
  ℕ, ◌-◌, not, List, [], ◌∷◌, ◌++◌, Option, none, some, ltb, if◌then◌else◌, length,
}
use dnsproxy_rs.Sockets.{Sockets}
use dnsproxy_rs.Wire.{Base64, encode_request, decode_response}

-- the protocols offered: those of the versions other than HTTP/3
unfoldable pub alpns : List HttpVersion → List Text
unfolding alpn is_http3
alpns [] = []
alpns (v ∷ vs) = if is_http3 v then alpns vs else alpn v ∷ alpns vs

abbrev pub some_protocols : List Text → Result (List Text)
some_protocols [] = err no_supported_versions
some_protocols (p ∷ ps) = ok (p ∷ ps)

-- the whole body, where all of it arrives
abbrev pub prepend : Bytes → Result Bytes → Result Bytes
prepend chunk panic = panic
prepend chunk (err e) = err e
prepend chunk (ok rest) = ok (chunk ++ rest)

unfoldable pub collected : List Bytes → Option Text → Result Bytes
collected [] none = ok []
collected [] (some e) = err (http (codes "reading body: " ++ e))
collected (chunk ∷ chunks) broken = prepend chunk (collected chunks broken)

module _ (a : Addresses) (f : Formats a) {W : Type 0} (net : Sockets a W) (lib : Http a net) where
  open net use {Stream, expires, server_name, handshake}
  open lib use {now, Client, build_client, request}

  abbrev tls_stream : DohUpstream a f net → List Text → Conn a net → Exec W Stream
  tls_stream u protocols (over_udp s addr) = lift (err (http (codes "expected tcp connection")))
  tls_stream u protocols (over_tcp s) = do
    name ← lift (map_err (λ e. http (codes "invalid server name: " ++ e)) (server_name u.host))
    call (λ e. http (codes "tls handshake failed: " ++ e))
        (handshake u.insecure_skip_verify protocols u.host s)

  -- `HttpsConnector::call`
  unfoldable pub connect :
      DohUpstream a f net → List Text → (Network → Exec W (Conn a net)) → Exec W Stream
  unfolding ◌>>=◌ call
  connect u protocols dial = do conn ← dial tcp; tls_stream u protocols conn

  abbrev built : Exec W Stream → Exec W Client
  built connector w = let (client, w') = build_client connector w in (ok client, w')

  -- `create_client`
  unfoldable pub create_client : DohUpstream a f net → Exec W Client
  unfolding ◌>>=◌ resolve_dial_context alpns connect
  create_client u = do
    dial ← resolve_dial_context a net u.timeout u.resolver u.host u.port u.prefer_ipv6
    protocols ← lift (some_protocols (alpns u.http_versions))
    built (connect u protocols dial)

  -- the check that `get_client` makes of the time that went by
  abbrev in_time : Option ℕ → Client → ℕ → Result Client
  in_time none client elapsed = ok client
  in_time (some t) client elapsed = if ltb t elapsed then err (timeout elapsed) else ok client

  -- `get_client`, where there is none yet
  unfoldable pub first_client : DohUpstream a f net → Exec W Client
  unfolding ◌>>=◌ create_client
  first_client u w =
      (create_client u >>= λ client w'. (in_time u.timeout client (now w' - now w), w')) w

  module _ {h : Hickory} (c : Codec h) (b : Base64) where
    -- behind the response: the body is read before the status is looked at
    unfoldable pub accept_reply : DohUpstream a f net → Message h → ℕ → Reply → Exec W (Message h)
    unfolding ◌>>=◌ collected decode_response is_success
    accept_reply u req original_id reply = do
      body ← lift (collected reply.chunks reply.broken)
      lift (
          if not (is_success reply.status)
          then err (unexpected_status reply.status u.addr_redacted)
          else if ltb 65_535 (length body)
          then err (http (codes "response body too large"))
          else decode_response c body req original_id)

    -- `exchange_https`
    unfoldable pub exchange_https : DohUpstream a f net → Client → Message h → Exec W (Message h)
    unfolding ◌>>=◌ call timed accept_reply get_request encode_request
    exchange_https u client req = do
      (encoded, original_id) ← lift (encode_request c b req)
      let uri =
          codes "https://"
          ++ (u.host
              ++ (codes ":" ++ (f.show_port u.port ++ (u.path ++ (codes "?dns=" ++ encoded)))))
      http_req ← lift (get_request a f net lib uri u.basic_auth_header)
      reply ← within expires u.timeout (call http (request client http_req))
      accept_reply u req original_id reply

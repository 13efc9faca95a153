-- ===== src/Doh/Http3.antt =====
-- Requests over HTTP/3: src/client/doh3.rs. A transport is the address of its server and the sender
-- that its mutex holds; its other fields are those of the upstream that made it.
use dnsproxy_rs.Bootstrap.{Addresses}
use dnsproxy_rs.Client.Plain.{within}
use dnsproxy_rs.Client.{Formats}
use dnsproxy_rs.Dns.{Hickory, Message, Codec}
use dnsproxy_rs.Doh.{Reply, Http, is_success, DohUpstream, get_request}
use dnsproxy_rs.Error.{http, io, quic, unexpected_status, Result, ok, err, panic, is_ok}
use dnsproxy_rs.Exec.{Exec, done, lift, ◌>>=◌, call, map_err, timed}
use dnsproxy_rs.Io.{Bytes}
use dnsproxy_rs.Prelude.Text.{Text, codes}
use dnsproxy_rs.Prelude.{
  ℕ, Bool, false, not, List, [], ◌∷◌, ◌++◌, ◌⊎◌, inl, inr, Option, none, some, ltb, if◌then◌else◌,
  length,
}
use dnsproxy_rs.Sockets.{Sockets, SocketAddr}
use dnsproxy_rs.Wire.{Base64, encode_request, decode_response}

-- the loop over the chunks of the body, which has a limit
unfoldable pub collect_up_to : ℕ → Text → Bytes → List Bytes → Option Text → Result Bytes
collect_up_to limit too_large body [] none = ok body
collect_up_to limit too_large body [] (some e) = err (quic e)
collect_up_to limit too_large body (chunk ∷ chunks) broken =
    let rest = collect_up_to limit too_large (body ++ chunk) chunks broken in
    if ltb limit (length (body ++ chunk)) then err (http too_large) else rest

module _ (a : Addresses) (f : Formats a) {W : Type 0} (net : Sockets a W) (lib : Http a net) where
  open net use {Quic, expires, connect_tcp, connect_quic, server_name, handshake}
  open lib use {Sender, open_h3, request_h3, select}

  -- `Http3Transport`
  pub record Transport : Type 0 where
    pub server_addr : SocketAddr a
    pub inner : Option Sender

  -- `dial_quic`, with a configuration for a list of application protocols
  unfoldable pub dial_quic : Bool → List Text → SocketAddr a → Text → Exec W Quic
  unfolding call
  dial_quic insecure protocols addr host = call quic (connect_quic insecure protocols addr host)

  -- `connect`
  unfoldable pub connect : DohUpstream a f net → SocketAddr a → Exec W Sender
  unfolding ◌>>=◌ call dial_quic
  connect u addr = do
    conn ← dial_quic u.insecure_skip_verify (codes "h3" ∷ []) addr u.host
    call quic (open_h3 conn)

  abbrev keep_sender : Transport → Result Sender → W → Result Sender × Transport × W
  keep_sender t panic w = (panic, t, w)
  keep_sender t (err e) w = (err e, t, w)
  keep_sender t (ok s) w = (ok s, record t { inner = some s }, w)

  -- `reset`
  unfoldable pub reset : DohUpstream a f net → Transport → W → Result Sender × Transport × W
  unfolding connect
  reset u t w = let (r, w') = connect u t.server_addr w in keep_sender t r w'

  abbrev sender_or :
      Option Sender → Transport → W → Result Sender × Transport × W → Result Sender × Transport × W
  sender_or none t w made = made
  sender_or (some s) t w made = (ok s, t, w)

  -- `get_sender`
  unfoldable pub get_sender : DohUpstream a f net → Transport → W → Result Sender × Transport × W
  unfolding reset
  get_sender u t w = sender_or t.inner t w (reset u t w)

  module _ {h : Hickory} (c : Codec h) (b : Base64) where
    -- the body of a reply, unless the status says that it failed
    unfoldable pub body_of : DohUpstream a f net → Reply → Result Bytes
    unfolding collect_up_to is_success
    body_of u reply =
        if not (is_success reply.status)
        then err (unexpected_status reply.status u.host)
        else collect_up_to 65_535 (codes "response body too large") [] reply.chunks reply.broken

    -- `exchange`, behind `get_sender`
    unfoldable pub ask : DohUpstream a f net → Message h → Sender → Exec W (Message h)
    unfolding ◌>>=◌ call timed body_of get_request encode_request decode_response
    ask u req sender = do
      (encoded, original_id) ← lift (encode_request c b req)
      let uri = codes "https://" ++ (u.host ++ (u.path ++ (codes "?dns=" ++ encoded)))
      http_req ← lift (get_request a f net lib uri u.basic_auth_header)
      body ←
          within expires u.timeout
            (do reply ← call quic (request_h3 sender http_req); lift (body_of u reply))
      lift (decode_response c body req original_id)

    abbrev pub ask_with :
        DohUpstream a f net
        → Message h
        → Result Sender × Transport × W
        → Result (Message h) × Transport × W
    ask_with u req (panic, t, w) = (panic, t, w)
    ask_with u req (err e, t, w) = (err e, t, w)
    ask_with u req (ok sender, t, w) = let (r, w') = ask u req sender w in (r, t, w')

    -- `Http3Transport::exchange`
    unfoldable pub exchange :
        DohUpstream a f net → Message h → Transport → W → Result (Message h) × Transport × W
    unfolding ask get_sender
    exchange u req t w = ask_with u req (get_sender u t w)

  -- `probe_tls`, which always verifies the certificate
  unfoldable pub probe_tls : SocketAddr a → Text → Exec W (Unit {0})
  unfolding ◌>>=◌ call
  probe_tls addr host = do
    tcp ← call (λ _. io) (connect_tcp addr)
    name ← lift (map_err (λ e. http (codes "invalid server name: " ++ e)) (server_name host))
    tls ← call http (handshake false [] host tcp)
    done tt

  -- the race: the handshake over QUIC must end first and succeed, or that over TLS first and fail
  abbrev pub prefers_quic : Result Quic ⊎ Result (Unit {0}) → Bool
  prefers_quic (inl quic_probe) = is_ok quic_probe
  prefers_quic (inr tls_probe) = not (is_ok tls_probe)

  -- the two probes of an upstream, as `should_use_http3` configures them: QUIC with the protocol h2
  unfoldable pub first_probe :
      DohUpstream a f net → SocketAddr a → W → (Result Quic ⊎ Result (Unit {0})) × W
  unfolding dial_quic probe_tls
  first_probe u addr =
      select (dial_quic u.insecure_skip_verify (codes "h2" ∷ []) addr u.host)
        (probe_tls addr u.host)

  abbrev pub raced : DohUpstream a f net → SocketAddr a → Exec W Bool
  raced u addr w = let (first, w') = first_probe u addr w in (ok (prefers_quic first), w')

  abbrev pub or_false : Result Bool × W → Bool × W
  or_false (ok b, w) = (b, w)
  or_false (r, w) = (false, w)

  -- `probe_h3`, where HTTP/2 is supported too
  unfoldable pub probe_h3 : DohUpstream a f net → SocketAddr a → W → Bool × W
  unfolding timed first_probe
  probe_h3 u addr w = or_false (within expires u.timeout (raced u addr) w)

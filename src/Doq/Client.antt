-- ===== src/Doq/Client.antt =====
-- `DoqUpstream`: src/client/doq.rs. The mutex holds a connection or none.
use dnsproxy_rs.Bootstrap.Dial.{resolve}
use dnsproxy_rs.Bootstrap.{Addresses}
use dnsproxy_rs.Client.Plain.{within}
use dnsproxy_rs.Client.Reuse
use dnsproxy_rs.Client.{Formats, SecureUpstream, request_bytes}
use dnsproxy_rs.Dns.{Hickory, Message, Codec}
use dnsproxy_rs.Doq.{read_framed}
use dnsproxy_rs.Error.{bootstrap, no_addresses, quic, Result, ok_or}
use dnsproxy_rs.Exec.{Exec, lift, ◌>>=◌, call, timed}
use dnsproxy_rs.Io.Framing.{frame}
use dnsproxy_rs.Io.{Bytes}
use dnsproxy_rs.Prelude.Text.{codes}
use dnsproxy_rs.Prelude.{List, [], ◌∷◌, Option, none, some}
use dnsproxy_rs.Sockets.{Sockets}
use dnsproxy_rs.Wire.{decode_response}

abbrev pub first_of : {A : Type 0} → List A → Option A
first_of [] = none
first_of (x ∷ xs) = some x

module _ (a : Addresses) (f : Formats a) {W : Type 0} (net : Sockets a W) where
  open net use {Quic, expires, connect_quic, converse_quic, finished_early}

  -- `DoqUpstream::dial`
  unfoldable pub dial : SecureUpstream a f net → Exec W Quic
  unfolding ◌>>=◌ call resolve
  dial u = do
    addrs ← resolve a net u.tcp.timeout u.tcp.resolver u.tcp.host u.tcp.port u.tcp.prefer_ipv6
    addr ← lift (ok_or (bootstrap no_addresses) (first_of addrs))
    call quic (connect_quic u.insecure_skip_verify (codes "doq" ∷ []) addr u.tcp.host)

  module _ {h : Hickory} (c : Codec h) where
    -- one stream of a connection
    unfoldable pub query_stream : Quic → Message h → Bytes → Exec W (Message h)
    unfolding ◌>>=◌ call read_framed decode_response
    query_stream conn req req_bytes = do
      sent ← call quic (converse_quic conn (frame req_bytes))
      resp_bytes ← lift (read_framed finished_early sent)
      lift (decode_response c resp_bytes req req.id)

    -- `DoqUpstream::exchange_on`
    unfoldable pub exchange_on : SecureUpstream a f net → Quic → Message h → Exec W (Message h)
    unfolding ◌>>=◌ timed query_stream request_bytes
    exchange_on u conn req = do
      req_bytes ← lift (request_bytes c (record req { id = 0 }))
      within expires u.tcp.timeout (query_stream conn req req_bytes)

    -- an attempt, which leaves the connection as it is
    abbrev pub attempt :
        SecureUpstream a f net → Message h → Quic → W → Result (Message h) × Quic × W
    attempt u req conn w = let (r, w') = exchange_on u conn req w in (r, conn, w')

    -- `DoqUpstream::exchange`, with `get_conn` and `reset_conn`
    unfoldable pub exchange :
        SecureUpstream a f net → Message h → Option Quic → W → Result (Message h) × Option Quic × W
    unfolding Reuse.exchange dial exchange_on
    exchange u req = Reuse.exchange (dial u) (λ _. dial u) (attempt u req)

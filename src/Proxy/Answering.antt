-- ===== src/Proxy/Answering.antt =====
-- From the packet of a client to the upstreams and back, without the cache.
use mathlib.Core.List.{Perm}
use dnsproxy_rs.Bootstrap.{Addresses}
use dnsproxy_rs.Client.Dispatch as Dispatch
use dnsproxy_rs.Client.Dispatch.Answering as DispatchAnswering
use dnsproxy_rs.Client.{Formats}
use dnsproxy_rs.Dns.{Hickory, Message, Codec}
use dnsproxy_rs.Dnscrypt.Client as DnscryptClient
use dnsproxy_rs.Dnscrypt.{Crypto}
use dnsproxy_rs.Doh.{Http}
use dnsproxy_rs.Error.{Result, ok}
use dnsproxy_rs.Io.Framing.{Sent, handle_udp_packet-Sent}
use dnsproxy_rs.Io.{Bytes, handle_udp_packet}
use dnsproxy_rs.Prelude.Text.{Text}
use dnsproxy_rs.Prelude.{ℕ, ◌≡◌, List, ap}
use dnsproxy_rs.Sockets.{Sockets, SocketAddr}
use dnsproxy_rs.Upstream.{Floats, Tracked, Latencies}
use dnsproxy_rs.UpstreamConfig.Exchange.Outcome.{exchange-sound}
use dnsproxy_rs.UpstreamConfig.Exchange.{handle}
use dnsproxy_rs.UpstreamConfig.{Config}
use dnsproxy_rs.Wire.Laws.{Answers}
use dnsproxy_rs.Wire.{Base64}

module _ (a : Addresses) (f : Formats a) {W : Type 0} (net : Sockets a W) (lib : Http a net)
    (cr : Crypto) (dnscrypt_net : SocketAddr a → Text → DnscryptClient.Network cr W) {h : Hickory}
    (c : Codec h) (b : Base64) (to_ascii : h.Name → Text) (fl : Floats) where
  -- the upstreams, and what they keep beside the world
  abbrev pub Up : Type 0
  Up = Dispatch.Upstream a f net lib cr dnscrypt_net

  abbrev pub World : Type 0
  World = Dispatch.Held a f net lib cr dnscrypt_net × W

  -- the state of the proxy's handler
  abbrev pub Served : Type 0
  Served = Config Up × (Latencies × World)

  module _ (elapsed : Tracked Up → World → ℕ) (shuffle : List (Tracked Up) → List (Tracked Up))
      (shuffled : (us : List (Tracked Up)) → Perm (shuffle us) us) where
    abbrev pub handler : Message h → Served → Result (Message h) × Served
    handler = handle to_ascii fl (Dispatch.exchange a f net lib cr dnscrypt_net c b) elapsed shuffle

    pub handler-Answers :
        (req resp : Message h) (s : Served) → (handler req s).0 ≡ ok resp → Answers req resp
    unfolding handle
    handler-Answers req resp (config, (l, w)) e =
        exchange-sound to_ascii fl (Dispatch.exchange a f net lib cr dnscrypt_net c b) elapsed
          shuffle shuffled config req l w (Answers req)
          (λ u w m e.
            DispatchAnswering.exchange-Answers a f net lib cr dnscrypt_net c b u req m w e)
          resp e

    -- If shuffle permutes: what the plain listener sends for a UDP packet, without the cache and over
    -- whatever upstreams, is the packed response to the query in the packet, or its truncation if that
    -- takes more than 512 bytes, and that response answers the query.
    pub handle_udp_packet-Answers :
        (packet bytes : Bytes) (s s' : Served)
        → handle_udp_packet c handler packet s ≡ (ok bytes, s')
        → (sent : Sent c handler packet s bytes s') × Answers sent.req sent.resp
    handle_udp_packet-Answers packet bytes s s' e =
        let sent = handle_udp_packet-Sent c handler packet s e in
        (sent, handler-Answers sent.req sent.resp s (ap (λ r. r.0) sent.handled))

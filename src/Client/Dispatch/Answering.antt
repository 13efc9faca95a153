-- ===== src/Client/Dispatch/Answering.antt =====
-- Whatever upstream a response comes from, it answers the request.
use dnsproxy_rs.Bootstrap.{Addresses}
use dnsproxy_rs.Client.Dispatch.{
  Upstream, doh, dot, doq, dns_crypt, plain_udp, plain_tcp, Held, exchange,
}
use dnsproxy_rs.Client.Plain.Answering.{
  exchange_udp-Answers, exchange_tcp-Answers, exchange_dot-Answers,
}
use dnsproxy_rs.Client.{Formats}
use dnsproxy_rs.Dns.{Hickory, Message, Codec}
use dnsproxy_rs.Dnscrypt.Client as DnscryptClient
use dnsproxy_rs.Dnscrypt.Client.Safe as DnscryptSafe
use dnsproxy_rs.Dnscrypt.{Crypto}
use dnsproxy_rs.Doh.Kept as DohKept
use dnsproxy_rs.Doh.{Http}
use dnsproxy_rs.Doq.Kept as DoqKept
use dnsproxy_rs.Error.{ok}
use dnsproxy_rs.Prelude.Text.{Text}
use dnsproxy_rs.Prelude.{◌≡◌}
use dnsproxy_rs.Sockets.{Sockets, SocketAddr}
use dnsproxy_rs.Wire.Laws.{Answers}
use dnsproxy_rs.Wire.{Base64}

module _ (a : Addresses) (f : Formats a) {W : Type 0} (net : Sockets a W) (lib : Http a net)
    (cr : Crypto) (dnscrypt_net : SocketAddr a → Text → DnscryptClient.Network cr W) {h : Hickory}
    (c : Codec h) (b : Base64) where
  pub exchange-Answers :
      (u : Upstream a f net lib cr dnscrypt_net) (req resp : Message h)
      (s : Held a f net lib cr dnscrypt_net × W)
      → (exchange a f net lib cr dnscrypt_net c b u req s).0 ≡ ok resp
      → Answers req resp
  unfolding exchange
  exchange-Answers (doh i u) req resp (s, w) e =
      (DohKept.exchange-Replies a f net lib c b u req (s.of_doh i) w resp e).fits
  exchange-Answers (dot u) req resp (s, w) e = (exchange_dot-Answers a f net c u req).at w e
  exchange-Answers (doq i u) req resp (s, w) e =
      (DoqKept.exchange-Replies a f net c u req (s.of_doq i) w resp e).fits
  exchange-Answers (dns_crypt i u) req resp (s, w) e =
      DnscryptSafe.exchange-Answers cr (dnscrypt_net u.server_addr u.provider_name)
        u.provider_public_key c u.timeout req (s.of_dns_crypt i) w e
  exchange-Answers (plain_udp u) req resp (s, w) e = (exchange_udp-Answers a f net c u req).at w e
  exchange-Answers (plain_tcp u) req resp (s, w) e = (exchange_tcp-Answers a f net c u req).at w e

-- ===== src/Client/Dispatch.antt =====
-- The enum `Upstream` of src/client/upstream.rs, which asks the client of its transport. What the
-- clients keep is told apart by the number of their allocation.
pub mod Answering
use dnsproxy_rs.Bootstrap.{Addresses}
use dnsproxy_rs.Client.Plain.{exchange_udp, exchange_tcp, exchange_dot}
use dnsproxy_rs.Client.{Formats, PlainUdpUpstream, PlainTcpUpstream, SecureUpstream}
use dnsproxy_rs.Dns.{Hickory, Message, Codec}
use dnsproxy_rs.Dnscrypt.Client as DnscryptClient
use dnsproxy_rs.Dnscrypt.Frames.{Certificate}
use dnsproxy_rs.Dnscrypt.{Crypto}
use dnsproxy_rs.Doh.Client as DohClient
use dnsproxy_rs.Doh.{Http, DohUpstream}
use dnsproxy_rs.Doq.Client as DoqClient
use dnsproxy_rs.Error.{Result}
use dnsproxy_rs.Io.{Bytes}
use dnsproxy_rs.Prelude.Text.{Text}
use dnsproxy_rs.Prelude.{ℕ, Option, none, ◌==◌, if◌then◌else◌}
use dnsproxy_rs.Sockets.{Sockets, SocketAddr}
use dnsproxy_rs.Wire.{Base64}

abbrev pub set_at : {A : Type 0} → (ℕ → A) → ℕ → A → ℕ → A
set_at g i x j = if i == j then x else g j

module _ (a : Addresses) (f : Formats a) {W : Type 0} (net : Sockets a W) (lib : Http a net)
    (cr : Crypto) (dnscrypt_net : SocketAddr a → Text → DnscryptClient.Network cr W) where
  -- `DnsCryptStamp`, as far as the client uses it
  pub record DnsCryptUpstream : Type 0 where
    pub server_addr : SocketAddr a
    pub provider_name : Text
    pub provider_public_key : Bytes
    pub timeout : Option ℕ

  pub data Upstream : Type 0 where
    doh : ℕ → DohUpstream a f net → Upstream
    dot : SecureUpstream a f net → Upstream
    doq : ℕ → SecureUpstream a f net → Upstream
    dns_crypt : ℕ → DnsCryptUpstream → Upstream
    plain_udp : PlainUdpUpstream a f net → Upstream
    plain_tcp : PlainTcpUpstream a f net → Upstream

  -- What the upstreams keep between exchanges.
  pub record Held : Type 0 where
    pub of_doh : ℕ → DohClient.Kept a f net lib
    pub of_doq : ℕ → Option net.Quic
    pub of_dns_crypt : ℕ → Option Certificate

  -- before the first exchange
  abbrev pub nothing_held : Held
  nothing_held = record {
    of_doh = λ i. DohClient.untouched a f net lib;
    of_doq = λ i. none;
    of_dns_crypt = λ i. none;
  }

  module _ {h : Hickory} (c : Codec h) (b : Base64) where
    -- `Upstream::exchange`
    unfoldable pub exchange : Upstream → Message h → Held × W → Result (Message h) × (Held × W)
    unfolding DohClient.exchange DoqClient.exchange DnscryptClient.exchange exchange_udp
        exchange_tcp exchange_dot
    exchange (doh i u) req (s, w) =
        let (r, kept, w') = DohClient.exchange a f net lib c b u req (s.of_doh i) w in
        (r, (record s { of_doh = set_at s.of_doh i kept }, w'))
    exchange (dot u) req (s, w) = let (r, w') = exchange_dot a f net c u req w in (r, (s, w'))
    exchange (doq i u) req (s, w) =
        let (r, kept, w') = DoqClient.exchange a f net c u req (s.of_doq i) w in
        (r, (record s { of_doq = set_at s.of_doq i kept }, w'))
    exchange (dns_crypt i u) req (s, w) =
        let (r, kept, w') =
          DnscryptClient.exchange cr (dnscrypt_net u.server_addr u.provider_name)
            u.provider_public_key c u.timeout req (s.of_dns_crypt i) w in
        (r, (record s { of_dns_crypt = set_at s.of_dns_crypt i kept }, w'))
    exchange (plain_udp u) req (s, w) = let (r, w') = exchange_udp a f net c u req w in (r, (s, w'))
    exchange (plain_tcp u) req (s, w) = let (r, w') = exchange_tcp a f net c u req w in (r, (s, w'))

-- ===== src/Tests/Networked.antt =====
-- Sockets whose peers always answer with the packed reply, and the crates around them. An address is
-- a number, and those above 100 are of the family IPv6; the world counts the calls.
use dnsproxy_rs.Bootstrap.Dial.{Resolver}
use dnsproxy_rs.Bootstrap.{Addresses}
use dnsproxy_rs.Client.{Formats}
use dnsproxy_rs.Dns.{Message}
use dnsproxy_rs.Doh.{Http, Reply, DohUpstream}
use dnsproxy_rs.Error.{Result, ok}
use dnsproxy_rs.Options.{http2, http3}
use dnsproxy_rs.Prelude.Text.{Text, codes}
use dnsproxy_rs.Prelude.{
  ℕ, suc, true, false, [], ◌∷◌, none, some, ◌⊎◌, inl, inr, ltb, refl, if◌then◌else◌,
}
use dnsproxy_rs.Sockets.{Sockets}
use dnsproxy_rs.Tests.{names, reply}
use dnsproxy_rs.Wire.{Base64}

abbrev pub numbers : Addresses
numbers = record { IpAddr = ℕ; is_ipv6 = λ ip. ltb 100 ip; parse_ip = λ host. none }

abbrev pub formats : Formats numbers
formats = record {
  is_ipv6_addr = λ host. false;
  show_port = λ port. port ∷ [];
  show_addr = λ addr. addr.0 ∷ [];
}

-- The peer's answer is a frame of one byte. The addresses of IPv6 cannot be reached.
abbrev reached : ℕ → ℕ → (Text ⊎ ℕ) × ℕ
reached ip w = (if ltb 100 ip then inl (codes "unreachable") else inr ip, suc w)

abbrev pub sockets : Sockets numbers ℕ
sockets = record {
  Stream = ℕ;
  Datagrams = ℕ;
  Quic = ℕ;
  expires = λ d w. none;
  lookup_host = λ host w. (inr (1 ∷ 201 ∷ 2 ∷ []), suc w);
  connect_tcp = λ addr w. reached addr.0 w;
  connect_udp = λ addr w. reached addr.0 w;
  send_recv = λ s bytes w. (inr (2 ∷ []), suc w);
  converse = λ s bytes w. (inr (0 ∷ 1 ∷ 2 ∷ []), suc w);
  server_name = λ host. inr tt;
  handshake = λ insecure protocols host s w. (inr s, suc w);
  connect_quic = λ insecure protocols addr host w. (inr 5, suc w);
  converse_quic = λ q bytes w. (inr (0 ∷ 1 ∷ 2 ∷ []), suc w);
  finished_early = λ n. [];
}

abbrev two_chunks : Reply
two_chunks = record { status = 200; chunks = (2 ∷ []) ∷ [] ∷ []; broken = none }

-- over HTTP, a peer of which QUIC wins the race
abbrev pub http : Http numbers sockets
http = record {
  now = λ w. w;
  Client = ℕ;
  build_client = λ connector w. (9, suc w);
  parse_uri = λ uri. inr tt;
  build_request = λ req. inr tt;
  request = λ client req w. (inr two_chunks, suc w);
  Sender = ℕ;
  open_h3 = λ q w. (inr q, suc w);
  request_h3 = λ s req w. (inr two_chunks, suc w);
  select = λ quic tls w. let (r, w') = quic w in (inl r, w');
}

abbrev pub fixed : Resolver numbers sockets
fixed host w = (ok (1 ∷ 201 ∷ 2 ∷ []), suc w)

abbrev pub doh_upstream : DohUpstream numbers formats sockets
doh_upstream = record {
  host = codes "dns.example";
  port = 443;
  path = codes "/dns-query";
  addr_redacted = codes "https://dns.example:443/dns-query";
  http_versions = http2 ∷ http3 ∷ [];
  resolver = fixed;
  prefer_ipv6 = true;
  timeout = none;
  insecure_skip_verify = false;
  basic_auth_header = none;
}

-- a handler that counts its queries
abbrev pub counting : Message names → ℕ → Result (Message names) × ℕ
counting req n = (ok (reply req.id), suc n)

abbrev pub plain_base64 : Base64
plain_base64 = record {
  encode = λ bytes. bytes;
  decode = λ bytes. some bytes;
  decode-encode = λ bytes. refl;
}

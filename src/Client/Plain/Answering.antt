-- ===== src/Client/Plain/Answering.antt =====
-- What the clients that dial for every exchange return.
use dnsproxy_rs.Bootstrap.{Addresses}
use dnsproxy_rs.Client.Plain.{within, exchange_udp, exchange_on, exchange_tcp, exchange_dot}
use dnsproxy_rs.Client.{Formats, PlainUdpUpstream, PlainTcpUpstream, SecureUpstream, accepted}
use dnsproxy_rs.Dns.{Hickory, Message, Codec}
use dnsproxy_rs.Error.{ok, ◌>>◌, >>=-eq-ok, >>-eq-ok}
use dnsproxy_rs.Exec.Yields.{Yields, lift-Yields, >>=-Yields, timed-Yields}
use dnsproxy_rs.Exec.{Exec}
use dnsproxy_rs.Io.{Bytes}
use dnsproxy_rs.Prelude.{ℕ, ◌≡◌, Option, none, some, subst}
use dnsproxy_rs.Sockets.{Sockets}
use dnsproxy_rs.Wire.Laws.{Answers, validate_response_iff}
use dnsproxy_rs.Wire.{validate_response}

module _ {h : Hickory} (c : Codec h) where
  pub accepted-Answers :
      (req : Message h) (bytes : Bytes) (m : Message h)
      → accepted c req bytes ≡ ok m
      → Answers req m
  unfolding accepted
  accepted-Answers req bytes m e =
      let (resp, decoded, last) = >>=-eq-ok _ (λ resp. validate_response req resp >> ok resp) e in
      let (valid, same) = >>-eq-ok (validate_response req resp) (ok resp) last in
      let it : resp ≡ m = cc same in
      subst (Answers req) it ((validate_response_iff req resp).0 valid)

module _ {W A : Type 0} {P : A → Type 0} where
  pub within-Yields :
      (expires : ℕ → W → Option W) (limit : Option ℕ) (m : Exec W A)
      → Yields P m
      → Yields P (within expires limit m)
  within-Yields expires none m p = p
  within-Yields expires (some d) m p = timed-Yields expires _ (some d) m p

module _ (a : Addresses) (f : Formats a) {W : Type 0} (net : Sockets a W) {h : Hickory}
    (c : Codec h) where
  pub exchange_udp-Answers :
      (u : PlainUdpUpstream a f net) (req : Message h)
      → Yields (Answers req) (exchange_udp a f net c u req)
  unfolding exchange_udp
  exchange_udp-Answers u req =
      search (>>=-Yields, within-Yields, lift-Yields, accepted-Answers c req) depth 9

  exchange_on-Answers :
      (stream : net.Stream) (req : Message h) (bytes : Bytes)
      → Yields (Answers req) (exchange_on a f net c stream req bytes)
  unfolding exchange_on
  exchange_on-Answers stream req bytes =
      search (>>=-Yields, lift-Yields, accepted-Answers c req) depth 9

  pub exchange_tcp-Answers :
      (u : PlainTcpUpstream a f net) (req : Message h)
      → Yields (Answers req) (exchange_tcp a f net c u req)
  unfolding exchange_tcp
  exchange_tcp-Answers u req = search (>>=-Yields, within-Yields, exchange_on-Answers) depth 9

  pub exchange_dot-Answers :
      (u : SecureUpstream a f net) (req : Message h)
      → Yields (Answers req) (exchange_dot a f net c u req)
  unfolding exchange_dot
  exchange_dot-Answers u req = search (>>=-Yields, within-Yields, exchange_on-Answers) depth 9

-- ===== src/Bootstrap/Queries.antt =====
-- `PlainResolver` and `DohResolver` of src/client/bootstrap.rs: the queries for A and AAAA. The two of
-- a lookup, which `join!` runs at once, leave the world one after the other.
pub mod Found
use dnsproxy_rs.Bootstrap.Dial.{Resolver}
use dnsproxy_rs.Bootstrap.{Addresses, join_answers}
use dnsproxy_rs.Client.{Formats}
use dnsproxy_rs.Dns.{Hickory, Query, Record, Message, Codec}
use dnsproxy_rs.Doh.Client as DohClient
use dnsproxy_rs.Doh.Client.{Kept}
use dnsproxy_rs.Doh.{Http, DohUpstream}
use dnsproxy_rs.Error.{
  bootstrap, invalid_name, packing, dialing, unpacking_answer, resolving_timed_out, Result, ok, err,
  panic, ok_or,
}
use dnsproxy_rs.Exec.{Exec, done, lift, ◌>>=◌, call, map_err, timed}
use dnsproxy_rs.Prelude.Text.{Text}
use dnsproxy_rs.Prelude.{ℕ, List, [], ◌∷◌, Option, none, some, ◌⊎◌, take}
use dnsproxy_rs.Sockets.{Sockets, SocketAddr}
use dnsproxy_rs.Wire.{Base64}

-- What the resolvers use of hickory_proto and rand.
pub record Lookups (a : Addresses) (h : Hickory) (W : Type 0) : Type 0 where
  -- `Name::from_ascii`
  pub from_ascii : Text → Text ⊎ h.Name
  -- `rand::random`
  pub draw_id : W → ℕ × W
  -- `Message::new` of a query that desires recursion
  pub new_query : ℕ → Message h
  -- `RData::ip_addr`
  pub ip_addr : h.Data → Option a.IpAddr

-- `RecordType::A` and `RecordType::AAAA`
abbrev pub type_a : ℕ
type_a = 1

abbrev pub type_aaaa : ℕ
type_aaaa = 28

module _ (a : Addresses) {W : Type 0} (net : Sockets a W) {h : Hickory} (lib : Lookups a h W) where
  open a use {IpAddr}
  open net use {expires, connect_udp, send_recv}
  open lib use {from_ascii, draw_id, new_query, ip_addr}

  -- the addresses in the answers
  abbrev pub found_too : Option IpAddr → List IpAddr → List IpAddr
  found_too none ips = ips
  found_too (some ip) ips = ip ∷ ips

  unfoldable pub addresses : List (Record h) → List IpAddr
  addresses [] = []
  addresses (rec ∷ recs) = found_too (ip_addr rec.rdata) (addresses recs)

  abbrev drawn : Exec W ℕ
  drawn w = let (id, w') = draw_id w in (ok id, w')

  -- the request for a host and a record type
  unfoldable pub new_request : Text → ℕ → Exec W (Message h)
  unfolding ◌>>=◌
  new_request host qtype = do
    name ← lift (map_err (λ e. bootstrap (invalid_name e)) (from_ascii host))
    id ← drawn
    let q : Query h = record { name = name; query_type = qtype; query_class = 1 }
    let msg : Message h = record (new_query id) { queries = q ∷ [] }
    done msg

  module _ (c : Codec h) where
    -- the exchange with the server, over UDP
    unfoldable pub ask_addresses : SocketAddr a → List ℕ → Exec W (List IpAddr)
    unfolding ◌>>=◌ call addresses
    ask_addresses addr req_bytes = do
      sock ← call (λ e. bootstrap (dialing e)) (connect_udp addr)
      datagram ← call (λ e. bootstrap (dialing e)) (send_recv sock req_bytes)
      resp ← lift (ok_or (bootstrap unpacking_answer) (c.from_bytes (take 4_096 datagram)))
      done (addresses resp.answers)

    -- `PlainResolver::query`
    unfoldable pub plain_query : SocketAddr a → Option ℕ → Text → ℕ → Exec W (List IpAddr)
    unfolding ◌>>=◌ timed new_request ask_addresses
    plain_query addr timeout host qtype = do
      msg ← new_request host qtype
      req_bytes ← lift (ok_or (bootstrap packing) (c.to_bytes msg))
      timed expires (bootstrap resolving_timed_out) timeout (ask_addresses addr req_bytes)

    -- `PlainResolver::lookup`
    unfoldable pub plain_resolver : SocketAddr a → Option ℕ → Resolver a net
    unfolding plain_query join_answers
    plain_resolver addr timeout host w =
        let (v4, w') = plain_query addr timeout host type_a w in
        let (v6, w'') = plain_query addr timeout host type_aaaa w' in (join_answers v4 v6, w'')

  module _ (f : Formats a) (http : Http a net) (c : Codec h) (b : Base64)
      (u : DohUpstream a f net) where
    abbrev pub answered :
        Result (Message h) × Kept a f net http × W → Result (List IpAddr) × Kept a f net http × W
    answered (panic, k, w) = (panic, k, w)
    answered (err e, k, w) = (err e, k, w)
    answered (ok resp, k, w) = (ok (addresses resp.answers), k, w)

    abbrev pub ask_upstream :
        Kept a f net http → Result (Message h) × W → Result (List IpAddr) × Kept a f net http × W
    ask_upstream k (panic, w) = (panic, k, w)
    ask_upstream k (err e, w) = (err e, k, w)
    ask_upstream k (ok msg, w) = answered (DohClient.exchange a f net http c b u msg k w)

    -- `DohResolver::query`
    unfoldable pub doh_query :
        Text → ℕ → Kept a f net http → W → Result (List IpAddr) × Kept a f net http × W
    unfolding new_request DohClient.exchange addresses
    doh_query host qtype k w = ask_upstream k (new_request host qtype w)

    -- `DohResolver::lookup`
    unfoldable pub doh_lookup :
        Text → Kept a f net http → W → Result (List IpAddr) × Kept a f net http × W
    unfolding doh_query join_answers
    doh_lookup host k w =
        let (v4, k', w') = doh_query host type_a k w in
        let (v6, k'', w'') = doh_query host type_aaaa k' w' in (join_answers v4 v6, k'', w'')

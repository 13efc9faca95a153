-- ===== src/Dnscrypt/Listener.antt =====
-- src/listener/dnscrypt.rs: the DNSCrypt listener. The loops over sockets, which spawn a task per
-- packet or connection, are outside.
pub mod Certificate
pub mod Datagrams
use dnsproxy_rs.Dns.{Hickory, Query, Message, Codec}
use dnsproxy_rs.Dnscrypt.Certificates.{sign_certificate}
use dnsproxy_rs.Dnscrypt.Frames.{decrypt_query, encrypt_server_response}
use dnsproxy_rs.Dnscrypt.{Crypto, Bytes}
use dnsproxy_rs.Error.{
  pack, invalid_response, unpacking, dnscrypt_query, reparsed_response, Result, ok, err, panic,
  ok_or,
}
use dnsproxy_rs.Exec.{Exec, done, lift, ◌>>=◌}
use dnsproxy_rs.Io.{udp_max_msg_size, udp_bytes, write_prefixed, serve_connection}
use dnsproxy_rs.Prelude.Text.{Text}
use dnsproxy_rs.Prelude.{
  ℕ, Bool, false, not, List, [], ◌∷◌, Option, none, some, ◌==◌, ltb, if◌then◌else◌, length,
}

-- What the listener uses of hickory_proto besides.
pub record Answers (h : Hickory) : Type 0 where
  -- whether the message is a query
  pub is_query : Message h → Bool
  -- `Message::new` of a response without records
  pub new_response : ℕ → Message h
  -- `Name::from_ascii`
  pub from_ascii : Text → Option h.Name
  -- `RData::TXT` of one string
  pub txt : Bytes → h.Data

-- `RecordType::TXT`, and the class IN
abbrev pub txt_type : ℕ
txt_type = 16

module _ (cr : Crypto) where
  -- `DnsCryptServerConfig`
  pub record ServerConfig : Type 0 where
    pub resolver_secret_key : cr.SecretKey
    pub provider_name : Text
    pub client_magic : Bytes
    pub cert_bytes : Bytes

  -- `DnsCryptServerConfig::new`
  unfoldable pub new : cr.SecretKey → cr.SigningKey → Text → Bytes → ℕ → ℕ → ℕ → ServerConfig
  unfolding sign_certificate
  new resolver provider name magic serial ts_start ts_end = record {
    resolver_secret_key = resolver;
    provider_name = name;
    client_magic = magic;
    cert_bytes = sign_certificate cr provider (cr.public_key resolver) magic serial ts_start ts_end;
  }

-- `Response`
pub data Response (h : Hickory) : Type 0 where
  plain : Message h → Response h
  encrypted : Bytes → Bytes → Bytes → Response h

module _ {h : Hickory} (lib : Answers h) where
  open lib use {is_query, new_response, from_ascii, txt}

  -- the answer to a question
  unfoldable pub txt_answer : Bytes → Message h → Query h → Message h
  txt_answer cert_bytes req q = record (new_response req.id) {
    queries = q ∷ [];
    answers =
        record { name = q.name; record_type = txt_type; ttl = 60; rdata = txt cert_bytes } ∷ [];
  }

  abbrev asks_for : Query h → Option h.Name → Bool
  asks_for q none = false
  asks_for q (some name) = h.eq_ignore_root q.name name

  -- the checks of `try_answer_provider_txt` on the first question
  abbrev answer_first : Text → Bytes → Message h → List (Query h) → Option (Message h)
  answer_first provider_name cert_bytes req [] = none
  answer_first provider_name cert_bytes req (q ∷ qs) =
      if not (q.query_type == txt_type)
      then none
      else if not (asks_for q (from_ascii provider_name))
      then none
      else some (txt_answer cert_bytes req q)

  abbrev answer_query : Text → Bytes → Option (Message h) → Option (Message h)
  answer_query provider_name cert_bytes none = none
  answer_query provider_name cert_bytes (some req) =
      if not (is_query req) then none else answer_first provider_name cert_bytes req req.queries

  -- `try_answer_provider_txt`, for the decoded packet
  unfoldable pub try_answer_provider_txt : Text → Bytes → Option (Message h) → Option (Message h)
  unfolding txt_answer
  try_answer_provider_txt = answer_query

-- `draw` gives 12 random bytes.
module _ (cr : Crypto) {h : Hickory} (c : Codec h) (lib : Answers h) {W : Type 0}
    (draw : W → Bytes × W) (config : ServerConfig cr) where
  open config use {resolver_secret_key, provider_name, client_magic, cert_bytes}

  -- `encrypt_server_response` with random bytes
  unfoldable pub encrypt : Bytes → Bytes → Bytes → Exec W Bytes
  unfolding encrypt_server_response
  encrypt client_public_key client_nonce msg w =
      let (nonce, w') = draw w in
      (encrypt_server_response cr resolver_secret_key client_public_key client_nonce nonce msg, w')

  abbrev pub pack_truncated : Option (Message h) → Result Bytes
  pack_truncated none = err (invalid_response (unpacking reparsed_response))
  pack_truncated (some resp) = ok_or pack (c.to_bytes (c.truncate resp))

  -- the truncated response
  unfoldable pub truncated : Bytes → Result Bytes
  truncated resp_bytes = pack_truncated (c.from_bytes resp_bytes)

  -- what is sent of an encrypted response, by its length
  unfoldable pub fit : Bytes → Bytes → Bytes → Bytes → Exec W Bytes
  unfolding encrypt truncated ◌>>=◌
  fit client_public_key client_nonce resp_bytes framed =
      let again = lift (truncated resp_bytes) >>= encrypt client_public_key client_nonce in
      if ltb udp_max_msg_size (length framed) then again else done framed

  unfoldable pub udp_reply : Response h → Exec W Bytes
  unfolding udp_bytes fit encrypt ◌>>=◌
  udp_reply (plain resp) = lift (udp_bytes c resp)
  udp_reply (encrypted client_public_key client_nonce resp_bytes) =
      encrypt client_public_key client_nonce resp_bytes
      >>= fit client_public_key client_nonce resp_bytes

  unfoldable pub tcp_reply : Response h → Exec W Bytes
  unfolding encrypt
  tcp_reply (plain resp) = lift (ok_or pack (c.to_bytes resp))
  tcp_reply (encrypted client_public_key client_nonce resp_bytes) =
      encrypt client_public_key client_nonce resp_bytes

  module _ (handler : Message h → Exec W (Message h)) where
    -- the rest of `respond`, for an encrypted query
    unfoldable pub respond_encrypted : Bytes → Exec W (Response h)
    unfolding decrypt_query ◌>>=◌
    respond_encrypted packet = do
      (req_bytes, client_public_key, client_nonce) ←
          lift (decrypt_query cr resolver_secret_key client_magic packet)
      req ← lift (ok_or (invalid_response (unpacking dnscrypt_query)) (c.from_bytes req_bytes))
      resp ← handler req
      resp_bytes ← lift (ok_or pack (c.to_bytes resp))
      done (encrypted client_public_key client_nonce resp_bytes)

    abbrev pub respond_with : Option (Message h) → Exec W (Response h) → Exec W (Response h)
    respond_with none rest = rest
    respond_with (some resp) rest = done (plain resp)

    -- `respond`
    unfoldable pub respond : Bytes → Exec W (Response h)
    unfolding respond_encrypted try_answer_provider_txt
    respond packet =
        respond_with (try_answer_provider_txt lib provider_name cert_bytes (c.from_bytes packet))
          (respond_encrypted packet)

    -- `handle_udp_packet`: the bytes sent back
    unfoldable pub handle_udp_packet : Bytes → Exec W Bytes
    unfolding respond udp_reply ◌>>=◌
    handle_udp_packet packet = respond packet >>= udp_reply

    -- one pass of the loop over a connection, behind the reading: the bytes written
    unfoldable pub answer_tcp : Bytes → Exec W Bytes
    unfolding respond tcp_reply write_prefixed ◌>>=◌
    answer_tcp packet = do
      resp ← respond packet
      bytes ← tcp_reply resp
      lift (write_prefixed bytes)

    -- `handle_tcp_connection`
    unfoldable pub handle_tcp_connection : Bytes → W → Result (Unit {0}) × Bytes × W
    unfolding serve_connection answer_tcp
    handle_tcp_connection = serve_connection answer_tcp

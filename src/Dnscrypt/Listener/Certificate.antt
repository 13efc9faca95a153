-- ===== src/Dnscrypt/Listener/Certificate.antt =====
-- The answer to a query for the provider's name.
use dnsproxy_rs.Dns.{Hickory, Query, Message, Codec}
use dnsproxy_rs.Dnscrypt.Certificates.Signed.{parse_one_certificate-sign_certificate}
use dnsproxy_rs.Dnscrypt.Certificates.{parse_one_certificate}
use dnsproxy_rs.Dnscrypt.Listener.{
  Answers, txt_type, ServerConfig, new, plain, txt_answer, try_answer_provider_txt,
  respond_encrypted, respond_with, respond,
}
use dnsproxy_rs.Dnscrypt.{Crypto, Bytes}
use dnsproxy_rs.Error.{ok}
use dnsproxy_rs.Exec.{Exec}
use dnsproxy_rs.Prelude.Text.{Text}
use dnsproxy_rs.Prelude.{
  [], ℕ, ◌<◌, ◌^◌, ◌≡◌, refl, ap, ◌∙◌, true, List, ◌∷◌, some, ◌==◌, length, arith,
}
use dnsproxy_rs.Wire.Laws as Laws

module _ {h : Hickory} (lib : Answers h) where
  -- `req` is a plain query for the certificate of `provider_name`, with the question `q`.
  pub record AsksFor (provider_name : Text) (req : Message h) (q : Query h) : Type 0 where
    pub is_query : lib.is_query req ≡ true
    pub others : List (Query h)
    pub first : req.queries ≡ q ∷ others
    pub txt : q.query_type ≡ txt_type
    pub name : h.Name
    pub read : lib.from_ascii provider_name ≡ some name
    pub same : h.eq_ignore_root q.name name ≡ true

  try_answer-AsksFor :
      (provider_name : Text) (cert_bytes : Bytes) (req : Message h) (q : Query h)
      → AsksFor provider_name req q
      → try_answer_provider_txt lib provider_name cert_bytes (some req)
        ≡ some (txt_answer lib cert_bytes req q)
  unfolding try_answer_provider_txt
  try_answer-AsksFor provider_name cert_bytes req q asks =
      let is_txt : (q.query_type == txt_type) ≡ true = ground (arith, asks.txt) in
      rw (asks.is_query, try_answer_provider_txt, asks.first, is_txt, asks.read, asks.same) refl

module _ (cr : Crypto) {h : Hickory} (c : Codec h) (lib : Answers h) {W : Type 0}
    (draw : W → Bytes × W) (handler : Message h → Exec W (Message h)) where
  respond-AsksFor :
      (config : ServerConfig cr) (packet : Bytes) (req : Message h) (q : Query h) (w : W)
      → c.from_bytes packet ≡ some req
      → AsksFor lib config.provider_name req q
      → respond cr c lib draw config handler packet w
        ≡ (ok (plain (txt_answer lib config.cert_bytes req q)), w)
  unfolding respond
  respond-AsksFor config packet req q w decoded asks =
      let answered =
        ap (try_answer_provider_txt lib config.provider_name config.cert_bytes) decoded
        ∙ try_answer-AsksFor lib config.provider_name config.cert_bytes req q asks in
      ap
        (λ o.
          respond_with cr c lib draw config handler o
            (respond_encrypted cr c lib draw config handler packet) w)
        answered

  -- A plain query for the provider's name is answered, without the handler, by a message that
  -- answers it if the name equals itself, with one TXT record, whose text is a certificate which a client that knows
  -- the provider's verifying key accepts, and which has the listener's key, magic, serial and times; if
  -- the magic has 8 bytes and the numbers 32 bits.
  pub respond-certificate :
      (resolver : cr.SecretKey) (provider : cr.SigningKey) (provider_name : Text) (magic : Bytes)
      (serial start end : ℕ) (packet : Bytes) (req : Message h) (q : Query h) (w : W)
      → length magic ≡ 8
      → serial < 2 ^ 32
      → start < 2 ^ 32
      → end < 2 ^ 32
      → c.from_bytes packet ≡ some req
      → AsksFor lib provider_name req q
      → h.eq_ignore_root q.name q.name ≡ true
      → let config = new cr resolver provider provider_name magic serial start end in
        let answer = txt_answer lib config.cert_bytes req q in
        (respond cr c lib draw config handler packet w ≡ (ok (plain answer), w))
        × Laws.Answers req answer
        × (answer.answers
            ≡ record {
              name = q.name;
              record_type = 16;
              ttl = 60;
              rdata = lib.txt config.cert_bytes;
            }
              ∷ [])
        × (parse_one_certificate cr config.cert_bytes (cr.verifying_key provider)
            ≡ some (record {
              resolver_public_key = cr.public_key resolver;
              client_magic = magic;
              serial = serial;
              ts_start = start;
              ts_end = end;
            }))
  unfolding new txt_answer
  respond-certificate resolver provider provider_name magic serial start end packet req q w em hs ht
        he decoded asks itself =
      (
        respond-AsksFor (new cr resolver provider provider_name magic serial start end) packet req q
            w decoded asks,
        Laws.answers q q asks.others asks.first refl refl itself,
        refl,
        parse_one_certificate-sign_certificate (cr.public_key resolver) magic serial start end
            (cr.length-public_key resolver) em cr provider hs ht he,
      )

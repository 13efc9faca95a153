-- ===== src/Doh/Kept.antt =====
-- What the client returns.
use dnsproxy_rs.Bootstrap.{Addresses}
use dnsproxy_rs.Client.Reuse.Yields.{exchange-sound}
use dnsproxy_rs.Client.{Formats}
use dnsproxy_rs.Dns.{Hickory, Message, Codec}
use dnsproxy_rs.Doh.Client.{
  Kept, should_use_http3, new_transport, renewed, exchange_h3, attempt_https, exchange_http,
  exchange_by, exchange,
}
use dnsproxy_rs.Doh.Http3
use dnsproxy_rs.Doh.Http3.{Transport, reset, get_sender, ask, ask_with}
use dnsproxy_rs.Doh.Https.{create_client, first_client, accept_reply, exchange_https}
use dnsproxy_rs.Doh.{Reply, Http, DohUpstream}
use dnsproxy_rs.Doq.Kept.{Replies}
use dnsproxy_rs.Error.{Result, ok, err, panic, DohError, pack, ok_or, >>=-eq-ok}
use dnsproxy_rs.Exec.Yields.{Yields, lift-Yields, >>=-Yields, >>=-lift-Yields}
use dnsproxy_rs.Exec.{Exec, lift, ◌>>=◌}
use dnsproxy_rs.Io.{Bytes}
use dnsproxy_rs.Prelude.{if◌then◌else◌, ℕ, ◌≡◌, Bool, true, false, Option, List}
use dnsproxy_rs.Sockets.{Sockets}
use dnsproxy_rs.Wire.Laws.{decode_response_iff}
use dnsproxy_rs.Wire.{Base64, encode_request, decode_response}

module _ {h : Hickory} (c : Codec h) (b : Base64) (req : Message h) where
  -- the identifier that `encode_request` gives
  encode_request-id : (x : List ℕ × ℕ) → encode_request c b req ≡ ok x → x.1 ≡ req.id
  unfolding encode_request
  encode_request-id x e =
      let (bytes, packed, same) =
        >>=-eq-ok (ok_or pack (c.to_bytes (record req { id = 0 })))
          (λ bytes. ok (b.encode bytes, req.id)) e in
      cc same

  decode_response-id :
      (i : ℕ)
      → i ≡ req.id
      → (body : Bytes) (m : Message h) → decode_response c body req i ≡ ok m
      → Replies req m
  decode_response-id i same_id body m e =
      let got = (decode_response_iff c body req i m).0 e in
      record { same_id = cc (got.restored, same_id); fits = got.fits }

  module _ {W : Type 0} {P : Message h → Type 0} where
    -- a step that encodes the request
    encode_request-Yields :
        (f : List ℕ × ℕ → Exec W (Message h))
        → ((x : List ℕ × ℕ) → x.1 ≡ req.id → Yields P (f x))
        → Yields P (lift (encode_request c b req) >>= f)
    encode_request-Yields f p =
        >>=-lift-Yields (encode_request c b req) f λ x e. p x (encode_request-id x e)

module _ (a : Addresses) (f : Formats a) {W : Type 0} (net : Sockets a W) (lib : Http a net)
    {h : Hickory} (c : Codec h) (b : Base64) (u : DohUpstream a f net) (req : Message h) where
  checked_reply :
      (failed large : Bool) (e e' : DohError) (i : ℕ) (body : Bytes) (m : Message h)
      → i ≡ req.id
      → (if failed then err e else if large then err e' else decode_response c body req i) ≡ ok m
      → Replies req m
  checked_reply true large e e' i body m same_id got = absurd (cc got)
  checked_reply false true e e' i body m same_id got = absurd (cc got)
  checked_reply false false e e' i body m same_id got =
      decode_response-id c b req i same_id body m got

  accept_reply-Replies :
      (i : ℕ) (reply : Reply)
      → i ≡ req.id
      → Yields (Replies req) (accept_reply a f net lib c b u req i reply)
  unfolding accept_reply
  accept_reply-Replies i reply same_id = search (>>=-Yields, lift-Yields, checked_reply) depth 9

  exchange_https-Replies :
      (client : lib.Client) → Yields (Replies req) (exchange_https a f net lib c b u client req)
  unfolding exchange_https
  exchange_https-Replies client =
      search (encode_request-Yields c b req, >>=-Yields, accept_reply-Replies) depth 9

  ask-Replies : (sender : lib.Sender) → Yields (Replies req) (ask a f net lib c b u req sender)
  unfolding ask
  ask-Replies sender =
      search (encode_request-Yields c b req, >>=-Yields, lift-Yields, decode_response-id c b req)
        depth 9

  ask_with-Replies :
      (r : Result lib.Sender) (t : Transport a f net lib) (w : W) (m : Message h)
      → (ask_with a f net lib c b u req (r, t, w)).0 ≡ ok m
      → Replies req m
  ask_with-Replies panic t w m e = absurd (cc e)
  ask_with-Replies (err x) t w m e = absurd (cc e)
  ask_with-Replies (ok sender) t w m e = (ask-Replies sender).at w e

  exchange_h3-Replies :
      (kept : Option (Transport a f net lib)) (w : W) (m : Message h)
      → (exchange_h3 a f net lib c b u req kept w).0 ≡ ok m
      → Replies req m
  unfolding exchange_h3 Http3.exchange
  exchange_h3-Replies kept w m e =
      exchange-sound (new_transport a f net lib u)
        (λ t w. renewed a f net lib (reset a f net lib u t w))
        (Http3.exchange a f net lib c b u req) (Replies req)
        (λ t w m e. let (r, t', w') = get_sender a f net lib u t w in ask_with-Replies r t' w' m e)
        kept w m e

  exchange_http-Replies :
      (kept : Option lib.Client) (w : W) (m : Message h)
      → (exchange_http a f net lib c b u req kept w).0 ≡ ok m
      → Replies req m
  unfolding exchange_http
  exchange_http-Replies kept w m e =
      exchange-sound (first_client a f net lib u) (λ _. create_client a f net lib u)
        (attempt_https a f net lib c b u req) (Replies req)
        (λ client w m e. (exchange_https-Replies client).at w e) kept w m e

  exchange_by-Replies :
      (r : Result Bool) (k : Kept a f net lib) (w : W) (m : Message h)
      → (exchange_by a f net lib c b u req (r, k, w)).0 ≡ ok m
      → Replies req m
  unfolding exchange_by
  exchange_by-Replies panic k w m e = absurd (cc e)
  exchange_by-Replies (err x) k w m e = absurd (cc e)
  exchange_by-Replies (ok true) k w m e = exchange_h3-Replies k.h3 w m e
  exchange_by-Replies (ok false) k w m e = exchange_http-Replies k.client w m e

  -- What the DoH client returns, over whichever HTTP version, answers the request and carries its
  -- identifier.
  pub exchange-Replies :
      (k : Kept a f net lib) (w : W) (resp : Message h)
      → (exchange a f net lib c b u req k w).0 ≡ ok resp
      → Replies req resp
  unfolding exchange
  exchange-Replies k w resp e =
      let (r, k', w') = should_use_http3 a f net lib u k w in exchange_by-Replies r k' w' resp e

-- ===== src/Wire/Laws.antt =====
-- What a DoH client can rely on: which responses are accepted, and that the identifier which
-- `encode_request` hides comes back on the response.
use dnsproxy_rs.Dns.{Hickory, Message, Query, Codec}
use dnsproxy_rs.Error.{ok, ◌>>=◌, ok_or, >>=-eq-ok, >>-eq-ok, ok_or-eq-ok, pack, ◌>>◌}
use dnsproxy_rs.Prelude.{
  ℕ, ◌==◌, Bool-cases, inl, inr, ◌≡◌, refl, ◌↔◌, true, List, [], ◌∷◌, some, arith, subst,
}
use dnsproxy_rs.Wire.{
  Base64, accept_response, validate_queries, validate_response, encode_request, decode_response,
  encode_response, decode_request,
}

module _ {h : Hickory} where
  -- `resp` answers `req`: its one question has the type of the request's first question, and the
  -- name, up to case and the root dot.
  pub data Answers (req resp : Message h) : Type 0 where
    answers :
        (q r : Query h) (qs : List (Query h))
        → req.queries ≡ q ∷ qs
        → resp.queries ≡ r ∷ []
        → q.query_type ≡ r.query_type
        → h.eq_ignore_root q.name r.name ≡ true
        → Answers req resp

  module _ (req resp : Message h) where
    validate-sound_at :
        (qs rs : List (Query h))
        → req.queries ≡ qs
        → resp.queries ≡ rs
        → validate_queries qs rs ≡ ok tt
        → Answers req resp
    unfolding validate_queries
    validate-sound_at qs [] eq er e = cc
    validate-sound_at [] (r ∷ []) eq er e = cc
    validate-sound_at (q ∷ qs) (r ∷ []) eq er e = answers q r qs eq er (ground arith) (ground arith)
    validate-sound_at qs (r ∷ r' ∷ rs) eq er e = cc

    validate_complete : Answers req resp → validate_response req resp ≡ ok tt
    unfolding validate_response
    validate_complete (answers q r qs eq er et en) = rw (eq, er) (ground arith)

    -- A response is accepted exactly when it answers the request.
    pub validate_response_iff : (validate_response req resp ≡ ok tt) ↔ Answers req resp
    unfolding validate_response
    validate_response_iff =
        (λ e. validate-sound_at req.queries resp.queries refl refl e, validate_complete)

  module _ (c : Codec h) where
    -- The message comes back from its wire format.
    abbrev pub RoundTrips : Message h → Type 0
    RoundTrips m = (bytes : List ℕ) → c.to_bytes m ≡ some bytes → c.from_bytes bytes ≡ some m

    -- What an accepted body is.
    pub record Accepted (body : List ℕ) (req : Message h) (original_id : ℕ) (m : Message h)
        : Type 0 where
      pub sent : Message h
      pub decoded : c.from_bytes body ≡ some sent
      pub zero_id : sent.id ≡ 0
      pub restored : m ≡ record sent { id = original_id }
      pub fits : Answers req m

    accept_sound :
        (body : List ℕ) (req sent : Message h) (i : ℕ) {m : Message h}
        → c.from_bytes body ≡ some sent
        → accept_response req i sent ≡ ok m
        → Accepted body req i m
    unfolding accept_response
    accept_sound body req sent i {m} d e = elim (Bool-cases (sent.id == 0)) [
      | inl zero_id ↦
          let restored : Message h = record sent { id = i } in
          let both : (validate_response req restored ≡ ok tt) × (ok restored ≡ ok m) =
            >>-eq-ok (validate_response req restored) (ok restored) (rw zero_id at e) in
          record {
            sent = sent;
            decoded = d;
            zero_id = ground arith;
            restored = cc (both.1);
            fits =
                subst (Answers req) (cc (both.1)) ((validate_response_iff req restored).0 both.0);
          }
      | inr other ↦ absurd (ground arith)
    ]

    decode_sound :
        (body : List ℕ) (req : Message h) (i : ℕ) {m : Message h}
        → decode_response c body req i ≡ ok m
        → Accepted body req i m
    unfolding decode_response
    decode_sound body req i e =
        let (sent, d, accepted) = >>=-eq-ok _ (accept_response req i) e in
        accept_sound body req sent i (ok_or-eq-ok _ (c.from_bytes body) d) accepted

    decode_complete :
        (body : List ℕ) (req : Message h) (i : ℕ) {m : Message h}
        → Accepted body req i m
        → decode_response c body req i ≡ ok m
    unfolding decode_response accept_response
    decode_complete body req i {m} a =
        rw (a.decoded, a.zero_id, ◌>>=◌, ← a.restored, (validate_response_iff req m).1 a.fits, ◌>>◌)

    -- A body is accepted as the response `m` exactly when it decodes to a message with identifier
    -- zero, `m` is that message with the request's identifier, and `m` answers the request.
    pub decode_response_iff :
        (body : List ℕ) (req : Message h) (original_id : ℕ) (m : Message h)
        → (decode_response c body req original_id ≡ ok m) ↔ Accepted body req original_id m
    decode_response_iff body req i m = (decode_sound body req i, decode_complete body req i)

  module _ (c : Codec h) (b : Base64) where
    -- A request that `encode_request` packs is what the listener decodes, with identifier zero.
    pub decode-encode-request :
        (req : Message h) (param : List ℕ) (i : ℕ)
        → RoundTrips c (record req { id = 0 })
        → encode_request c b req ≡ ok (param, i)
        → (decode_request c b (some param) [] ≡ ok (record req { id = 0 })) × (i ≡ req.id)
    unfolding encode_request decode_request
    decode-encode-request req param i back e =
        let (bytes, packed, same) =
          >>=-eq-ok (ok_or pack (c.to_bytes (record req { id = 0 })))
            (λ bytes. ok (b.encode bytes, req.id)) e in
        ground (arith, b.decode-encode bytes, back bytes (ok_or-eq-ok pack _ packed))

    -- A whole exchange: if request and response survive the wire format, the listener reads the
    -- request with identifier zero, and the client accepts the listener's response to it with the
    -- request's identifier restored.
    pub decode_response-encode_request :
        (req resp : Message h) (param body : List ℕ) (i : ℕ)
        → RoundTrips c (record req { id = 0 })
        → RoundTrips c resp
        → encode_request c b req ≡ ok (param, i)
        → resp.id ≡ 0
        → Answers req (record resp { id = req.id })
        → encode_response c resp ≡ ok body
        → (decode_request c b (some param) [] ≡ ok (record req { id = 0 }))
          × (decode_response c body req i ≡ ok (record resp { id = req.id }))
    unfolding encode_response
    decode_response-encode_request req resp param body i back back' sent zero_id fits replied =
        let received = decode-encode-request req param i back sent in
        (
          received.0,
          rw received.1 (
              decode_complete c body req req.id (record {
                sent = resp;
                decoded = back' body (ok_or-eq-ok pack _ replied);
                zero_id = zero_id;
                restored = refl;
                fits = fits;
              })),
        )

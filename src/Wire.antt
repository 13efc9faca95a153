-- ===== src/Wire.antt =====
-- src/client/wire.rs: framing of DoH requests and responses, and the check of a response against
-- its request.
pub mod Laws
use dnsproxy_rs.Dns.{Hickory, Message, Query, Codec}
use dnsproxy_rs.Error.{
  DohError, pack, non_zero_id, invalid_response, unpacking, response, doh_request,
  decoding_dns_param, question_count, mismatched_type, mismatched_name, Result, ok, err, panic,
  ◌>>=◌, ◌>>◌, ok_or,
}
use dnsproxy_rs.Prelude.{
  ℕ, Bool, not, List, [], ◌∷◌, Option, none, some, ◌==◌, if◌then◌else◌, length, ◌≡◌,
}

-- base64url of the crate base64.
pub record Base64 : Type 0 where
  pub encode : List ℕ → List ℕ
  pub decode : List ℕ → Option (List ℕ)
  pub decode-encode : (bytes : List ℕ) → decode (encode bytes) ≡ some bytes

module _ {h : Hickory} where
  -- the two questions compared
  unfoldable pub validate_question : Query h → Query h → Result (Unit {0})
  validate_question req_q resp_q =
      if not (req_q.query_type == resp_q.query_type)
      then err (invalid_response (mismatched_type resp_q.query_type))
      else if not (h.eq_ignore_root req_q.name resp_q.name)
      then err (invalid_response mismatched_name)
      else ok tt

  -- `req.queries[0]` panics where the request has no question.
  unfoldable pub validate_queries : List (Query h) → List (Query h) → Result (Unit {0})
  unfolding validate_question
  validate_queries qs [] = err (invalid_response (question_count 0))
  validate_queries [] (resp_q ∷ []) = panic
  validate_queries (req_q ∷ qs) (resp_q ∷ []) = validate_question req_q resp_q
  validate_queries qs (r ∷ r' ∷ rs) = err (invalid_response (question_count (length (r ∷ r' ∷ rs))))

  unfoldable pub validate_response : Message h → Message h → Result (Unit {0})
  unfolding validate_queries
  validate_response req resp = validate_queries req.queries resp.queries

  -- the steps behind the decoding: the identifier, and the check of the question
  unfoldable pub accept_response : Message h → ℕ → Message h → Result (Message h)
  accept_response req original_id resp =
      let restored : Message h = record resp { id = original_id } in
      if not (resp.id == 0)
      then err (non_zero_id resp.id)
      else (validate_response req restored >> ok restored)

  module _ (c : Codec h) (b : Base64) where
    unfoldable pub encode_request : Message h → Result (List ℕ × ℕ)
    encode_request req = do
      bytes ← ok_or pack (c.to_bytes (record req { id = 0 }))
      ok (b.encode bytes, req.id)

    unfoldable pub dns_bytes : Option (List ℕ) → List ℕ → Result (List ℕ)
    dns_bytes none body = ok body
    dns_bytes (some param) body = ok_or (invalid_response decoding_dns_param) (b.decode param)

    unfoldable pub decode_request : Option (List ℕ) → List ℕ → Result (Message h)
    unfolding dns_bytes
    decode_request dns_param body = do
      bytes ← dns_bytes dns_param body
      ok_or (invalid_response (unpacking doh_request)) (c.from_bytes bytes)

  module _ (c : Codec h) where
    unfoldable pub decode_response : List ℕ → Message h → ℕ → Result (Message h)
    unfolding accept_response
    decode_response body req original_id =
        ok_or (invalid_response (unpacking response)) (c.from_bytes body)
        >>= accept_response req original_id

    unfoldable pub encode_response : Message h → Result (List ℕ)
    encode_response resp = ok_or pack (c.to_bytes resp)

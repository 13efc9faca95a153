-- ===== src/Tests/Framed.antt =====
-- The DoH messages over a codec of two messages.
use dnsproxy_rs.Error.{ok}
use dnsproxy_rs.Prelude.{◌≡◌, refl, ◌↔◌, [], ◌∷◌, some}
use dnsproxy_rs.Prelude.Text.{text_eq}
use dnsproxy_rs.Tests.{two_messages, question, request, reply}
use dnsproxy_rs.Wire.Laws.{
  Answers, answers, Accepted, RoundTrips, decode_response_iff, decode_response-encode_request,
}
use dnsproxy_rs.Wire.{Base64, encode_request, decode_request, decode_response, encode_response}

abbrev plain : Base64
plain = record {
  encode = λ bytes. bytes;
  decode = λ bytes. some bytes;
  decode-encode = λ bytes. refl;
}

request_back : RoundTrips two_messages (request 0)
request_back bytes e = let same : 0 ∷ [] ≡ bytes = cc e in rw (← same) refl

reply_back : RoundTrips two_messages (reply 0)
reply_back bytes e = let same : 2 ∷ [] ≡ bytes = cc e in rw (← same) refl

reply-Answers : Answers (request 7) (reply 7)
unfolding text_eq
reply-Answers = answers question question [] refl refl refl refl

decode_response_iff_example :
    (decode_response two_messages (2 ∷ []) (request 7) 7 ≡ ok (reply 7))
    ↔ Accepted two_messages (2 ∷ []) (request 7) 7 (reply 7)
decode_response_iff_example = decode_response_iff two_messages (2 ∷ []) (request 7) 7 (reply 7)

sent : encode_request two_messages plain (request 7) ≡ ok (0 ∷ [], 7)
unfolding encode_request
sent = refl

replied : encode_response two_messages (reply 0) ≡ ok (2 ∷ [])
unfolding encode_response
replied = refl

decode_response-encode_request_example :
    (decode_request two_messages plain (some (0 ∷ [])) [] ≡ ok (request 0))
    × (decode_response two_messages (2 ∷ []) (request 7) 7 ≡ ok (reply 7))
decode_response-encode_request_example =
    decode_response-encode_request two_messages plain (request 7) (reply 0) (0 ∷ []) (2 ∷ []) 7
      request_back reply_back sent refl reply-Answers replied

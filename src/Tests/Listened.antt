-- ===== src/Tests/Listened.antt =====
-- Requests to the listeners, over the instances of `Networked`.
use dnsproxy_rs.Doh.Credentials.{Given, new, is_authorized, is_authorized_iff}
use dnsproxy_rs.Doh.Https.{accept_reply}
use dnsproxy_rs.Doh.Listener3 as Listener3
use dnsproxy_rs.Doh.Listener3.Agreement.{Agree, handle_request-Agree}
use dnsproxy_rs.Doh.Listener.Statuses.{Responds, handle_request-Responds}
use dnsproxy_rs.Doh.Listener.{Request, post, dns_response, handle_request}
use dnsproxy_rs.Doh.RoundTrip.{get_with, ok_reply, accept_reply-handle_request}
use dnsproxy_rs.Error.{ok}
use dnsproxy_rs.Prelude.Text.{Text, codes, text_eq, split_whitespace}
use dnsproxy_rs.Prelude.{◌≡◌, ◌↔◌, refl, true, [], ◌∷◌, map, ◌++◌, List, none, some, arith}
use dnsproxy_rs.Proxy.Listening.{SomeSecure, listen_addrs-nil_iff}
use dnsproxy_rs.Proxy.Private.{split_config_line-private_upstream_line}
use dnsproxy_rs.Proxy.{
  private_reverse_zones, private_upstream_line, Wildcards, Listen, Args, listen_addrs,
}
use dnsproxy_rs.Tests.Networked.{
  numbers, formats, sockets, http, doh_upstream, counting, plain_base64,
}
use dnsproxy_rs.Tests.{two_messages, question, request, reply}
use dnsproxy_rs.UpstreamConfig.Line.{parts, split_config_line}
use dnsproxy_rs.Wire.Laws.{Answers, answers, RoundTrips}
use dnsproxy_rs.UpstreamUrl.{has_char}
use dnsproxy_rs.Wire.{encode_request, encode_response}

request_back : RoundTrips two_messages (request 0)
request_back bytes e = let same : 0 ∷ [] ≡ bytes = cc e in rw (← same) refl

reply_back : RoundTrips two_messages (reply 0)
reply_back bytes e = let same : 2 ∷ [] ≡ bytes = cc e in rw (← same) refl

reply-Answers : Answers (request 7) (reply 7)
unfolding text_eq
reply-Answers = answers question question [] refl refl refl refl

accept_reply-handle_request_example :
    (handle_request two_messages plain_base64 counting [] (get_with (0 ∷ []) none) 0
      ≡ (ok (dns_response (2 ∷ [])), 1))
    × (accept_reply numbers formats sockets http two_messages plain_base64 doh_upstream
          (request 7)
          7
          (ok_reply ((2 ∷ []) ∷ [] ∷ []))
          4
        ≡ (ok (reply 7), 4))
unfolding encode_request encode_response has_char
accept_reply-handle_request_example =
    accept_reply-handle_request numbers formats sockets http two_messages plain_base64 doh_upstream
      counting [] (request 7) (reply 0) (0 ∷ []) 7 (2 ∷ []) ((2 ∷ []) ∷ [] ∷ []) 4 0 1 request_back
      reply_back refl refl refl refl refl reply-Answers refl refl (omega arith)

abbrev posted : Request
posted = record {
  method = post;
  query = none;
  authorization = some (codes "Basic user:secret");
  chunks = (0 ∷ []) ∷ [];
  broken = none;
}

abbrev pairs : List (Text × Text)
pairs = (codes "user", codes "secret") ∷ []

abbrev valid : List Text
valid = codes "Basic user:secret" ∷ []

handle_request-Responds_example :
    let (r, w') = handle_request two_messages plain_base64 counting valid posted 0 in
    Responds two_messages plain_base64 counting valid posted 0 r w'
handle_request-Responds_example =
    handle_request-Responds two_messages plain_base64 counting valid posted 0

handle_request-Agree_example :
    let (r, w') = handle_request two_messages plain_base64 counting valid posted 0 in
    Agree two_messages plain_base64 counting r w'
      (Listener3.handle_request two_messages plain_base64 counting valid posted 0)
handle_request-Agree_example =
    handle_request-Agree two_messages plain_base64 counting valid posted 0

is_authorized_iff_example :
    (is_authorized (new (λ t. t) pairs) (some (codes "Basic user:secret")) ≡ true) ↔ (
      (given : Text) × (some (codes "Basic user:secret") ≡ some given) × Given (λ t. t) given pairs)
is_authorized_iff_example = is_authorized_iff (λ t. t) pairs (some (codes "Basic user:secret"))

split_config_line-private_upstream_line_example :
    split_config_line (private_upstream_line (codes "9.9.9.9"))
    ≡ parts (codes "9.9.9.9" ∷ []) (map (λ zone. zone ++ b'.' ∷ []) private_reverse_zones)
unfolding split_whitespace
split_config_line-private_upstream_line_example =
    split_config_line-private_upstream_line b'9' (codes ".9.9.9")

abbrev wild : Wildcards numbers
wild = record { any_v4 = 0; any_v6 = 101; loopback = 1 }

abbrev silent : Listen numbers
silent = record { listen = []; port = none }

abbrev quic_only : Args numbers
quic_only = record {
  plain = silent;
  quic = record { listen = []; port = some 853 };
  tls = silent;
  https = silent;
  dnscrypt = silent;
}

listen_addrs-nil_iff_example : (listen_addrs numbers wild quic_only ≡ []) ↔ (
    (quic_only.plain.port ≡ none)
    × (quic_only.plain.listen ≡ [])
    × SomeSecure numbers wild quic_only)
listen_addrs-nil_iff_example = listen_addrs-nil_iff numbers wild quic_only

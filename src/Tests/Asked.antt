-- ===== src/Tests/Asked.antt =====
-- Queries through upstreams over the sockets of `Networked`.
use dnsproxy_rs.Bootstrap.Dial.Order.{preferred, resolve_dial_context-Ends}
use dnsproxy_rs.Bootstrap.Dial.{tcp, looked_up, dial_one, resolve_dial_context}
use dnsproxy_rs.Client.{request_bytes}
use dnsproxy_rs.Io.{tcp_bytes}
use dnsproxy_rs.Client.Plain.{exchange_on}
use dnsproxy_rs.Client.Reuse.Attempts.{Attempts, exchange-Attempts}
use dnsproxy_rs.Client.Reuse
use dnsproxy_rs.Doh.Client as DohClient
use dnsproxy_rs.Doh.Client.{should_use_http3, untouched, first_addr, probe}
use dnsproxy_rs.Doh.Kept.{exchange-Replies}
use dnsproxy_rs.Doq.Kept.{Replies}
use dnsproxy_rs.Doh.Versions.{Chosen, should_use_http3-Chosen}
use dnsproxy_rs.Doq.Client.{query_stream}
use dnsproxy_rs.Doq.RoundTrip.{query_stream-handle_stream}
use dnsproxy_rs.Doq.{handle_stream, reply_bytes}
use dnsproxy_rs.Dot.RoundTrip.{exchange_on-handle_connection}
use dnsproxy_rs.Dot.{handle_connection}
use dnsproxy_rs.Error.{io, bootstrap, no_addresses, Result, ok, err}
use dnsproxy_rs.Exec.{Exec, ◌>>=◌}
use dnsproxy_rs.Failover.Ends.{Ends}
use dnsproxy_rs.Prelude.Text.{codes, text_eq}
use dnsproxy_rs.Prelude.{ℕ, zero, suc, List, ◌≡◌, ◌≢◌, refl, true, [], ◌∷◌, none, some, inr}
use dnsproxy_rs.Tests.Networked.{
  numbers, formats, sockets, http, fixed, doh_upstream, counting, plain_base64,
}
use dnsproxy_rs.Tests.{two_messages, question, request, reply}
use dnsproxy_rs.Wire.{validate_response}
use dnsproxy_rs.Wire.Laws.{Answers, answers, RoundTrips}

request_back : RoundTrips two_messages (request 0)
request_back bytes e = let same : 0 ∷ [] ≡ bytes = cc e in rw (← same) refl

reply_back : RoundTrips two_messages (reply 0)
reply_back bytes e = let same : 2 ∷ [] ≡ bytes = cc e in rw (← same) refl

reply-Answers : (i : ℕ) → Answers (request i) (reply i)
unfolding text_eq
reply-Answers i = answers question question [] refl refl refl refl

exchange_on-handle_connection_example :
    (handle_connection two_messages counting (inr (0 ∷ 1 ∷ 0 ∷ [])) 0 ≡ (ok tt, 0 ∷ 1 ∷ 2 ∷ [], 1))
    × (exchange_on numbers formats sockets two_messages 7 (request 0) (0 ∷ []) 4
        ≡ (ok (reply 0), 5))
unfolding request_bytes tcp_bytes
exchange_on-handle_connection_example =
    exchange_on-handle_connection numbers formats sockets two_messages counting 7 (request 0)
      (reply 0) (0 ∷ []) (0 ∷ 1 ∷ 2 ∷ []) 4 5 0 1 request_back reply_back refl refl refl refl
      (reply-Answers 0)

replied : reply_bytes (λ n. []) two_messages (reply 0) ≡ ok (0 ∷ 1 ∷ 2 ∷ [])
unfolding reply_bytes
replied = refl

query_stream-handle_stream_example :
    (handle_stream (λ n. []) two_messages counting (0 ∷ 1 ∷ 0 ∷ []) 0 ≡ (ok (0 ∷ 1 ∷ 2 ∷ []), 1))
    × (query_stream numbers formats sockets two_messages 5 (request 7) (0 ∷ []) 4
        ≡ (ok (reply 7), 5))
unfolding request_bytes
query_stream-handle_stream_example =
    query_stream-handle_stream numbers formats sockets two_messages (λ n. []) counting 5 (request 7)
      (reply 0) (0 ∷ []) (0 ∷ 1 ∷ 2 ∷ []) 4 5 0 1 request_back reply_back refl refl replied refl
      (reply-Answers 7)

-- A first connection whose other end is gone.
abbrev opening : Exec ℕ ℕ
opening w = (ok 8, suc w)

abbrev asking : ℕ → ℕ → Result ℕ × ℕ × ℕ
asking zero w = (err io, 0, suc w)
asking (suc c) w = (ok 42, suc c, suc w)

exchange-Attempts_example :
    let (r, kept, w') = Reuse.exchange opening (λ c. opening) asking (some 0) 3 in
    Attempts opening (λ c. opening) asking (some 0) 3 r kept w'
exchange-Attempts_example = exchange-Attempts opening (λ c. opening) asking (some 0) 3

abbrev ips : List ℕ
ips = 1 ∷ 201 ∷ 2 ∷ []

some_found : ips ≢ []
some_found e = cc e

found : looked_up numbers sockets none fixed (codes "dns.example") 0 ≡ (ok ips, 1)
unfolding looked_up
found = refl

resolve_dial_context-Ends_example :
    let r =
      (resolve_dial_context numbers sockets none fixed (codes "dns.example") 443 true >>= λ dial.
      dial tcp)
        0 in
    Ends
      (bootstrap no_addresses)
      (dial_one numbers sockets none tcp)
      (preferred numbers sockets true 443 ips)
      none
      1
      r.0
      r.1
resolve_dial_context-Ends_example =
    resolve_dial_context-Ends numbers sockets none fixed (codes "dns.example") 443 true 0 tcp refl
      found some_found

chosen :
    (should_use_http3 numbers formats sockets http doh_upstream
      (untouched numbers formats sockets http)
      0).0
    ≡ ok true
unfolding should_use_http3 first_addr probe
chosen = refl

should_use_http3-Chosen_example :
    Chosen numbers formats sockets http doh_upstream (untouched numbers formats sockets http) 0 true
should_use_http3-Chosen_example =
    should_use_http3-Chosen numbers formats sockets http doh_upstream
      (untouched numbers formats sockets http) 0 true chosen

over_http3 :
    (DohClient.exchange numbers formats sockets http two_messages plain_base64 doh_upstream
      (request 7)
      (untouched numbers formats sockets http)
      0).0
    ≡ ok (reply 7)
unfolding DohClient.exchange should_use_http3 text_eq validate_response
over_http3 = refl

exchange-Replies_example : Replies (request 7) (reply 7)
exchange-Replies_example =
    exchange-Replies numbers formats sockets http two_messages plain_base64 doh_upstream (request 7)
      (untouched numbers formats sockets http) 0 (reply 7) over_http3

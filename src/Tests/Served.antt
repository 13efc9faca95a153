-- ===== src/Tests/Served.antt =====
-- A connection of one query, and a packet.
use dnsproxy_rs.Dns.{Message}
use dnsproxy_rs.Error.{Result, ok, err, io}
use dnsproxy_rs.Io.Enough.{serve_connection-enough}
use dnsproxy_rs.Io.Framing.{Handled, no_query, one_query, handle_tcp_connection-Answered}
use dnsproxy_rs.Io.{
  serve_tcp, serve_connection, Bytes, read_prefixed, answer_tcp, handle_udp_packet,
  handle_tcp_connection,
}
use dnsproxy_rs.Prelude.{ℕ, suc, ◌≡◌, refl, [], ◌∷◌, arith}
use dnsproxy_rs.Tests.{names, two_messages, request, reply}

abbrev counting : Message names → ℕ → Result (Message names) × ℕ
counting req n = (ok (reply req.id), suc n)

abbrev packet : Bytes
packet = 0 ∷ []

abbrev answer_frame : Bytes
answer_frame = 0 ∷ 1 ∷ 2 ∷ []

one_packet : Handled two_messages counting (packet ∷ []) 0 ((2 ∷ []) ∷ []) 1
one_packet =
    one_query packet (2 ∷ []) (request 0) (reply 0) (omega arith) refl refl refl (omega arith)
      no_query

cut_off : read_prefixed (9 ∷ []) ≡ err io
unfolding read_prefixed
cut_off = refl

handle_tcp_connection-Answered_example :
    handle_tcp_connection two_messages counting (0 ∷ 1 ∷ 0 ∷ 9 ∷ []) 0 ≡ (ok tt, answer_frame, 1)
handle_tcp_connection-Answered_example =
    handle_tcp_connection-Answered two_messages counting (9 ∷ []) one_packet cut_off

sent_back : handle_udp_packet two_messages counting packet 0 ≡ (ok (2 ∷ []), 1)
unfolding handle_udp_packet
sent_back = refl

serve_connection-enough_example :
    serve_tcp (answer_tcp two_messages counting) 10 (0 ∷ 1 ∷ 0 ∷ 9 ∷ []) [] 0
    ≡ serve_connection (answer_tcp two_messages counting) (0 ∷ 1 ∷ 0 ∷ 9 ∷ []) 0
serve_connection-enough_example =
    serve_connection-enough (answer_tcp two_messages counting) (0 ∷ 1 ∷ 0 ∷ 9 ∷ []) 0 10
      (omega arith)

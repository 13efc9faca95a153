-- ===== src/Tests/Proxied.antt =====
-- The handler of the proxy over one upstream, the DNSCrypt listener, and displayed addresses.
use dnsproxy_rs.Client.Dispatch
use dnsproxy_rs.Client.Dispatch.{plain_udp, nothing_held}
use dnsproxy_rs.Dns.{Message, Codec, Query}
use dnsproxy_rs.Dnscrypt.Certificates.{parse_one_certificate}
use dnsproxy_rs.Dnscrypt.Frames.{encrypt_query}
use dnsproxy_rs.Dnscrypt.Listener as Listener
use dnsproxy_rs.Dnscrypt.Listener.Certificate.{AsksFor, respond-certificate}
use dnsproxy_rs.Dnscrypt.Listener.Datagrams.{Delivered, handle_udp_packet-Delivered}
use dnsproxy_rs.Dnscrypt.Listener.{
  ServerConfig, plain, txt_answer, respond, try_answer_provider_txt,
}
use dnsproxy_rs.Dnscrypt.Padding.{pad, unpad}
use dnsproxy_rs.Error.{Result, ok}
use dnsproxy_rs.Io.Framing.{Sent}
use dnsproxy_rs.Io.{Bytes, handle_udp_packet}
use dnsproxy_rs.Options.{default}
use dnsproxy_rs.Prelude.Text.{codes, text_eq}
use dnsproxy_rs.Prelude.{
  ℕ, suc, ◌≡◌, refl, true, [], ◌∷◌, List, Option, none, some, replicate, ◌==◌, length, arith,
}
use dnsproxy_rs.Proxy.Answering.{handler, handle_udp_packet-Answers}
use dnsproxy_rs.Tests.Networked.{numbers, formats, sockets, http, counting, plain_base64}
use dnsproxy_rs.Tests.Routed.{whole, name_text}
use dnsproxy_rs.Tests.Sealed.{
  open_box, certificate_text, first_byte, cert, nonce, half, message, query_frame, response_frame,
  resolver, byte_texts,
}
use dnsproxy_rs.Tests.{names, two_messages, request, reply}
use dnsproxy_rs.Upstream.{u64_max, Tracked}
use dnsproxy_rs.UpstreamConfig.Exchange.{handle}
use dnsproxy_rs.UpstreamConfig.{ordered, Config}
use dnsproxy_rs.Wire.Laws.{Answers}
use dnsproxy_rs.Wire.{validate_response}
use dnsproxy_rs.Bootstrap.Dial.{Resolver}
use dnsproxy_rs.Client.Dispatch.{dot, doq, plain_tcp}
use dnsproxy_rs.Client.{new_tcp, new_dot, new_doq}
use dnsproxy_rs.Options.{Options}
use dnsproxy_rs.UpstreamUrl.Build.Displayed.{Plain, read, parse_any_upstream-displayed}
use dnsproxy_rs.UpstreamUrl.Build.{Parsers, clone_opts}
use dnsproxy_rs.UpstreamUrl.{parsed, has_char}
use mathlib.Core.List.Perm

-- one upstream over UDP
abbrev Up : Type 0
Up = Dispatch.Upstream numbers formats sockets http open_box (λ addr name. resolver)

abbrev World : Type 0
World = Dispatch.Held numbers formats sockets http open_box (λ addr name. resolver) × ℕ

abbrev nine : Up
nine = plain_udp (record { addr = (9, 53); addr_redacted = []; timeout = none })

abbrev by_udp : Config Up
by_udp = record {
  domain_upstreams = [];
  default_upstreams = record {
    upstreams = record { id = 0; upstream = nine } ∷ [];
    round_robin_cursor = 0;
  };
  mode = ordered;
}

abbrev short : Tracked Up → World → ℕ
short u w = 5000

abbrev same_order : List (Tracked Up) → List (Tracked Up)
same_order us = us

abbrev started : Config Up × ((ℕ → ℕ) × World)
started = (
  by_udp,
  ((λ n. u64_max), (nothing_held numbers formats sockets http open_box (λ addr name. resolver), 0)),
)

abbrev handled :
    Message names
    → Config Up × ((ℕ → ℕ) × World)
    → Result (Message names) × (Config Up × ((ℕ → ℕ) × World))
handled =
    handler numbers formats sockets http open_box (λ addr name. resolver) two_messages plain_base64
      name_text whole short same_order Perm.refl

abbrev after : Config Up × ((ℕ → ℕ) × World)
after = (handle_udp_packet two_messages handled (0 ∷ []) started).1

sent_back : handle_udp_packet two_messages handled (0 ∷ []) started ≡ (ok (2 ∷ []), after)
unfolding handle_udp_packet text_eq validate_response handle Dispatch.exchange
sent_back = refl

handle_udp_packet-Answers_example :
    (sent : Sent two_messages handled (0 ∷ []) started (2 ∷ []) after) × Answers sent.req sent.resp
handle_udp_packet-Answers_example =
    handle_udp_packet-Answers numbers formats sockets http open_box (λ addr name. resolver)
      two_messages plain_base64 name_text whole short same_order Perm.refl (0 ∷ []) (2 ∷ []) started
      after sent_back

-- a query without answers is a query
abbrev txt_question : Query names
txt_question = record { name = codes "2.example"; query_type = 16; query_class = 1 }

abbrev txt_request : Message names
txt_request = record (request 3) { queries = txt_question ∷ [] }

abbrev lib : Listener.Answers names
lib = record {
  is_query = λ m. length m.answers == 0;
  new_response = λ id. record (request id) { queries = [] };
  from_ascii = λ t. some t;
  txt = λ bytes. length bytes;
}

abbrev decoded : Bytes → Option (Message names)
decoded [] = none
decoded (b ∷ bytes) = some txt_request

abbrev txt_messages : Codec names
txt_messages = record {
  to_bytes = λ m. some (length m.answers ∷ []);
  from_bytes = decoded;
  truncate = λ m. m;
}

asks : AsksFor lib (codes "2.example") txt_request txt_question
unfolding text_eq
asks = record {
  is_query = refl;
  others = [];
  first = refl;
  txt = refl;
  name = codes "2.example";
  read = refl;
  same = refl;
}

same_name : text_eq (codes "2.example") (codes "2.example") ≡ true
unfolding text_eq
same_name = refl

abbrev drawn : ℕ → Bytes × ℕ
drawn w = (half, suc w)

respond-certificate_example :
    let config = Listener.new open_box 6 8 (codes "2.example") (replicate 8 9) 1 0 100 in
    let answer = txt_answer lib config.cert_bytes txt_request txt_question in
    (respond open_box txt_messages lib drawn config counting (5 ∷ []) 0 ≡ (ok (plain answer), 0))
    × Answers txt_request answer
    × (answer.answers
        ≡ record {
          name = codes "2.example";
          record_type = 16;
          ttl = 60;
          rdata = lib.txt config.cert_bytes;
        }
          ∷ [])
    × (parse_one_certificate open_box config.cert_bytes (replicate 32 8) ≡ some cert)
respond-certificate_example =
    respond-certificate open_box txt_messages lib drawn counting 6 8 (codes "2.example")
      (replicate 8 9) 1 0 100 (5 ∷ []) txt_request txt_question 0 refl (omega arith) (omega arith)
      (omega arith) refl asks same_name

abbrev config : ServerConfig open_box
config = record {
  resolver_secret_key = 6;
  provider_name = codes "2.example";
  client_magic = replicate 8 9;
  cert_bytes = certificate_text;
}

sent : encrypt_query open_box cert 5 nonce message ≡ ok (query_frame, nonce)
unfolding encrypt_query
sent = refl

no_txt :
    try_answer_provider_txt lib
      (codes "2.example")
      certificate_text
      (two_messages.from_bytes query_frame)
    ≡ none
unfolding try_answer_provider_txt
no_txt = refl

delivered :
    Listener.handle_udp_packet open_box two_messages lib drawn config counting query_frame 0
    ≡ (ok response_frame, 2)
unfolding Listener.handle_udp_packet text_eq pad unpad
delivered = refl

handle_udp_packet-Delivered_example :
    Delivered open_box two_messages lib drawn config counting cert 5 nonce
      (λ w. refl)
      refl
      refl
      (2 ∷ [])
      response_frame
handle_udp_packet-Delivered_example =
    handle_udp_packet-Delivered open_box two_messages lib drawn config counting cert 5 nonce
      (λ w. refl) refl refl message query_frame nonce (2 ∷ []) response_frame (reply 0) (reply 0) 0
      1 2 refl refl sent no_txt refl refl refl delivered

-- a port is written as one character
abbrev parsers : Parsers numbers
parsers = record {
  parse_socket_addr = λ text. none;
  parse_uri = λ text. none;
  texts = record byte_texts { parse_u16 = first_byte };
  addr_of = λ a. (a, 53);
  encode = λ text. text;
}

unambiguous :
    Plain numbers formats sockets http open_box
      (λ addr name. resolver)
      parsers
      (codes "dns.example")
      853
unfolding has_char
unambiguous = record {
  reads = refl;
  port_no_colon = refl;
  ipv6 = λ e. refl;
  name = λ e. refl;
  no_bracket = refl;
}

abbrev opts : Options (Resolver numbers sockets)
opts = default

parse_any_upstream-displayed_example :
    let tcp = new_tcp numbers formats sockets (codes "dns.example") (some 853) (clone_opts opts) in
    let tls = new_dot numbers formats sockets (codes "dns.example") (some 853) (clone_opts opts) in
    let quic = new_doq numbers formats sockets (codes "dns.example") (some 853) (clone_opts opts) in
    (read numbers formats sockets http open_box
        (λ addr name. resolver)
        parsers
        4
        (codes "dns.example")
        853
        opts
        tcp.addr_redacted
      ≡ parsed (plain_tcp tcp))
    × (read numbers formats sockets http open_box
          (λ addr name. resolver)
          parsers
          4
          (codes "dns.example")
          853
          opts
          tls.tcp.addr_redacted
        ≡ parsed (dot tls))
    × (read numbers formats sockets http open_box
          (λ addr name. resolver)
          parsers
          4
          (codes "dns.example")
          853
          opts
          quic.tcp.addr_redacted
        ≡ parsed (doq 4 quic))
parse_any_upstream-displayed_example =
    parse_any_upstream-displayed numbers formats sockets http open_box (λ addr name. resolver)
      parsers 4 (codes "dns.example") 853 opts unambiguous

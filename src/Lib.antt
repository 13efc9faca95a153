-- ===== src/Lib.antt =====
-- A model of dnsproxy.rs, a DNS proxy that answers queries from a cache and forwards them over DoH,
-- DoT, DoQ, DNSCrypt and plain DNS to upstreams that a list of rules chooses.
--
-- A query reaches a listener, which decodes it and hands it to a handler. The handler of the cache
-- looks for a stored response; on a miss it calls the handler of the upstream list, which finds
-- the group of the most specific rule for the query's name, orders the group's upstreams by the mode
-- and asks them one after the other. Each exchange that succeeds feeds the latency tracker of its
-- upstream, which the mode LoadBalance reads.
--
--   Error           src/error.rs: `DohError` and the results of fallible code; a panic is a result.
--   Dns             the messages of hickory_proto; names, data and the codec are parameters.
--   Wire            src/client/wire.rs: `encode_request`, `decode_request`, `decode_response`,
--                   `encode_response`, `validate_response`.
--   Lru             the interface of lru::LruCache: operations and documented laws.
--   Cache           src/cache.rs: `Cache::get`, `insert`, `response_ttl`, `cache_key`, and the
--                   closure of `into_handler` as `handle`, with what other tasks do to the shared
--                   map while the upstream is asked as an argument.
--   Upstream        src/client/upstream.rs: `LatencyTracker` and `TrackedUpstream::exchange`. The
--                   Arc of an upstream is a number, its atomic a cell under that number.
--   UpstreamConfig  src/client/upstream_config.rs: `parse_with_mode` in Parse, `split_config_line`
--                   in Line, `group_for` in Lookup, `UpstreamGroup::ordered` and `upstreams_for` in
--                   Order, `exchange` in Exchange.
--   Exec            asynchronous functions: a result and the world that is left, with timeouts.
--   Failover        the loop over alternatives that `UpstreamConfig::exchange` and `new_dial_context`
--                   share.
--   Options         src/options.rs.
--   Sockets         the interface of tokio, tokio_rustls and quinn.
--   Bootstrap       src/client/bootstrap.rs: the merge of answers, `ParallelResolver` over the order
--                   in which results arrive, and `resolve_addrs`; in Dial, the system and the static
--                   resolver, `dial_one`, `new_dial_context` and `resolve_dial_context`; in Queries, the plain and the
--                   DoH resolver.
--   UpstreamUrl     src/client/upstream_url.rs: `extract_userinfo` and `split_host_port`; in Build,
--                   `parse_upstream` and `parse_any_upstream`.
--   Client          src/client/plain_udp.rs, plain_tcp.rs and dot.rs: settings, and the exchanges in
--                   Plain; in Reuse, what the clients of DoQ and DoH do with a kept connection; in
--                   Dispatch, the enum `Upstream` and its exchange.
--   Dot             src/listener/dot.rs: `handle_connection`.
--   Doq             src/listener/doq.rs: `handle_stream`; in Client, src/client/doq.rs.
--   Doh             src/client/doh.rs: settings; `create_client` and `exchange_https` in Https, the
--                   choice of the version and `exchange` in Client; src/client/doh3.rs in Http3;
--                   src/listener/doh_auth.rs in Credentials, doh.rs in Listener, doh3.rs in Listener3.
--                   The crates hyper, http and h3 are the interface `Http`.
--   Io              src/listener/io.rs: `read_prefixed`, `write_prefixed`, `handle_udp_packet` and the
--                   loop of `handle_tcp_connection`, on the bytes of a stream.
--   Dnscrypt        src/client/dnscrypt/crypto.rs: `pad` and `unpad` in Padding, the frames in
--                   Frames, certificates in Certificates; the crates crypto_box and ed25519_dalek
--                   are the interface `Crypto`. src/client/dnscrypt.rs in Client, with the cached
--                   certificate as state; src/client/dnscrypt/stamp.rs and keygen.rs in Stamp;
--                   src/listener/dnscrypt.rs in Listener.
--   Proxy           src/main.rs: the upstream lines, the credentials, the addresses to listen on,
--                   and the handler that the listeners get.
--
-- Times are nanoseconds and the clock's value is an argument or read of the world; random bytes and
-- the shuffle are arguments. The arithmetic of f64 is the interface `Floats`. A HashMap is an
-- association list. A socket call takes the world and leaves another one; a timeout asks whether its
-- duration is over before the action is. The search of `group_for` runs on fuel, one more than the
-- length of the name: each round drops at least one character. The loops of a connection and of
-- `read_lp` run on fuel, one more than the bytes to read, of which each round takes one at least.
-- Numbers wrap where the source's do: the cursor of a group at 2^64, the seconds of a hit at 2^32.
--
-- Not modelled: the loops that accept connections and spawn tasks, the TLS and configuration files,
-- the command line and the log, which are input and output around libraries; and, as yet,
-- src/client/dnscrypt/config.rs.
pub mod Prelude
pub mod Error
pub mod Exec
pub mod Failover
pub mod Dns
pub mod Wire
pub mod Lru
pub mod Cache
pub mod Upstream
pub mod UpstreamConfig
pub mod Options
pub mod Sockets
pub mod Bootstrap
pub mod UpstreamUrl
pub mod Io
pub mod Client
pub mod Dot
pub mod Doq
pub mod Doh
pub mod Proxy
pub mod Dnscrypt
mod Tests

-- ===== src/Tests/Cached.antt =====
-- The cache over a map without a limit.
use dnsproxy_rs.Cache.Handler.{handle-handle}
use dnsproxy_rs.Cache.History.{Call, lookup, store, WasStored, run, get-WasStored}
use dnsproxy_rs.Cache.Hits.{get-insert}
use dnsproxy_rs.Cache.Ttl.{Fits, Served, response_ttl-Fits}
use dnsproxy_rs.Cache.{
  second, CacheOptions, CacheKey, CacheEntry, key_eq, cache_key, response_ttl, refreshed, get,
  insert, handle,
}
use dnsproxy_rs.Dns.{Message}
use dnsproxy_rs.Error.{Result, ok}
use dnsproxy_rs.Lru.{Lru}
use dnsproxy_rs.Prelude.{
  ℕ, ◌-◌, ◌*◌, ◌<◌, ◌≡◌, refl, suc, inl, true, false, List, [], ◌∷◌, Option, none, some,
  if◌then◌else◌, ltb, arith,
}
use dnsproxy_rs.Prelude.Text.{codes, text_eq}
use dnsproxy_rs.Tests.{names, request, reply}

abbrev unlimited : Lru (CacheKey names) (CacheEntry names) key_eq
unlimited = record {
  Store = CacheKey names → Option (CacheEntry names);
  new = λ n k. none;
  get = λ k s. (s k, s);
  pop = λ k s j. if key_eq j k then none else s j;
  put = λ k v s j. if key_eq j k then some v else s j;
  peek = λ k s. s k;
  peek-new = λ n k. refl;
  get-peek = λ k s. refl;
  peek-get = λ j k s. refl;
  peek-pop_eq = λ j k s same. rw same refl;
  peek-pop_ne = λ j k s other. rw other refl;
  peek-put_eq = λ j k v s same. rw same refl;
  peek-put_ne = λ j k v s other. rw other (inl refl);
}

abbrev options : CacheOptions
options = record { size = 10; min_ttl = 0; max_ttl = none }

abbrev www : CacheKey names
www = record {
  name = codes "www.example.com";
  query_type = 1;
  query_class = 1;
  dnssec_ok = false;
  checking_disabled = false;
}

abbrev stored : CacheEntry names
stored = record { response = reply 5; stored_at = 0; ttl = 60 * second }

response_ttl_60 : response_ttl options (reply 5) ≡ some (60 * second)
unfolding response_ttl
response_ttl_60 = refl

www_equal : key_eq www www ≡ true
unfolding key_eq text_eq
www_equal = refl

response_ttl-Fits_example : Fits options (reply 5) (60 * second)
response_ttl-Fits_example = response_ttl-Fits options (reply 5) response_ttl_60

get-insert_example :
    (get unlimited www 9
      (20 * second)
      (insert unlimited options www (reply 5) 0 (unlimited.new 10))).0
    ≡ (if ltb (20 * second - 0) (60 * second)
        then some (refreshed stored 9 (20 * second))
        else none)
get-insert_example =
    get-insert unlimited options www www (reply 5) 9 0 (20 * second) (60 * second)
      (unlimited.new 10) response_ttl_60 www_equal

abbrev calls : List (Call names)
calls = lookup www 8 second ∷ store www (reply 5) 0 ∷ []

hit :
    (get unlimited www 9 (20 * second) (run unlimited options calls)).0
    ≡ some (refreshed stored 9 (20 * second))
unfolding run get insert key_eq text_eq
hit = refl

get-WasStored_example :
    (e : CacheEntry names) × WasStored options www e calls
    × (20 * second - e.stored_at < e.ttl)
    × Served e 9 (20 * second) (refreshed stored 9 (20 * second))
get-WasStored_example = get-WasStored unlimited options calls www 9 (20 * second) hit

-- an upstream that counts its queries
abbrev upstream_of : Message names → ℕ → Result (Message names) × ℕ
upstream_of req n = (ok (reply req.id), suc n)

key_of : (id : ℕ) → cache_key (request id) ≡ some www
unfolding cache_key
key_of id = refl

miss_first : (get unlimited www 5 0 (unlimited.new 10)).0 ≡ none
unfolding get
miss_first = refl

handle-handle_example :
    let first =
      handle unlimited options upstream_of (λ s. s) 0 0 (request 5) (unlimited.new 10) 0 in
    let again =
      handle unlimited options upstream_of
        (λ s. s)
        (20 * second)
        (20 * second)
        (request 9)
        first.1
        first.2 in
    (first.0 ≡ ok (reply 5))
    × (first.2 ≡ 1)
    × (again.2 ≡ 1)
    × (again.0 ≡ ok (refreshed stored 9 (20 * second)))
handle-handle_example =
    handle-handle unlimited options upstream_of (λ s. s) (λ s. s) 0 0 (20 * second) (20 * second)
      (60 * second) (request 5) (request 9) (reply 5) www www (unlimited.new 10) 0 1 (key_of 5)
      (key_of 9) www_equal miss_first refl response_ttl_60 (omega arith)

-- ===== src/Cache.antt =====
-- src/cache.rs: the response cache. The map of the crate lru is the interface `Lru`; times are
-- nanoseconds, and the clock's value is an argument. Each operation holds the lock of the map from
-- its first to its last step, so that it is one step on the store.
pub mod Sections
pub mod Ttl
pub mod Hits
pub mod History
pub mod Handler
use dnsproxy_rs.Dns.{Hickory, Message, Record, Query, opt}
use dnsproxy_rs.Error.{Result, ok, err, panic}
use dnsproxy_rs.Lru.{Lru}
use dnsproxy_rs.Prelude.{
  ℕ, ◌+◌, ◌-◌, ◌*◌, ◌/◌, ◌%◌, ◌^◌, Bool, true, false, not, ◌&&◌, List, [], ◌∷◌, ◌++◌, map, Option,
  none, some, ◌==◌, ltb, leb, if◌then◌else◌, min,
}

-- `Duration::from_secs(1)` in nanoseconds.
abbrev pub second : ℕ
second = 1_000_000_000

pub record CacheOptions : Type 0 where
  pub size : ℕ
  pub min_ttl : ℕ
  pub max_ttl : Option ℕ

pub record CacheKey (h : Hickory) : Type 0 where
  pub name : h.Name
  pub query_type : ℕ
  pub query_class : ℕ
  pub dnssec_ok : Bool
  pub checking_disabled : Bool

pub record CacheEntry (h : Hickory) : Type 0 where
  pub response : Message h
  pub stored_at : ℕ
  pub ttl : ℕ

abbrev pub bool_eq : Bool → Bool → Bool
bool_eq true b = b
bool_eq false b = not b

-- `is_some_and(|edns| edns.flags().dnssec_ok)`
abbrev pub flag : Option Bool → Bool
flag none = false
flag (some b) = b

-- `Iterator::min`
unfoldable pub minimum : List ℕ → Option ℕ
minimum [] = none
minimum (x ∷ xs) = elim (minimum xs) [ none ↦ some x | some m ↦ some (min x m) ]

unfoldable pub raise_ttl : ℕ → ℕ → ℕ
raise_ttl floor ttl = if ltb ttl floor then floor else ttl

unfoldable pub cap_ttl : Option ℕ → ℕ → ℕ
cap_ttl none ttl = ttl
cap_ttl (some ceiling) ttl = if ltb ceiling ttl then ceiling else ttl

module _ {h : Hickory} where
  -- the derived `==` of keys
  unfoldable pub key_eq : CacheKey h → CacheKey h → Bool
  key_eq a b =
      h.name_eq a.name b.name
      && a.query_type == b.query_type
      && a.query_class == b.query_class
      && bool_eq a.dnssec_ok b.dnssec_ok
      && bool_eq a.checking_disabled b.checking_disabled

  unfoldable pub query_key : Message h → List (Query h) → Option (CacheKey h)
  query_key req (q ∷ []) = some (record {
    name = q.name;
    query_type = q.query_type;
    query_class = q.query_class;
    dnssec_ok = flag req.edns;
    checking_disabled = req.checking_disabled;
  })
  query_key req qs = none

  unfoldable pub cache_key : Message h → Option (CacheKey h)
  unfolding query_key
  cache_key req = query_key req req.queries

  abbrev pub is_cacheable : Record h → Bool
  is_cacheable r = not (r.record_type == opt)

  unfoldable pub cacheable : List (Record h) → List (Record h)
  cacheable [] = []
  cacheable (r ∷ rs) = if is_cacheable r then r ∷ cacheable rs else cacheable rs

  unfoldable pub cacheable_records : Message h → List (Record h)
  unfolding cacheable
  cacheable_records msg = cacheable (msg.answers ++ (msg.authorities ++ msg.additionals))

  -- The loop over `all_records_mut`, on one section.
  unfoldable pub set_ttl : ℕ → List (Record h) → List (Record h)
  set_ttl t [] = []
  set_ttl t (r ∷ rs) = (if is_cacheable r then record r { ttl = t } else r) ∷ set_ttl t rs

  unfoldable pub set_all_ttl : ℕ → Message h → Message h
  unfolding set_ttl
  set_all_ttl t msg = record msg {
    answers = set_ttl t msg.answers;
    authorities = set_ttl t msg.authorities;
    additionals = set_ttl t msg.additionals;
  }

  abbrev pub ttls : List (Record h) → List ℕ
  ttls = map (λ r. r.ttl)

  unfoldable pub response_ttl : CacheOptions → Message h → Option ℕ
  unfolding cacheable_records minimum raise_ttl cap_ttl
  response_ttl o resp = elim (minimum (ttls (cacheable_records resp))) [
    | none ↦ none
    | some s ↦ some (cap_ttl o.max_ttl (raise_ttl o.min_ttl (s * second)))
  ]

  -- `(entry.ttl - elapsed).as_secs() as u32`
  unfoldable pub remaining : CacheEntry h → ℕ → ℕ
  remaining e now = (e.ttl - (now - e.stored_at)) / second % 2 ^ 32

  -- What a hit returns.
  unfoldable pub refreshed : CacheEntry h → ℕ → ℕ → Message h
  unfolding remaining set_all_ttl
  refreshed e id now = set_all_ttl (remaining e now) (record e.response { id = id })

  module _ (l : Lru (CacheKey h) (CacheEntry h) key_eq) where
    unfoldable pub serve :
        CacheKey h → ℕ → ℕ → Option (CacheEntry h) → l.Store → Option (Message h) × l.Store
    unfolding refreshed
    serve key id now none s = (none, s)
    serve key id now (some e) s =
        if leb e.ttl (now - e.stored_at)
        then (none, l.pop key s)
        else (some (refreshed e id now), s)

    -- `Cache::get`, at the time `now`
    unfoldable pub get : CacheKey h → ℕ → ℕ → l.Store → Option (Message h) × l.Store
    unfolding serve
    get key id now s = let (found, s') = l.get key s in serve key id now found s'

    -- `Cache::insert`
    unfoldable pub insert : CacheOptions → CacheKey h → Message h → ℕ → l.Store → l.Store
    unfolding response_ttl
    insert o key resp now s = elim (response_ttl o resp) [
      | none ↦ s
      | some ttl ↦ l.put key (record { response = resp; stored_at = now; ttl = ttl }) s
    ]

    -- The closure of `into_handler`. `handler` runs in a world of its own; while it runs, other
    -- tasks change the store by `others`. The lookup is at `now`, the store at `later`.
    module _ {W : Type 0} (o : CacheOptions) (handler : Message h → W → Result (Message h) × W)
        (others : l.Store → l.Store) (now later : ℕ) where
      unfoldable pub keep : CacheKey h → Result (Message h) → l.Store → Result (Message h) × l.Store
      unfolding insert
      keep key (ok resp) s = (ok resp, insert o key resp later s)
      keep key (err e) s = (err e, s)
      keep key panic s = (panic, s)

      unfoldable pub forward :
          CacheKey h → Message h → l.Store → W → Result (Message h) × l.Store × W
      unfolding keep
      forward key req s w =
          let (r, w') = handler req w in let (r', s') = keep key r (others s) in (r', s', w')

      unfoldable pub answer :
          CacheKey h
          → Message h
          → Option (Message h)
          → l.Store
          → W
          → Result (Message h) × l.Store × W
      unfolding forward
      answer key req (some resp) s w = (ok resp, s, w)
      answer key req none s w = forward key req s w

      unfoldable pub handle : Message h → l.Store → W → Result (Message h) × l.Store × W
      unfolding answer cache_key get
      handle req s w = elim (cache_key req) [
        | none ↦ (let (r, w') = handler req w in (r, others s, w'))
        | some key ↦ (let (hit, s') = get key req.id now s in answer key req hit s' w)
      ]

-- ===== src/Cache/Handler.antt =====
-- The handler that `into_handler` builds: when the upstream is asked, and what is stored.
use dnsproxy_rs.Cache.{
  CacheOptions, CacheKey, CacheEntry, key_eq, cache_key, response_ttl, refreshed, get, insert, keep,
  forward, answer, handle,
}
use dnsproxy_rs.Cache.Hits.{get-insert}
use dnsproxy_rs.Dns.{Hickory, Message}
use dnsproxy_rs.Error.{DohError, Result, ok, err}
use dnsproxy_rs.Lru.{Lru}
use dnsproxy_rs.Prelude.{ℕ, ◌-◌, ◌<◌, ◌≡◌, refl, true, none, some, ap, lt→ltb}

module _ {h : Hickory} (l : Lru (CacheKey h) (CacheEntry h) key_eq) {W : Type 0} (o : CacheOptions)
    (handler : Message h → W → Result (Message h) × W) where
  open l use {Store}

  handle_miss :
      (others : Store → Store) (now later : ℕ) (req resp : Message h) (key : CacheKey h) (s : Store)
      (w w' : W)
      → cache_key req ≡ some key
      → (get l key req.id now s).0 ≡ none
      → handler req w ≡ (ok resp, w')
      → handle l o handler others now later req s w
        ≡ (ok resp, insert l o key resp later (others (get l key req.id now s).1), w')
  unfolding handle answer forward keep
  handle_miss others now later req resp key s w w' k miss asked =
      rw (k, handle, miss, answer, asked)

  handle_hit :
      (others : Store → Store) (now later : ℕ) (req resp : Message h) (key : CacheKey h) (s : Store)
      (w : W)
      → cache_key req ≡ some key
      → (get l key req.id now s).0 ≡ some resp
      → handle l o handler others now later req s w ≡ (ok resp, (get l key req.id now s).1, w)
  unfolding handle answer
  handle_hit others now later req resp key s w k hit = rw (k, handle, hit, answer)

  -- An upstream's error is passed on, and the store is left as the lookup and the other tasks
  -- leave it.
  handle_error :
      (others : Store → Store) (now later : ℕ) (req : Message h) (e : DohError) (key : CacheKey h)
      (s : Store) (w w' : W)
      → cache_key req ≡ some key
      → (get l key req.id now s).0 ≡ none
      → handler req w ≡ (err e, w')
      → handle l o handler others now later req s w ≡ (err e, others (get l key req.id now s).1, w')
  unfolding handle answer forward keep
  handle_error others now later req e key s w w' k miss asked = rw (k, handle, miss, answer, asked)

  -- If a request that misses and that the upstream answers with a response that is stored is followed by one with
  -- an equal key within the stored lifetime, and no task changes the store in between, then the
  -- second is served from the cache: the upstream is not asked again, its world is unchanged, and the
  -- response carries the second request's identifier.
  pub handle-handle :
      (others others' : Store → Store) (now later now' later' ttl : ℕ) (req req' resp : Message h)
      (key key' : CacheKey h) (s : Store) (w w' : W)
      → cache_key req ≡ some key
      → cache_key req' ≡ some key'
      → key_eq key' key ≡ true
      → (get l key req.id now s).0 ≡ none
      → handler req w ≡ (ok resp, w')
      → response_ttl o resp ≡ some ttl
      → now' - later < ttl
      → let first = handle l o handler others now later req s w in
        let second = handle l o handler others' now' later' req' first.1 first.2 in
        (first.0 ≡ ok resp)
        × (first.2 ≡ w')
        × (second.2 ≡ w')
        × (second.0
            ≡ ok
                (refreshed (record { response = resp; stored_at = later; ttl = ttl }) req'.id now'))
  handle-handle others others' now later now' later' ttl req req' resp key key' s w w' k k' same
        miss asked t fresh =
      let after : Store = insert l o key resp later (others (get l key req.id now s).1) in
      let found = rw (lt→ltb _ _ fresh) at (
        get-insert l o key' key resp req'.id later now' ttl (others (get l key req.id now s).1) t
          same) in
      let hit = handle_hit others' now' later' req' _ key' after w' k' found in
      rw (handle_miss others now later req resp key s w w' k miss asked)
        (refl, refl, ap (λ r. r.2) hit, ap (λ r. r.0) hit)

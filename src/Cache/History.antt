-- ===== src/Cache/History.antt =====
-- Any interleaving of lookups and stores by the tasks that share the cache: a hit is a response
-- that some task stored under an equal key, and whose lifetime is not over.
use dnsproxy_rs.Cache.{CacheOptions, CacheKey, CacheEntry, key_eq, response_ttl, get, insert}
use dnsproxy_rs.Cache.Hits.{get-FromEntry, get-keeps}
use dnsproxy_rs.Cache.Ttl.{Served}
use dnsproxy_rs.Dns.{Hickory, Message}
use dnsproxy_rs.Lru.{Lru}
use dnsproxy_rs.Prelude.{
  ℕ, ◌-◌, ◌<◌, ◌≡◌, ◌⊎◌, inl, inr, Bool-cases, Option-cases, true, List, [], ◌∷◌, some, ◌∙◌, sym,
  ap,
}

-- One step of a task under the lock.
pub data Call (h : Hickory) : Type 0 where
  lookup : CacheKey h → ℕ → ℕ → Call h
  store : CacheKey h → Message h → ℕ → Call h

-- Some step among these, the last one first, stored the entry under a key equal to `key`.
pub data WasStored {h : Hickory} (o : CacheOptions) (key : CacheKey h) (e : CacheEntry h)
    : List (Call h) → Type 0 where
  here :
      (k : CacheKey h) (resp : Message h) (now : ℕ) {calls : List (Call h)}
      → key_eq key k ≡ true
      → e.response ≡ resp
      → e.stored_at ≡ now
      → response_ttl o resp ≡ some e.ttl
      → WasStored o key e (store k resp now ∷ calls)
  there :
      {c : Call h} {calls : List (Call h)} → WasStored o key e calls → WasStored o key e (c ∷ calls)

module _ {h : Hickory} (l : Lru (CacheKey h) (CacheEntry h) key_eq) (o : CacheOptions) where
  open l use {Store, peek}

  unfoldable pub step : Call h → Store → Store
  step (lookup key id now) s = (get l key id now s).1
  step (store key resp now) s = insert l o key resp now s

  -- The calls, the last one first, from an empty cache.
  unfoldable pub run : List (Call h) → Store
  unfolding step
  run [] = l.new o.size
  run (c ∷ calls) = step c (run calls)

  insert-cases :
      (key : CacheKey h) (resp : Message h) (now : ℕ) (s : Store)
      → (insert l o key resp now s ≡ s)
        ⊎ ((ttl : ℕ) × (response_ttl o resp ≡ some ttl)
            × (insert l o key resp now s
                ≡ l.put key (record { response = resp; stored_at = now; ttl = ttl }) s))
  unfolding insert
  insert-cases key resp now s = elim (Option-cases (response_ttl o resp)) [
    | inl nothing ↦ inl (rw (nothing, insert))
    | inr (ttl, some_ttl) ↦ inr (ttl, some_ttl, rw (some_ttl, insert))
  ]

  put-WasStored :
      (j key : CacheKey h) (resp : Message h) (now ttl : ℕ) (e : CacheEntry h)
      (calls : List (Call h)) (s : Store)
      → response_ttl o resp ≡ some ttl
      → (peek j s ≡ some e → WasStored o j e calls)
      → peek j (l.put key (record { response = resp; stored_at = now; ttl = ttl }) s) ≡ some e
      → WasStored o j e (store key resp now ∷ calls)
  put-WasStored j key resp now ttl e calls s t before p = elim (Bool-cases (key_eq j key)) [
    | inl equal ↦
        let same : some (record { response = resp; stored_at = now; ttl = ttl }) ≡ some e =
          sym (l.peek-put_eq j key _ s equal) ∙ p in
        here key resp now equal (cc same) (cc same) (t ∙ cc same)
    | inr other ↦ elim (l.peek-put_ne j key _ s other) [
      | inl kept ↦ there (before (sym kept ∙ p))
      | inr gone ↦ absurd (cc (gone, p))
    ]
  ]

  run-WasStored :
      (calls : List (Call h)) (j : CacheKey h) (e : CacheEntry h)
      → peek j (run calls) ≡ some e
      → WasStored o j e calls
  unfolding run
  run-WasStored [] j e p = absurd (cc (l.peek-new o.size j, p))
  run-WasStored (lookup key id now ∷ calls) j e p = elim (get-keeps l j key id now (run calls)) [
    | inl same ↦ there (run-WasStored calls j e (sym same ∙ p))
    | inr gone ↦ absurd (cc (gone, p))
  ]
  run-WasStored (store key resp now ∷ calls) j e p = elim (insert-cases key resp now (run calls)) [
    | inl same ↦ there (run-WasStored calls j e (ap (peek j) (sym same) ∙ p))
    | inr (ttl, t, put) ↦
        put-WasStored j key resp now ttl e calls (run calls) t (run-WasStored calls j e)
          (ap (peek j) (sym put) ∙ p)
  ]

  -- After any sequence of lookups and stores from an empty cache, a hit is the response of an
  -- earlier store under an equal key, its lifetime is not over, and it is unchanged except that it
  -- shows the request's identifier and, on the records other than OPT, what is left of its lifetime.
  pub get-WasStored :
      (calls : List (Call h)) (key : CacheKey h) (id now : ℕ) {m : Message h}
      → (get l key id now (run calls)).0 ≡ some m
      → (e : CacheEntry h) × WasStored o key e calls
        × (now - e.stored_at < e.ttl)
        × Served e id now m
  get-WasStored calls key id now e =
      let found = get-FromEntry l key id now (run calls) e in
      (found.entry, run-WasStored calls key found.entry found.stored, found.fresh, found.served)

-- ===== src/Cache/Hits.antt =====
-- Lookups and stores, one at a time: what `get` returns and leaves behind, and what a lookup after
-- an `insert` finds.
use dnsproxy_rs.Cache.{
  CacheOptions, CacheKey, CacheEntry, key_eq, response_ttl, refreshed, serve, get, insert,
}
use dnsproxy_rs.Cache.Ttl.{Served, refreshed-Served}
use dnsproxy_rs.Dns.{Hickory, Message}
use dnsproxy_rs.Lru.{Lru}
use dnsproxy_rs.Prelude.{
  ℕ, ◌-◌, ◌≤◌, ◌<◌, ◌≡◌, ◌⊎◌, inl, inr, Bool-cases, true, false, Option, none, some, arith, leb,
  ltb→lt, ltb, if◌then◌else◌, ◌∙◌, sym,
}

module _ {h : Hickory} (l : Lru (CacheKey h) (CacheEntry h) key_eq) where
  open l use {Store, peek, get-peek, peek-get, peek-pop_eq, peek-pop_ne, peek-put_eq, peek-put_ne}

  -- A served message belongs to the entry stored under an equal key, whose lifetime is not over.
  pub record FromEntry (key : CacheKey h) (id now : ℕ) (s : Store) (m : Message h) : Type 0 where
    pub entry : CacheEntry h
    pub stored : peek key s ≡ some entry
    pub fresh : now - entry.stored_at < entry.ttl
    pub served : Served entry id now m

  serve-FromEntry :
      (key : CacheKey h) (id now : ℕ) (found : Option (CacheEntry h)) (s s' : Store) {m : Message h}
      → peek key s ≡ found
      → (serve l key id now found s').0 ≡ some m
      → FromEntry key id now s m
  unfolding serve
  serve-FromEntry key id now none s s' p e = cc
  serve-FromEntry key id now (some entry) s s' {m} p e =
      elim (Bool-cases (leb entry.ttl (now - entry.stored_at))) [
        | inl over ↦ absurd (ground arith)
        | inr left ↦
            let fresh : now - entry.stored_at < entry.ttl = ground arith in
            let same : refreshed entry id now ≡ m = ground arith in
            record {
              entry = entry;
              stored = p;
              fresh = fresh;
              served = rw same at (refreshed-Served entry id now fresh);
            }
      ]

  -- Whatever `get` returns comes from an entry that is still alive.
  pub get-FromEntry :
      (key : CacheKey h) (id now : ℕ) (s : Store) {m : Message h}
      → (get l key id now s).0 ≡ some m
      → FromEntry key id now s m
  unfolding get
  get-FromEntry key id now s e =
      serve-FromEntry key id now (l.get key s).0 s (l.get key s).1 (sym (get-peek key s)) e

  serve-keeps :
      (j key : CacheKey h) (id now : ℕ) (found : Option (CacheEntry h)) (s s' : Store)
      → ((k : CacheKey h) → peek k s' ≡ peek k s)
      → (peek j (serve l key id now found s').1 ≡ peek j s)
        ⊎ (peek j (serve l key id now found s').1 ≡ none)
  unfolding serve
  serve-keeps j key id now none s s' same = inl (same j)
  serve-keeps j key id now (some e) s s' same = elim (Bool-cases (leb e.ttl (now - e.stored_at))) [
    | inl over ↦ elim (Bool-cases (key_eq j key)) [
      | inl equal ↦ inr (rw over (peek-pop_eq j key s' equal))
      | inr other ↦ inl (rw over (peek-pop_ne j key s' other ∙ same j))
    ]
    | inr left ↦ inl (rw left (same j))
  ]

  -- A lookup keeps each entry or removes it.
  pub get-keeps :
      (j key : CacheKey h) (id now : ℕ) (s : Store)
      → (peek j (get l key id now s).1 ≡ peek j s) ⊎ (peek j (get l key id now s).1 ≡ none)
  unfolding get
  get-keeps j key id now s =
      serve-keeps j key id now (l.get key s).0 s (l.get key s).1 (λ k. peek-get k key s)

  module _ (j : CacheKey h) (id now : ℕ) (e : CacheEntry h) (s : Store)
      (stored : peek j s ≡ some e) where
    get-alive : now - e.stored_at < e.ttl → (get l j id now s).0 ≡ some (refreshed e id now)
    unfolding get serve
    get-alive fresh =
        let found : (l.get j s).0 ≡ some e = get-peek j s ∙ stored in
        let test : leb e.ttl (now - e.stored_at) ≡ false = ground arith in rw (found, serve, test)

    get-over : e.ttl ≤ now - e.stored_at → (get l j id now s).0 ≡ none
    unfolding get serve
    get-over over =
        let found : (l.get j s).0 ≡ some e = get-peek j s ∙ stored in
        let test : leb e.ttl (now - e.stored_at) ≡ true = ground arith in rw (found, serve, test)

  peek-insert :
      (o : CacheOptions) (j key : CacheKey h) (resp : Message h) (now ttl : ℕ) (s : Store)
      → response_ttl o resp ≡ some ttl
      → key_eq j key ≡ true
      → peek j (insert l o key resp now s)
        ≡ some (record { response = resp; stored_at = now; ttl = ttl })
  unfolding insert
  peek-insert o j key resp now ttl s e same = rw (e, insert) (peek-put_eq j key _ s same)

  -- Until its lifetime is over, a stored response is what a lookup under an equal key finds, and
  -- from then on such a lookup finds nothing.
  pub get-insert :
      (o : CacheOptions) (j key : CacheKey h) (resp : Message h) (id now later ttl : ℕ) (s : Store)
      → response_ttl o resp ≡ some ttl
      → key_eq j key ≡ true
      → (get l j id later (insert l o key resp now s)).0 ≡ (
          if ltb (later - now) ttl
          then some (refreshed (record { response = resp; stored_at = now; ttl = ttl }) id later)
          else none)
  get-insert o j key resp id now later ttl s e same =
      let stored = peek-insert o j key resp now ttl s e same in
      elim (Bool-cases (ltb (later - now) ttl)) [
        | inl alive ↦ rw alive (get-alive j id later _ _ stored (ltb→lt _ _ alive))
        | inr over ↦ rw over (get-over j id later _ _ stored (ground arith))
      ]

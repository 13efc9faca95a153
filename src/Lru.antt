-- ===== src/Lru.antt =====
-- The map `lru::LruCache` as the cache uses it: its operations, and what its documentation says of
-- them, by the entry that `peek` shows under each key.
use dnsproxy_rs.Prelude.{ℕ, Bool, true, false, Option, none, some, ◌≡◌, ◌⊎◌}

pub record Lru (K V : Type 0) (key_eq : K → K → Bool) : Type 1 where
  pub Store : Type 0
  pub new : ℕ → Store
  -- moves a hit to the front
  pub get : K → Store → Option V × Store
  pub pop : K → Store → Store
  -- replaces the entry of an equal key, and evicts the entry used longest ago from a full map
  pub put : K → V → Store → Store
  pub peek : K → Store → Option V
  pub peek-new : (n : ℕ) (k : K) → peek k (new n) ≡ none
  pub get-peek : (k : K) (s : Store) → (get k s).0 ≡ peek k s
  pub peek-get : (j k : K) (s : Store) → peek j (get k s).1 ≡ peek j s
  pub peek-pop_eq : (j k : K) (s : Store) → key_eq j k ≡ true → peek j (pop k s) ≡ none
  pub peek-pop_ne : (j k : K) (s : Store) → key_eq j k ≡ false → peek j (pop k s) ≡ peek j s
  pub peek-put_eq : (j k : K) (v : V) (s : Store) → key_eq j k ≡ true → peek j (put k v s) ≡ some v
  pub peek-put_ne :
      (j k : K) (v : V) (s : Store)
      → key_eq j k ≡ false
      → (peek j (put k v s) ≡ peek j s) ⊎ (peek j (put k v s) ≡ none)

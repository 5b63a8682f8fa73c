-- ===== src/Lru.antt =====
-- What the program uses of the crate `lru`: a map with a bound, that knows the order of use. The
-- crate is not part of the repository, so it is an interface; its laws say what the documentation
-- of `LruCache` says, in terms of `iter`, which lists the entries from the most to the least
-- recently used.
pub mod Entries
pub mod Reference
pub mod Inserting
use netmon_polyglot.Prelude.{ℕ, ◌≡◌, ◌<◌, Option, none, some, List, [], ◌∷◌, length}
use Entries.{lookup, remove, drop_last, last}

pub record LruCache {K : Type 0} (V : Type 0) (dec : Discrete K) : Type 1 where
  pub Cache : Type 0
  pub new : ℕ → Cache
  pub cap : Cache → ℕ
  pub iter : Cache → List (K × V)
  pub len : Cache → ℕ
  pub peek : Cache → K → Option V
  pub peek_lru : Cache → Option (K × V)
  pub pop_lru : Cache → Cache
  -- The entry's value, and the write through the mutable reference.
  pub get_mut : Cache → K → Option (V × (V → Cache))
  -- The entry that had to go, if any, and the cache.
  pub push : Cache → K → V → Option (K × V) × Cache
  -- The value found, or the given one; and the write through the mutable reference.
  pub get_or_insert_mut : Cache → K → V → V × (V → Cache)
  pub iter-new : (n : ℕ) → iter (new n) ≡ []
  pub cap-new : (n : ℕ) → cap (new n) ≡ n
  pub len-iter : (c : Cache) → len c ≡ length (iter c)
  pub peek-iter : (c : Cache) (k : K) → peek c k ≡ lookup dec k (iter c)
  pub peek_lru-iter : (c : Cache) → peek_lru c ≡ last (iter c)
  pub iter-pop_lru : (c : Cache) → iter (pop_lru c) ≡ drop_last (iter c)
  pub cap-pop_lru : (c : Cache) → cap (pop_lru c) ≡ cap c
  pub get_mut_missing : (c : Cache) (k : K) → get_mut c k ≡ none → lookup dec k (iter c) ≡ none
  pub get_mut_found :
      (c : Cache) (k : K) (v : V) (write : V → Cache)
      → get_mut c k ≡ some (v, write)
      → lookup dec k (iter c) ≡ some v
  pub iter-write :
      (c : Cache) (k : K) (v : V) (write : V → Cache) (w : V)
      → get_mut c k ≡ some (v, write)
      → (iter (write w) ≡ (k, w) ∷ remove dec k (iter c)) × (cap (write w) ≡ cap c)
  pub push_room :
      (c : Cache) (k : K) (v : V)
      → lookup dec k (iter c) ≡ none
      → length (iter c) < cap c
      → ((push c k v).0 ≡ none)
        × (iter (push c k v).1 ≡ (k, v) ∷ iter c)
        × (cap (push c k v).1 ≡ cap c)
  pub push_full :
      (c : Cache) (k : K) (v : V)
      → lookup dec k (iter c) ≡ none
      → 0 < cap c
      → length (iter c) ≡ cap c
      → ((push c k v).0 ≡ last (iter c))
        × (iter (push c k v).1 ≡ (k, v) ∷ drop_last (iter c))
        × (cap (push c k v).1 ≡ cap c)
  pub insert_found :
      (c : Cache) (k : K) (v d w : V)
      → lookup dec k (iter c) ≡ some v
      → ((get_or_insert_mut c k d).0 ≡ v)
        × (iter ((get_or_insert_mut c k d).1 w) ≡ (k, w) ∷ remove dec k (iter c))
        × (cap ((get_or_insert_mut c k d).1 w) ≡ cap c)
  pub insert_room :
      (c : Cache) (k : K) (d w : V)
      → lookup dec k (iter c) ≡ none
      → length (iter c) < cap c
      → ((get_or_insert_mut c k d).0 ≡ d)
        × (iter ((get_or_insert_mut c k d).1 w) ≡ (k, w) ∷ iter c)
        × (cap ((get_or_insert_mut c k d).1 w) ≡ cap c)
  pub insert_full :
      (c : Cache) (k : K) (d w : V)
      → lookup dec k (iter c) ≡ none
      → 0 < cap c
      → length (iter c) ≡ cap c
      → ((get_or_insert_mut c k d).0 ≡ d)
        × (iter ((get_or_insert_mut c k d).1 w) ≡ (k, w) ∷ drop_last (iter c))
        × (cap ((get_or_insert_mut c k d).1 w) ≡ cap c)

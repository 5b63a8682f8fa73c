-- ===== src/Lru/Reference.antt =====
-- A cache that meets the interface: the bound and the list of entries.
use netmon_polyglot.Prelude.{
  Option-cases, inl, inr, sym, ap, ℕ, ◌≡◌, refl, Option, none, some, List, [], ◌∷◌, arith, length,
  leb, if◌then◌else◌,
}
use netmon_polyglot.Lru.{LruCache}
use netmon_polyglot.Lru.Entries.{lookup, remove, drop_last, last}

pub record Bounded (K V : Type 0) : Type 0 where
  pub cap : ℕ
  pub entries : List (K × V)

module _ {K V : Type 0} (dec : Discrete K) where
  unfoldable pub put : Bounded K V → K → V → Option (K × V) × Bounded K V
  put c k v = elim (lookup dec k c.entries) [
    | some w ↦ (some (k, w), record c { entries = (k, v) ∷ remove dec k c.entries })
    | none ↦
        if leb c.cap (length c.entries)
        then (last c.entries, record c { entries = (k, v) ∷ drop_last c.entries })
        else (none, record c { entries = (k, v) ∷ c.entries })
  ]

  unfoldable pub get : Bounded K V → K → Option (V × (V → Bounded K V))
  get c k = elim (lookup dec k c.entries) [
    | none ↦ none
    | some v ↦ some (v, λ w. record c { entries = (k, w) ∷ remove dec k c.entries })
  ]

  unfoldable pub get_or_insert : Bounded K V → K → V → V × (V → Bounded K V)
  unfolding put
  get_or_insert c k d = elim (lookup dec k c.entries) [
    | none ↦ (d, λ w. (put c k w).1)
    | some v ↦ (v, λ w. (put c k w).1)
  ]

  pub get_found :
      (c : Bounded K V) (k : K) (v : V) (write : V → Bounded K V)
      → get c k ≡ some (v, write)
      → lookup dec k c.entries ≡ some v
  unfolding get
  get_found c k v write h = ground arith

  pub get_missing : (c : Bounded K V) (k : K) → get c k ≡ none → lookup dec k c.entries ≡ none
  unfolding get
  get_missing c k h = ground arith

  -- The cache after a write through the reference, if there is one.
  abbrev pub written : Bounded K V → V → Option (V × (V → Bounded K V)) → Bounded K V
  written c w none = c
  written c w (some r) = r.1 w

  pub entries-write :
      (c : Bounded K V) (k : K) (v : V) (write : V → Bounded K V) (w : V)
      → get c k ≡ some (v, write)
      → ((write w).entries ≡ (k, w) ∷ remove dec k c.entries) × ((write w).cap ≡ c.cap)
  unfolding get
  entries-write c k v write w h = elim (Option-cases (lookup dec k c.entries)) [
    | inl missing ↦ absurd (ground arith)
    | inr (u, found) ↦
        let stored : write w ≡ record c { entries = (k, w) ∷ remove dec k c.entries } =
          sym (ap (written c w) (rw (found, get) at h)) in
        rw stored (refl, refl)
  ]

  unfoldable pub reference : LruCache V dec
  unfolding put get get_or_insert
  reference = record {
    Cache = Bounded K V;
    new = λ n. record { cap = n; entries = [] };
    cap = λ c. c.cap;
    iter = λ c. c.entries;
    len = λ c. length c.entries;
    peek = λ c k. lookup dec k c.entries;
    peek_lru = λ c. last c.entries;
    pop_lru = λ c. record c { entries = drop_last c.entries };
    get_mut = get;
    push = put;
    get_or_insert_mut = get_or_insert;
    iter-new = λ n. refl;
    cap-new = λ n. refl;
    len-iter = λ c. refl;
    peek-iter = λ c k. refl;
    peek_lru-iter = λ c. refl;
    iter-pop_lru = λ c. refl;
    cap-pop_lru = λ c. refl;
    get_mut_missing = get_missing;
    get_mut_found = get_found;
    iter-write = entries-write;
    push_room = λ c k v absent room. ground arith;
    push_full = λ c k v absent positive full. ground arith;
    insert_found = λ c k v d w found. ground arith;
    insert_room = λ c k d w absent room. ground arith;
    insert_full = λ c k d w absent positive full. ground arith;
  }

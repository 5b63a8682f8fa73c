-- ===== src/Lru/Inserting.antt =====
-- What `get_or_insert_mut` does to a cache within its bound, in one statement for its three cases.
use netmon_polyglot.Prelude.{
  ltb→lt, ltb, Bool-cases, ◌≤◌, length, arith, Option-cases, Option, ◌<◌, ◌≡◌, inr, inl, some, none,
}
use netmon_polyglot.Lru.{length, Option, LruCache}
use netmon_polyglot.Lru.Entries.{length-drop_last, length-remove, lookup}

-- The value found, or the given one.
abbrev pub or_else {ℓ} : {A : Type ℓ} → Option A → A → A
or_else none d = d
or_else (some v) d = v

module _ {K V : Type 0} (dec : Discrete K) (lru : LruCache V dec) where
  open lru use {
    Cache, cap, iter, get_mut, get_or_insert_mut, insert_found, insert_room, insert_full,
    get_mut_missing, get_mut_found, iter-write,
  }

  pub record IsWithin (c : Cache) : Type 0 where
    pub positive : 0 < cap c
    pub bounded : length (iter c) ≤ cap c

  -- The value is the one found, or the given one; the value written is found afterwards.
  pub get_or_insert_lem :
      (c : Cache) (k : K) (d w : V)
      → IsWithin c
      → ((get_or_insert_mut c k d).0 ≡ or_else (lookup dec k (iter c)) d)
        × (lookup dec k (iter ((get_or_insert_mut c k d).1 w)) ≡ some w)
        × IsWithin ((get_or_insert_mut c k d).1 w)
  get_or_insert_lem c k d w v = elim (Option-cases (lookup dec k (iter c))) [
    | inl missing ↦ elim (Bool-cases (ltb (length (iter c)) (cap c))) [
      | inl less ↦
          let (value, now, same) = insert_room c k d w missing (ltb→lt _ _ less) in
          (ground arith, ground arith, record { positive = ground arith; bounded = ground arith })
      | inr full ↦
          let (value, now, same) =
            insert_full c k d w missing v.positive (ground (arith, v.bounded)) in
          (
            ground arith,
            ground arith,
            record { positive = ground arith; bounded = ground (arith, length-drop_last (iter c)) },
          )
    ]
    | inr (u, found) ↦
        let (value, now, same) = insert_found c k u d w found in
        (
          ground arith,
          ground arith,
          record {
            positive = ground arith;
            bounded = ground (arith, length-remove dec k (iter c) u found);
          },
        )
  ]

  -- A write through `get_mut` is found afterwards, and the cache stays within its bound.
  pub get_mut_lem :
      (c : Cache) (k : K) (v w : V) (write : V → Cache)
      → IsWithin c
      → get_mut c k ≡ some (v, write)
      → (lookup dec k (iter c) ≡ some v)
        × (lookup dec k (iter (write w)) ≡ some w)
        × IsWithin (write w)
  get_mut_lem c k v w write h e =
      let found = get_mut_found c k v write e in
      let (now, same) = iter-write c k v write w e in
      (
        found,
        ground arith,
        record {
          positive = ground arith;
          bounded = ground (arith, length-remove dec k (iter c) v found);
        },
      )

-- ===== src/Flow/Table/Contents.antt =====
-- core-rs/core/src/flow.rs: what `update` does to the list of flows, most recently used first, and
-- the invariant of the table.
use netmon_polyglot.Prelude.{
  ◌≢◌, ℕ, ◌≡◌, refl, ◌≤◌, ◌<◌, Bool, true, false, Option, none, some, List, [], ◌∷◌, arith, ltb,
  if◌then◌else◌, length, Option-cases, inl, inr, Bool-cases, ltb→lt,
}
use netmon_polyglot.Prelude.Words.{add64}
use netmon_polyglot.Lru.{LruCache}
use netmon_polyglot.Lru.Entries.{
  lookup-remove_ne, length-remove, remove-Distinct, lookup-drop_last_none, length-drop_last,
  drop_last-Distinct, lookup-remove_self, lookup, remove, drop_last, last, Distinct,
}
use netmon_polyglot.Flow.{
  FlowKey, FlowKey-discrete, FlowStats, FlowUpdate, FlowTable, refreshed, started, is_some,
}
use netmon_polyglot.Flow.Table

abbrev pub Flows : Type 0
Flows = List (FlowKey × FlowStats)

abbrev pub find : FlowKey → Flows → Option FlowStats
find = lookup FlowKey-discrete

-- The statistics of the packet's flow after the packet.
unfoldable pub stats_after : Flows → FlowUpdate → FlowStats
stats_after l u = elim (find u.key l) [ some s ↦ refreshed s u | none ↦ started u ]

-- The other flows, in a table for `cap` flows.
unfoldable pub others_after : ℕ → Flows → FlowUpdate → Flows
others_after cap l u = elim (find u.key l) [
  | some s ↦ remove FlowKey-discrete u.key l
  | none ↦ if ltb (length l) cap then l else drop_last l
]

-- Whether a flow had to go.
unfoldable pub evicts : ℕ → Flows → FlowUpdate → Bool
evicts cap l u = elim (find u.key l) [
  | some s ↦ false
  | none ↦ if ltb (length l) cap then false else true
]

find-drop_last : (k : FlowKey) (l : Flows) → find k l ≡ none → find k (drop_last l) ≡ none
find-drop_last k l h = lookup-drop_last_none FlowKey-discrete k l h

others_after-absent :
    (cap : ℕ) (l : Flows) (u : FlowUpdate)
    → Distinct FlowKey-discrete l
    → find u.key (others_after cap l u) ≡ none
unfolding others_after
others_after-absent cap l u h = elim (Option-cases (find u.key l)) [
  | inl missing ↦ ground (arith, find-drop_last u.key l)
  | inr (s, found) ↦ rw (found, others_after) (lookup-remove_self FlowKey-discrete u.key l h)
]

others_after-Distinct :
    (cap : ℕ) (l : Flows) (u : FlowUpdate)
    → Distinct FlowKey-discrete l
    → Distinct FlowKey-discrete (others_after cap l u)
unfolding others_after
others_after-Distinct cap l u h = elim (Option-cases (find u.key l)) [
  | inl missing ↦ rw (missing, others_after) (pick (ltb (length l) cap))
  | inr (s, found) ↦ rw (found, others_after) (remove-Distinct FlowKey-discrete u.key l h)
]
  where
    pick : (b : Bool) → Distinct FlowKey-discrete (if b then l else drop_last l)
    pick true = h
    pick false = drop_last-Distinct FlowKey-discrete l h

length-others_after :
    (cap : ℕ) (l : Flows) (u : FlowUpdate)
    → 0 < cap
    → length l ≤ cap
    → length (others_after cap l u) < cap
unfolding others_after
length-others_after cap l u p h = elim (Option-cases (find u.key l)) [
  | inl missing ↦ ground (arith, length-drop_last l)
  | inr (s, found) ↦ ground (arith, length-remove FlowKey-discrete u.key l s found)
]

-- The flows that stay, the packet's own one included.
abbrev pub kept : ℕ → Flows → FlowUpdate → Flows
kept cap l u = if evicts cap l u then drop_last l else l

find-others_after :
    (cap : ℕ) (l : Flows) (u : FlowUpdate) (k : FlowKey)
    → k ≢ u.key
    → find k (others_after cap l u) ≡ find k (kept cap l u)
unfolding others_after evicts
find-others_after cap l u k h = elim (Option-cases (find u.key l)) [
  | inl missing ↦ ground arith
  | inr (s, found) ↦ ground (arith, lookup-remove_ne FlowKey-discrete u.key k l h)
]

-- Created, as a number.
abbrev pub created : Flows → FlowUpdate → ℕ
created l u = elim (find u.key l) [ some s ↦ 0 | none ↦ 1 ]

last-is_some : (l : Flows) → 0 < length l → is_some (last l) ≡ true
unfolding is_some
last-is_some [] h = elim h [ ]
last-is_some (e ∷ []) h = refl
last-is_some (e ∷ f ∷ l) h = last-is_some (f ∷ l) (omega arith)

module _ (lru : LruCache FlowStats FlowKey-discrete) where
  open lru use {
    Cache, cap, iter, get_mut, get_mut_missing, get_mut_found, iter-write, push, push_room,
    push_full,
  }

  pub record IsValid (t : FlowTable lru) : Type 0 where
    pub positive : 0 < cap t.flows
    pub bounded : length (iter t.flows) ≤ cap t.flows
    pub distinct : Distinct FlowKey-discrete (iter t.flows)

  -- What `update` does, in terms of the list.
  pub record Updated (t : FlowTable lru) (u : FlowUpdate) (t' : FlowTable lru) (s : FlowStats)
      : Type 0 where
    pub contents :
        iter t'.flows
        ≡ (u.key, stats_after (iter t.flows) u) ∷ others_after (cap t.flows) (iter t.flows) u
    pub result : s ≡ stats_after (iter t.flows) u
    pub same_cap : cap t'.flows ≡ cap t.flows
    pub same_timeout : t'.idle_timeout_us ≡ t.idle_timeout_us
    pub same_expired : t'.expired ≡ t.expired
    pub counted :
        t'.evicted
        ≡ (if evicts (cap t.flows) (iter t.flows) u then add64 t.evicted 1 else t.evicted)

  update_known :
      (t : FlowTable lru) (u : FlowUpdate) (s : FlowStats) (write : FlowStats → Cache)
      → get_mut t.flows u.key ≡ some (s, write)
      → Updated t u (Table.update lru t u).0 (Table.update lru t u).1
  unfolding Table.update stats_after others_after evicts
  update_known t u s write h =
      let found : find u.key (iter t.flows) ≡ some s = get_mut_found t.flows u.key s write h in
      let wrote = iter-write t.flows u.key s write (refreshed s u) h in
      record {
        contents = ground (arith, found, wrote.0);
        result = ground (arith, found);
        same_cap = ground (arith, wrote.1);
        same_timeout = ground arith;
        same_expired = ground arith;
        counted = ground (arith, found);
      }

  update_new :
      (t : FlowTable lru) (u : FlowUpdate)
      → IsValid t
      → get_mut t.flows u.key ≡ none
      → Updated t u (Table.update lru t u).0 (Table.update lru t u).1
  unfolding Table.update stats_after others_after evicts
  update_new t u v h =
      let absent : find u.key (iter t.flows) ≡ none = get_mut_missing t.flows u.key h in
      let room = push_room t.flows u.key (started u) absent in
      let full = push_full t.flows u.key (started u) absent v.positive in
      elim (Bool-cases (ltb (length (iter t.flows)) (cap t.flows))) [
        | inl less ↦
            let (none_gone, now, same) = room (ltb→lt _ _ less) in
            record {
              contents = ground arith;
              result = ground arith;
              same_cap = ground arith;
              same_timeout = ground arith;
              same_expired = ground arith;
              counted = ground arith;
            }
        | inr more ↦
            let (gone, now, same) = full (ground arith) in
            record {
              contents = ground arith;
              result = ground arith;
              same_cap = ground arith;
              same_timeout = ground arith;
              same_expired = ground arith;
              counted = ground (arith, last-is_some (iter t.flows));
            }
      ]

  -- On a valid table `update` puts the packet's flow, with the returned statistics, in front of the
  -- others. A known flow leaves its old place; for a new flow in a full table the least recently
  -- used flow goes, and is counted.
  pub update-Updated :
      (t : FlowTable lru) (u : FlowUpdate)
      → IsValid t
      → Updated t u (Table.update lru t u).0 (Table.update lru t u).1
  update-Updated t u v = elim (Option-cases (get_mut t.flows u.key)) [
    | inl missing ↦ update_new t u v missing
    | inr ((s, write), found) ↦ update_known t u s write found
  ]

  -- `update` keeps the table valid: never more flows than its capacity, never a key twice.
  pub update-IsValid :
      (t : FlowTable lru) (u : FlowUpdate) → IsValid t → IsValid (Table.update lru t u).0
  update-IsValid t u v =
      let d = update-Updated t u v in
      record {
        positive = rw d.same_cap v.positive;
        bounded =
            rw (d.contents, d.same_cap)
              (length-others_after (cap t.flows) (iter t.flows) u v.positive v.bounded);
        distinct = rw d.contents (
          others_after-absent (cap t.flows) (iter t.flows) u v.distinct,
          others_after-Distinct (cap t.flows) (iter t.flows) u v.distinct,
        );
      }

  -- Every lookup after `update`: the packet's flow has the statistics that `update` returns, and any
  -- other flow is as before, but for the least recently used one of a full table, which a new flow
  -- displaces.
  pub get-update :
      (t : FlowTable lru) (u : FlowUpdate) (k : FlowKey)
      → IsValid t
      → Table.get lru (Table.update lru t u).0 k ≡ elim (FlowKey-discrete u.key k) [
        | yes p ↦ some (Table.update lru t u).1
        | no p ↦ find k (kept (cap t.flows) (iter t.flows) u)
      ]
  unfolding Table.get
  get-update t u k v =
      let d = update-Updated t u v in
      ground (
        arith,
        lru.peek-iter (Table.update lru t u).0.flows k,
        d.contents,
        d.result,
        find-others_after (cap t.flows) (iter t.flows) u k,
      )

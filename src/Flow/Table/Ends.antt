-- ===== src/Flow/Table/Ends.antt =====
-- core-rs/core/src/flow.rs: the order of the two ends of the keys in a table.
use netmon_polyglot.Flow.{FlowKey, FlowKey-discrete, FlowStats, FlowTable, FlowUpdate, le_endpoint}
use netmon_polyglot.Flow.Key.{le_endpoint-antisym}
use netmon_polyglot.Flow.Table
use netmon_polyglot.Flow.Table.Contents.{Flows, find, others_after, IsValid, update-Updated}
use netmon_polyglot.Flow.Table.Expiry.{trim, expire-Expired}
use netmon_polyglot.Flow.Table.Order.{trim_cases}
use netmon_polyglot.Lru.{LruCache}
use netmon_polyglot.Lru.Entries.{remove, drop_last}
use netmon_polyglot.Prelude.{
  ℕ, ◌≡◌, ◌∙◌, true, inl, inr, some, [], ◌∷◌, arith, Option-cases, Bool-cases, ltb, length,
}

-- The first end of each key is not behind the second.
abbrev pub InEnds : Flows → Type 0
InEnds [] = Unit
InEnds (e ∷ l) = (le_endpoint e.0.a e.0.b ≡ true) × InEnds l

remove-InEnds : (k : FlowKey) (l : Flows) → InEnds l → InEnds (remove FlowKey-discrete k l)
remove-InEnds k [] h = tt
remove-InEnds k (e ∷ l) h = ground (arith, remove-InEnds k l h.1)

drop_last-InEnds : (l : Flows) → InEnds l → InEnds (drop_last l)
drop_last-InEnds [] h = tt
drop_last-InEnds (e ∷ []) h = tt
drop_last-InEnds (e ∷ f ∷ l) h = (h.0, drop_last-InEnds (f ∷ l) h.1)

others_after-InEnds :
    (cap : ℕ) (l : Flows) (u : FlowUpdate) → InEnds l → InEnds (others_after cap l u)
unfolding others_after
others_after-InEnds cap l u h = elim (Option-cases (find u.key l)) [
  | inl missing ↦ elim (Bool-cases (ltb (length l) cap)) [
    | inl less ↦ rw (missing, others_after, less) h
    | inr full ↦ rw (missing, others_after, full) (drop_last-InEnds l h)
  ]
  | inr (s, found) ↦ rw (found, others_after) (remove-InEnds u.key l h)
]

trim-InEnds : (timeout now : ℕ) (l : Flows) → InEnds l → InEnds (trim timeout now l)
trim-InEnds timeout now [] h = unfold trim in tt
trim-InEnds timeout now (e ∷ l) h = elim (trim_cases timeout now e l) [
  | inl none_left ↦ rw none_left tt
  | inr some_left ↦ rw some_left (h.0, trim-InEnds timeout now l h.1)
]

find-InEnds :
    (k : FlowKey) (l : Flows) {s : FlowStats}
    → InEnds l
    → find k l ≡ some s
    → le_endpoint k.a k.b ≡ true
find-InEnds k [] {s} h e = absurd cc
find-InEnds k (x ∷ l) {s} h e = elim (FlowKey-discrete x.0 k) [
  | yes p ↦ ground (arith, h.0)
  | no p ↦ find-InEnds k l {s = s} h.1 (ground arith)
]

abbrev pub swapped : FlowKey → FlowKey
swapped key = record { a = key.b; b = key.a; proto = key.proto }

-- A connection with an entry for each direction is one of an end with itself.
pub InEnds-single :
    (l : Flows) (key : FlowKey) (s t : FlowStats)
    → InEnds l
    → find key l ≡ some s
    → find (swapped key) l ≡ some t
    → key.a ≡ key.b
InEnds-single l key s t h there back =
    le_endpoint-antisym key.a key.b (find-InEnds key l {s = s} h there)
      (find-InEnds (swapped key) l {s = t} h back)

module _ (lru : LruCache FlowStats FlowKey-discrete) where
  open lru use {cap, iter}

  -- The table has room for `n` flows, and the ends of its keys are in order.
  pub record IsTableFor (n : ℕ) (t : FlowTable lru) : Type 0 where
    pub room : cap t.flows ≡ n
    pub ends : InEnds (iter t.flows)

  pub update-IsTableFor :
      (n : ℕ) (t : FlowTable lru) (u : FlowUpdate)
      → IsValid lru t
      → le_endpoint u.key.a u.key.b ≡ true
      → IsTableFor n t
      → IsTableFor n (Table.update lru t u).0
  update-IsTableFor n t u v le h =
      let d = update-Updated lru t u v in
      record {
        room = d.same_cap ∙ h.room;
        ends = rw d.contents (le, others_after-InEnds (cap t.flows) (iter t.flows) u h.ends);
      }

  pub expire-IsTableFor :
      (n : ℕ) (t : FlowTable lru) (now : ℕ)
      → IsTableFor n t
      → IsTableFor n (Table.expire lru t now).0
  expire-IsTableFor n t now h =
      let d = expire-Expired lru t now in
      record {
        room = d.same_cap ∙ h.room;
        ends = rw d.contents (trim-InEnds t.idle_timeout_us now (iter t.flows) h.ends);
      }

-- ===== src/Flow/Table/Order.antt =====
-- core-rs/core/src/flow.rs: while time does not go back, the order of use is the order of
-- `last_seen_us`, and `expire` removes exactly the idle flows.
use netmon_polyglot.Lru.Entries.{Distinct, remove, drop_last}
use netmon_polyglot.Lru.{LruCache}
use netmon_polyglot.Flow.Table.Expiry.{expire-Expired, trim}
use netmon_polyglot.Prelude.Words.{u64_mod, add64}
use netmon_polyglot.Prelude.{
  ltb, none, ◌∙◌, Option-cases, some, ◌⊎◌, refl, inr, arith, inl, [], false, Bool-cases, ◌≡◌, ◌<◌,
  ◌-◌, ◌≤◌, if◌then◌else◌, ◌+◌, ◌∷◌, ℕ,
}
use netmon_polyglot.Flow.{
  ltb, started, refreshed, FlowKey-discrete, LruCache, some, false, add64, ℕ, FlowKey, FlowStats,
  FlowUpdate, FlowTable,
}
use netmon_polyglot.Flow.Table
use native.Mathlib.Nat.{le_refl}
use netmon_polyglot.Flow.Table.Contents.{
  update-Updated, IsValid, stats_after, others_after, Flows, find,
}

-- Each flow was seen at the time or before.
abbrev pub SeenBy : ℕ → Flows → Type 0
SeenBy now [] = Unit
SeenBy now (e ∷ l) = (e.1.last_seen_us ≤ now) × SeenBy now l

-- The order of use is the order of the last packets.
abbrev pub IsOrdered : Flows → Type 0
IsOrdered [] = Unit
IsOrdered (e ∷ l) = SeenBy e.1.last_seen_us l × IsOrdered l

-- The flows whose last packet is less than the timeout ago.
unfoldable pub live_only : ℕ → ℕ → Flows → Flows
live_only timeout now [] = []
live_only timeout now (e ∷ l) =
    if ltb now (e.1.last_seen_us + timeout)
    then e ∷ live_only timeout now l
    else live_only timeout now l

is_live_lem :
    (timeout now : ℕ) (s : FlowStats)
    → s.last_seen_us + timeout < u64_mod
    → Table.is_live timeout now s ≡ ltb now (s.last_seen_us + timeout)
unfolding Table.is_live add64
is_live_lem timeout now s fits = ground arith

module _ (timeout now : ℕ) where
  -- Nothing seen at the time of an idle flow or before is live.
  live_only-idle :
      (l : Flows) (s : FlowStats)
      → s.last_seen_us + timeout < u64_mod
      → SeenBy s.last_seen_us l
      → ltb now (s.last_seen_us + timeout) ≡ false
      → live_only timeout now l ≡ []
  unfolding live_only
  live_only-idle [] s fits h idle = refl
  live_only-idle (e ∷ l) s fits h idle = ground (arith, live_only-idle l s fits h.1 idle)

  pub trim-live_only :
      (l : Flows)
      → SeenBy (u64_mod - 1 - timeout) l
      → timeout < u64_mod
      → IsOrdered l
      → trim timeout now l ≡ live_only timeout now l
  unfolding trim live_only
  trim-live_only [] fits small ordered = refl
  trim-live_only (e ∷ l) fits small ordered =
      elim (Bool-cases (ltb now (e.1.last_seen_us + timeout))) [
        | inl live ↦ ground (
          arith,
          trim-live_only l fits.1 small ordered.1,
          is_live_lem timeout now e.1 (omega arith),
        )
        | inr idle ↦ ground (
          arith,
          trim-live_only l fits.1 small ordered.1,
          live_only-idle l e.1 (omega arith) ordered.0 idle,
          is_live_lem timeout now e.1 (omega arith),
        )
      ]

  pub trim_cases :
      (e : FlowKey × FlowStats) (l : Flows)
      → (trim timeout now (e ∷ l) ≡ []) ⊎ (trim timeout now (e ∷ l) ≡ e ∷ trim timeout now l)
  unfolding trim
  trim_cases e l = after (trim timeout now l) refl
    where
      after :
          (r : Flows)
          → trim timeout now l ≡ r
          → (trim timeout now (e ∷ l) ≡ []) ⊎ (trim timeout now (e ∷ l) ≡ e ∷ trim timeout now l)
      after [] h = elim (Bool-cases (Table.is_live timeout now e.1)) [
        | inl live ↦ inr (ground arith)
        | inr idle ↦ inl (ground arith)
      ]
      after (f ∷ r) h = inr (ground arith)

  trim-SeenBy : (bound : ℕ) (l : Flows) → SeenBy bound l → SeenBy bound (trim timeout now l)
  trim-SeenBy bound [] h = unfold trim in tt
  trim-SeenBy bound (e ∷ l) h = elim (trim_cases e l) [
    | inl none_left ↦ rw none_left tt
    | inr some_left ↦ rw some_left (h.0, trim-SeenBy bound l h.1)
  ]

  trim-IsOrdered : (l : Flows) → IsOrdered l → IsOrdered (trim timeout now l)
  trim-IsOrdered [] h = unfold trim in tt
  trim-IsOrdered (e ∷ l) h = elim (trim_cases e l) [
    | inl none_left ↦ rw none_left tt
    | inr some_left ↦ rw some_left (trim-SeenBy e.1.last_seen_us l h.0, trim-IsOrdered l h.1)
  ]

module _ (timeout now : ℕ) where
  trim-absent : (k : FlowKey) (l : Flows) → find k l ≡ none → find k (trim timeout now l) ≡ none
  trim-absent k [] h = unfold trim in refl
  trim-absent k (e ∷ l) h = elim (trim_cases timeout now e l) [
    | inl none_left ↦ ground (arith, none_left)
    | inr some_left ↦ ground (arith, some_left, trim-absent k l)
  ]

  trim-Distinct :
      (l : Flows) → Distinct FlowKey-discrete l → Distinct FlowKey-discrete (trim timeout now l)
  trim-Distinct [] h = unfold trim in tt
  trim-Distinct (e ∷ l) h = elim (trim_cases timeout now e l) [
    | inl none_left ↦ rw none_left tt
    | inr some_left ↦ rw some_left (trim-absent e.0 l h.0, trim-Distinct l h.1)
  ]

SeenBy-mono : (a b : ℕ) (l : Flows) → a ≤ b → SeenBy a l → SeenBy b l
SeenBy-mono a b [] le h = tt
SeenBy-mono a b (e ∷ l) le h = (omega arith, SeenBy-mono a b l le h.1)

-- A list with some entries left out, as by the removal of one.
module _ (k : FlowKey) where
  remove-SeenBy : (a : ℕ) (l : Flows) → SeenBy a l → SeenBy a (remove FlowKey-discrete k l)
  remove-SeenBy a [] h = tt
  remove-SeenBy a (e ∷ l) h = ground (arith, remove-SeenBy a l h.1)

  remove-IsOrdered : (l : Flows) → IsOrdered l → IsOrdered (remove FlowKey-discrete k l)
  remove-IsOrdered [] h = tt
  remove-IsOrdered (e ∷ l) h =
      ground (arith, remove-IsOrdered l h.1, remove-SeenBy e.1.last_seen_us l h.0)

  find-SeenBy :
      (a : ℕ) (l : Flows) (s : FlowStats) → SeenBy a l → find k l ≡ some s → s.last_seen_us ≤ a
  find-SeenBy a [] s h found = absurd (ground arith)
  find-SeenBy a (e ∷ l) s h found = ground (arith, find-SeenBy a l s h.1)

drop_last-SeenBy : (a : ℕ) (l : Flows) → SeenBy a l → SeenBy a (drop_last l)
drop_last-SeenBy a [] h = tt
drop_last-SeenBy a (e ∷ []) h = tt
drop_last-SeenBy a (e ∷ f ∷ l) h = (h.0, drop_last-SeenBy a (f ∷ l) h.1)

drop_last-IsOrdered : (l : Flows) → IsOrdered l → IsOrdered (drop_last l)
drop_last-IsOrdered [] h = tt
drop_last-IsOrdered (e ∷ []) h = tt
drop_last-IsOrdered (e ∷ f ∷ l) h =
    (drop_last-SeenBy e.1.last_seen_us (f ∷ l) h.0, drop_last-IsOrdered (f ∷ l) h.1)

module _ (cap : ℕ) (l : Flows) (u : FlowUpdate) where
  others_after-SeenBy : (a : ℕ) → SeenBy a l → SeenBy a (others_after cap l u)
  unfolding others_after
  others_after-SeenBy a h = ground (arith, remove-SeenBy u.key a l h, drop_last-SeenBy a l h)

  others_after-IsOrdered : IsOrdered l → IsOrdered (others_after cap l u)
  unfolding others_after
  others_after-IsOrdered h = ground (arith, remove-IsOrdered u.key l h, drop_last-IsOrdered l h)

  -- A packet no older than all that was seen before stands last in time.
  stats_after-last : SeenBy u.ts_us l → (stats_after l u).last_seen_us ≡ u.ts_us
  unfolding stats_after refreshed started
  stats_after-last h = elim (Option-cases (find u.key l)) [
    | inl missing ↦ ground arith
    | inr (s, found) ↦ ground (arith, find-SeenBy u.key u.ts_us l s h found)
  ]

module _ (lru : LruCache FlowStats FlowKey-discrete) where
  open lru use {iter}

  -- The flows are in the order of their last packets, and none was seen later than `now`.
  pub record IsTimely (now : ℕ) (t : FlowTable lru) : Type 0 where
    pub seen : SeenBy now (iter t.flows)
    pub ordered : IsOrdered (iter t.flows)

  -- `expire` keeps the table valid.
  pub expire-IsValid :
      (t : FlowTable lru) (now : ℕ) → IsValid lru t → IsValid lru (Table.expire lru t now).0
  expire-IsValid t now v =
      let d = expire-Expired lru t now in
      record {
        positive = rw d.same_cap v.positive;
        bounded = omega (arith, d.counted, d.same_cap, v.bounded);
        distinct = rw d.contents (trim-Distinct t.idle_timeout_us now (iter t.flows) v.distinct);
      }

  pub IsTimely-mono : (t : FlowTable lru) {a b : ℕ} → a ≤ b → IsTimely a t → IsTimely b t
  IsTimely-mono t {a} {b} le h = record {
    seen = SeenBy-mono a b (iter t.flows) le h.seen;
    ordered = h.ordered;
  }

  pub update-IsTimely :
      (t : FlowTable lru) (u : FlowUpdate) {now : ℕ}
      → IsValid lru t
      → IsTimely now t
      → now ≤ u.ts_us
      → IsTimely u.ts_us (Table.update lru t u).0
  update-IsTimely t u {now} v h le =
      let l = iter t.flows in
      let seen = SeenBy-mono now u.ts_us l le h.seen in
      let others = others_after-SeenBy (lru.cap t.flows) l u u.ts_us seen in
      let latest = stats_after-last 0 l u seen in
      let contents = (update-Updated lru t u v).contents in
      record {
        seen = rw (contents, latest) (le_refl _, others);
        ordered =
            rw (contents, latest) (others, others_after-IsOrdered (lru.cap t.flows) l u h.ordered);
      }

  pub expire-IsTimely :
      (t : FlowTable lru) (now : ℕ) {seen_by : ℕ}
      → IsTimely seen_by t
      → IsTimely seen_by (Table.expire lru t now).0
  expire-IsTimely t now {seen_by} h =
      let contents = (expire-Expired lru t now).contents in
      record {
        seen = rw contents (trim-SeenBy t.idle_timeout_us now seen_by (iter t.flows) h.seen);
        ordered = rw contents (trim-IsOrdered t.idle_timeout_us now (iter t.flows) h.ordered);
      }

  -- While time does not go back, and short of the end of the 64-bit clock, `expire` keeps exactly
  -- the flows whose last packet is less than the idle timeout ago, in their order.
  pub expire-live_only :
      (t : FlowTable lru) (now : ℕ) {seen_by : ℕ}
      → IsTimely seen_by t
      → seen_by + t.idle_timeout_us < u64_mod
      → iter (Table.expire lru t now).0.flows ≡ live_only t.idle_timeout_us now (iter t.flows)
  expire-live_only t now {seen_by} h fits =
      (expire-Expired lru t now).contents
      ∙ trim-live_only t.idle_timeout_us now (iter t.flows)
          (SeenBy-mono seen_by (u64_mod - 1 - t.idle_timeout_us) (iter t.flows) (omega arith)
            h.seen)
          (omega arith) h.ordered

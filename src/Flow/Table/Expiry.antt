-- ===== src/Flow/Table/Expiry.antt =====
-- core-rs/core/src/flow.rs: `expire` removes flows from the least recently used end while they are
-- idle.
use netmon_polyglot.Prelude.Words.{add64}
use netmon_polyglot.Lru.Entries.{drop_last, last}
use netmon_polyglot.Prelude.{
  Bool-cases, refl, inr, ◌∙◌, sym, some, none, inl, if◌then◌else◌, Option-cases, ◌<◌, length, ℕ,
  zero, suc, ◌+◌, ◌≡◌, true, false, [], ◌∷◌, arith,
}
use netmon_polyglot.Lru.{LruCache}
use netmon_polyglot.Flow.{add64, FlowTable, none, some, FlowKey, FlowKey-discrete, FlowStats}
use netmon_polyglot.Flow.Table
use netmon_polyglot.Flow.Table.Contents.{Flows}

-- The flows without the idle ones at the end of the list.
unfoldable pub trim : ℕ → ℕ → Flows → Flows
trim timeout now [] = []
trim timeout now (e ∷ l) = elim (trim timeout now l) [
  | [] ↦ if Table.is_live timeout now e.1 then e ∷ [] else []
  | f ∷ r ↦ e ∷ f ∷ r
]

module _ (timeout now : ℕ) where
  trim_live :
      (l : Flows) (e : FlowKey × FlowStats)
      → last l ≡ some e
      → Table.is_live timeout now e.1 ≡ true
      → trim timeout now l ≡ l
  unfolding trim
  trim_live [] e h live = absurd (ground arith)
  trim_live (f ∷ []) e h live = ground arith
  trim_live (f ∷ g ∷ l) e h live = ground (arith, trim_live (g ∷ l) e h live)

  trim-drop_last :
      (l : Flows) (e : FlowKey × FlowStats)
      → last l ≡ some e
      → Table.is_live timeout now e.1 ≡ false
      → trim timeout now l ≡ trim timeout now (drop_last l)
  unfolding trim
  trim-drop_last [] e h idle = absurd (ground arith)
  trim-drop_last (f ∷ []) e h idle = ground arith
  trim-drop_last (f ∷ g ∷ l) e h idle = ground (arith, trim-drop_last (g ∷ l) e h idle)

  last-none : (l : Flows) → last l ≡ none → l ≡ []
  last-none [] h = refl
  last-none (e ∷ []) h = absurd (ground arith)
  last-none (e ∷ f ∷ l) h = absurd (ground (arith, last-none (f ∷ l) h))

  length-last :
      (l : Flows) (e : FlowKey × FlowStats) → last l ≡ some e → length (drop_last l) + 1 ≡ length l
  length-last [] e h = absurd (ground arith)
  length-last (f ∷ []) e h = refl
  length-last (f ∷ g ∷ l) e h = omega (arith, length-last (g ∷ l) e h)

module _ (lru : LruCache FlowStats FlowKey-discrete) where
  open lru use {
    Cache, cap as capacity, iter, peek_lru, peek_lru-iter, pop_lru, iter-pop_lru, cap-pop_lru,
    len-iter,
  }

  -- What the loop leaves, and what it counts.
  record Trimmed (timeout now : ℕ) (flows : Cache) (removed : ℕ) (r : Cache × ℕ) : Type 0 where
    pub contents : iter r.0 ≡ trim timeout now (iter flows)
    pub counted : r.1 + length (iter r.0) ≡ removed + length (iter flows)
    pub same_cap : capacity r.0 ≡ capacity flows

  expire_loop-Trimmed :
      (fuel timeout now : ℕ) (flows : Cache) (removed : ℕ)
      → length (iter flows) < fuel
      → Trimmed timeout now flows removed (Table.expire_loop lru fuel timeout now flows removed)
  unfolding Table.expire_loop
  expire_loop-Trimmed zero timeout now flows removed h = absurd (omega arith)
  expire_loop-Trimmed (suc fuel) timeout now flows removed h =
      elim (Option-cases (peek_lru flows)) [
        | inl empty ↦
            let nothing : iter flows ≡ [] =
              last-none timeout now (iter flows) (sym (peek_lru-iter flows) ∙ empty) in
            record {
              contents = unfold trim in ground arith;
              counted = ground arith;
              same_cap = ground arith;
            }
        | inr ((key, stats), oldest) ↦
            let at_end : last (iter flows) ≡ some (key, stats) =
              sym (peek_lru-iter flows) ∙ oldest in
            elim (Bool-cases (Table.is_live timeout now stats)) [
              | inl live ↦ record {
                contents =
                    ground (arith, trim_live timeout now (iter flows) (key, stats) at_end live);
                counted = ground arith;
                same_cap = ground arith;
              }
              | inr idle ↦
                  let shorter = length-last timeout now (iter flows) (key, stats) at_end in
                  let rest =
                    expire_loop-Trimmed fuel timeout now (pop_lru flows) (removed + 1)
                      (rw (iter-pop_lru flows) (omega arith)) in
                  record {
                    contents = ground (
                      arith,
                      rest.contents,
                      iter-pop_lru flows,
                      trim-drop_last timeout now (iter flows) (key, stats) at_end idle,
                    );
                    counted = ground (arith, rest.counted, iter-pop_lru flows);
                    same_cap = ground (arith, rest.same_cap, cap-pop_lru flows);
                  }
            ]
      ]

  -- What `expire` does, in terms of the list.
  pub record Expired (t : FlowTable lru) (now : ℕ) (t' : FlowTable lru) (removed : ℕ) : Type 0 where
    pub contents : iter t'.flows ≡ trim t.idle_timeout_us now (iter t.flows)
    pub counted : removed + length (iter t'.flows) ≡ length (iter t.flows)
    pub expired : t'.expired ≡ add64 t.expired removed
    pub same_cap : capacity t'.flows ≡ capacity t.flows
    pub same_timeout : t'.idle_timeout_us ≡ t.idle_timeout_us
    pub same_evicted : t'.evicted ≡ t.evicted

  -- `expire` ends; it removes exactly the idle flows behind the last live one in the order of use,
  -- returns their number and adds it to the count of expired flows.
  pub expire-Expired :
      (t : FlowTable lru) (now : ℕ)
      → Expired t now (Table.expire lru t now).0 (Table.expire lru t now).1
  unfolding Table.expire
  expire-Expired t now =
      let loop =
        expire_loop-Trimmed (suc (lru.len t.flows)) t.idle_timeout_us now t.flows 0
          (omega (arith, len-iter t.flows)) in
      record {
        contents = loop.contents;
        counted = omega (arith, loop.counted);
        expired = refl;
        same_cap = loop.same_cap;
        same_timeout = refl;
        same_evicted = refl;
      }

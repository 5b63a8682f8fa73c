-- ===== src/Flow/Table/Top/Repeats.antt =====
-- core-rs/core/src/flow.rs: how often a key stands in the lists that `top_by_bytes` makes: the heap, the
-- flows that are looked up for its entries, and the sorted ones.
use netmon_polyglot.Flow.{FlowKey, FlowKey-discrete, FlowStats, FlowTable, total_bytes}
use netmon_polyglot.Flow.Table
use netmon_polyglot.Flow.Table.Top
use netmon_polyglot.Lru.{LruCache}
use netmon_polyglot.Lru.Entries.{lookup, Distinct}
use netmon_polyglot.Prelude.{
  ◌+◌, ◌≤◌, ◌≡◌, inl, inr, refl, Bool-cases, Option-cases, drop, length, ltb, none, arith, ℕ, List,
  [], ◌∷◌, suc, zero,
}

-- 1 if the keys are the same.
unfoldable same : FlowKey → FlowKey → ℕ
same k key = elim (FlowKey-discrete key k) [ yes p ↦ 1 | no p ↦ 0 ]

-- How often the key stands in the heap, and in a list of flows.
abbrev in_heap : FlowKey → List (ℕ × FlowKey) → ℕ
in_heap k [] = 0
in_heap k (x ∷ heap) = same k x.1 + in_heap k heap

abbrev in_flows : FlowKey → List (FlowKey × FlowStats) → ℕ
in_flows k [] = 0
in_flows k (x ∷ flows) = same k x.0 + in_flows k flows

in_heap-heap_push :
    (k : FlowKey) (x : ℕ × FlowKey) (heap : List (ℕ × FlowKey))
    → in_heap k (Top.heap_push x heap) ≡ same k x.1 + in_heap k heap
unfolding Top.heap_push
in_heap-heap_push k x [] = refl
in_heap-heap_push k x (y ∷ heap) = elim (Bool-cases (Top.is_less (Top.cmp_entry y x))) [
  | inl less ↦ rw less (omega (arith, in_heap-heap_push k x heap))
  | inr not_less ↦ rw not_less refl
]

in_heap-drop :
    (k : FlowKey) (n : ℕ) (heap : List (ℕ × FlowKey)) → in_heap k (drop n heap) ≤ in_heap k heap
in_heap-drop k zero heap = omega arith
in_heap-drop k (suc n) [] = omega arith
in_heap-drop k (suc n) (x ∷ heap) = omega (arith, in_heap-drop k n heap)

in_heap-heap_round :
    (k : FlowKey) (n : ℕ) (heap : List (ℕ × FlowKey)) (flow : FlowKey × FlowStats)
    → in_heap k (Top.heap_round n heap flow) ≤ same k flow.0 + in_heap k heap
unfolding Top.heap_round
in_heap-heap_round k n heap (key, stats) =
    let pushed = Top.heap_push (total_bytes stats, key) heap in
    let all = in_heap-heap_push k (total_bytes stats, key) heap in
    elim (Bool-cases (ltb n (length pushed))) [
      | inl over ↦ rw over (omega (arith, all, in_heap-drop k 1 pushed))
      | inr fits ↦ rw fits (omega (arith, all))
    ]

in_heap-heap_of :
    (k : FlowKey) (n : ℕ) (heap : List (ℕ × FlowKey)) (flows : List (FlowKey × FlowStats))
    → in_heap k (Top.heap_of n heap flows) ≤ in_heap k heap + in_flows k flows
unfolding Top.heap_of
in_heap-heap_of k n heap [] = omega arith
in_heap-heap_of k n heap (flow ∷ flows) = omega (
  arith,
  in_heap-heap_of k n (Top.heap_round n heap flow) flows,
  in_heap-heap_round k n heap flow,
)

in_flows-sort_insert :
    (k : FlowKey) (x : FlowKey × FlowStats) (top : List (FlowKey × FlowStats))
    → in_flows k (Top.sort_insert x top) ≡ same k x.0 + in_flows k top
unfolding Top.sort_insert
in_flows-sort_insert k x [] = refl
in_flows-sort_insert k x (y ∷ top) = elim (Bool-cases (Top.is_less (Top.cmp_top y x))) [
  | inl less ↦ rw less (omega (arith, in_flows-sort_insert k x top))
  | inr not_less ↦ rw not_less refl
]

in_flows-sort_top :
    (k : FlowKey) (top : List (FlowKey × FlowStats))
    → in_flows k (Top.sort_top top) ≡ in_flows k top
unfolding Top.sort_top
in_flows-sort_top k [] = refl
in_flows-sort_top k (x ∷ top) =
    omega (arith, in_flows-sort_insert k x (Top.sort_top top), in_flows-sort_top k top)

in_flows-found :
    (lru : LruCache FlowStats FlowKey-discrete) (t : FlowTable lru) (k : FlowKey)
    (heap : List (ℕ × FlowKey))
    → in_flows k (Top.found lru t heap) ≤ in_heap k heap
unfolding Top.found
in_flows-found lru t k [] = omega arith
in_flows-found lru t k (x ∷ heap) = elim (Option-cases (Table.get lru t x.1)) [
  | inl missing ↦ rw (missing, Top.found) (omega (arith, in_flows-found lru t k heap))
  | inr (s, known) ↦ rw (known, Top.found) (omega (arith, in_flows-found lru t k heap))
]

in_flows_none :
    (k : FlowKey) (flows : List (FlowKey × FlowStats))
    → lookup FlowKey-discrete k flows ≡ none
    → in_flows k flows ≡ 0
unfolding same
in_flows_none k [] h = refl
in_flows_none k (x ∷ flows) h = ground (arith, in_flows_none k flows)

same_le : (k key : FlowKey) → same k key ≤ 1
unfolding same
same_le k key = ground arith

in_flows_one :
    (k : FlowKey) (flows : List (FlowKey × FlowStats))
    → Distinct FlowKey-discrete flows
    → in_flows k flows ≤ 1
unfolding same
in_flows_one k [] h = omega arith
in_flows_one k (x ∷ flows) h = ground (arith, in_flows_one k flows h.1, in_flows_none k flows)

none_in_flows :
    (k : FlowKey) (flows : List (FlowKey × FlowStats))
    → in_flows k flows ≡ 0
    → lookup FlowKey-discrete k flows ≡ none
unfolding same
none_in_flows k [] h = refl
none_in_flows k (x ∷ flows) h = ground (arith, none_in_flows k flows)

same_self : (k : FlowKey) → same k k ≡ 1
unfolding same
same_self k = ground arith

in_flows-Distinct :
    (flows : List (FlowKey × FlowStats))
    → ((k : FlowKey) → in_flows k flows ≤ 1)
    → Distinct FlowKey-discrete flows
in_flows-Distinct [] h = tt
in_flows-Distinct (x ∷ flows) h = (
  none_in_flows x.0 flows (omega (arith, h x.0, same_self x.0)),
  in_flows-Distinct flows (λ k. omega (arith, h k)),
)

-- Behind the loop, the look-up and the sort no key stands twice, if none did before.
pub top-Distinct :
    (lru : LruCache FlowStats FlowKey-discrete) (t : FlowTable lru) (n : ℕ)
    (flows : List (FlowKey × FlowStats))
    → Distinct FlowKey-discrete flows
    → Distinct FlowKey-discrete (Top.sort_top (Top.found lru t (Top.heap_of n [] flows)))
top-Distinct lru t n flows h =
    let heap = Top.heap_of n [] flows in
    in_flows-Distinct (Top.sort_top (Top.found lru t heap)) λ k. omega (
      arith,
      in_flows-sort_top k (Top.found lru t heap),
      in_flows-found lru t k heap,
      in_heap-heap_of k n [] flows,
      in_flows_one k flows h,
    )

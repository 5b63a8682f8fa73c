-- ===== src/Flow/Table/Top.antt =====
-- core-rs/core/src/flow.rs: `top_by_bytes`, the busiest flows. A binary heap is the list of its entries
-- in ascending order: the first is the one that `pop` gives.
pub mod Heap
pub mod Selection
pub mod Sorting
pub mod Ranking
pub mod Repeats
use Prim.Native.Nat.{compare, Ordering}
use netmon_polyglot.Prelude.{
  drop, length, ltb, ◌==◌, Bool, if◌then◌else◌, ℕ, List, ◌∷◌, false, true, some, none, [],
}
use netmon_polyglot.Net.{then_cmp}
use netmon_polyglot.Flow.{
  ltb, Bool, ℕ, Ordering, List, FlowKey, FlowKey-discrete, FlowStats, FlowTable, cmp_endpoint,
  total_bytes,
}
use netmon_polyglot.Flow.Table
use netmon_polyglot.Lru.{LruCache}

-- The derived order of `FlowKey`.
unfoldable pub cmp_key : FlowKey → FlowKey → Ordering
cmp_key x y =
    then_cmp (cmp_endpoint x.a y.a) (then_cmp (cmp_endpoint x.b y.b) (compare x.proto y.proto))

-- The order of the pairs of bytes and keys in the heap.
unfoldable pub cmp_entry : ℕ × FlowKey → ℕ × FlowKey → Ordering
unfolding cmp_key
cmp_entry x y = then_cmp (compare x.0 y.0) (cmp_key x.1 y.1)

unfoldable pub is_less : Ordering → Bool
is_less Ordering.lt = true
is_less o = false

-- `heap.push(Reverse(…))`
unfoldable pub heap_push : ℕ × FlowKey → List (ℕ × FlowKey) → List (ℕ × FlowKey)
unfolding cmp_entry is_less
heap_push x [] = x ∷ []
heap_push x (y ∷ heap) =
    let rest = heap_push x heap in if is_less (cmp_entry y x) then y ∷ rest else x ∷ y ∷ heap

-- A round of the loop: `push`, and `pop` when there are more than `n`.
unfoldable pub heap_round : ℕ → List (ℕ × FlowKey) → FlowKey × FlowStats → List (ℕ × FlowKey)
unfolding heap_push total_bytes
heap_round n heap (key, stats) =
    let heap' = heap_push (total_bytes stats, key) heap in
    if ltb n (length heap') then drop 1 heap' else heap'

unfoldable pub heap_of : ℕ → List (ℕ × FlowKey) → List (FlowKey × FlowStats) → List (ℕ × FlowKey)
heap_of n heap [] = heap
heap_of n heap (flow ∷ flows) = heap_of n (heap_round n heap flow) flows

-- `y.bytes.cmp(&x.bytes).then(x.key.cmp(&y.key))`
unfoldable pub cmp_top : FlowKey × FlowStats → FlowKey × FlowStats → Ordering
unfolding cmp_key total_bytes
cmp_top x y = then_cmp (compare (total_bytes y.1) (total_bytes x.1)) (cmp_key x.0 y.0)

-- `sort_by`, which is stable: the entry goes before those that are not less.
unfoldable pub sort_insert :
    FlowKey × FlowStats → List (FlowKey × FlowStats) → List (FlowKey × FlowStats)
unfolding cmp_top is_less
sort_insert x [] = x ∷ []
sort_insert x (y ∷ top) =
    let rest = sort_insert x top in if is_less (cmp_top y x) then y ∷ rest else x ∷ y ∷ top

unfoldable pub sort_top : List (FlowKey × FlowStats) → List (FlowKey × FlowStats)
unfolding sort_insert
sort_top [] = []
sort_top (x ∷ top) = sort_insert x (sort_top top)

module _ (lru : LruCache FlowStats FlowKey-discrete) where
  -- `filter_map(|Reverse((_, key))| self.flows.peek(&key).map(|s| (key, *s)))`
  unfoldable pub found : FlowTable lru → List (ℕ × FlowKey) → List (FlowKey × FlowStats)
  found t [] = []
  found t ((bytes, key) ∷ heap) =
      let rest = found t heap in
      elim (Table.get lru t key) [ none ↦ rest | some stats ↦ (key, stats) ∷ rest ]

  unfoldable pub top_by_bytes : FlowTable lru → ℕ → List (FlowKey × FlowStats)
  unfolding heap_of found sort_top
  top_by_bytes t n = if n == 0 then [] else sort_top (found t (heap_of n [] (Table.iter lru t)))

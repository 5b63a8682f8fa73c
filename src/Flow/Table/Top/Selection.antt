-- ===== src/Flow/Table/Top/Selection.antt =====
-- core-rs/core/src/flow.rs: the loop of `top_by_bytes` over the flows.
use netmon_polyglot.Flow.{FlowKey, FlowStats, total_bytes}
use netmon_polyglot.Flow.Table.Top
use netmon_polyglot.Flow.Table.Top.Heap.{
  In-heap_push, AtLeast, IsAscending, lt-not_less, heap_push_nil, heap_push_not_less,
  heap_push-AtLeast, heap_push-IsAscending, length-heap_push, heap_push-In,
}
use netmon_polyglot.Prelude.{
  here, In, there, In-cons, ◌+◌, ◌<◌, ◌≤◌, ◌≡◌, ◌⊎◌, inl, inr, Bool-cases, refl, length, min, drop,
  ltb, if◌then◌else◌, lt→ltb, arith, ℕ, List, [], ◌∷◌,
}

-- `pop` when there are more than `n`.
abbrev trim : ℕ → List (ℕ × FlowKey) → List (ℕ × FlowKey)
trim n heap = if ltb n (length heap) then drop 1 heap else heap

-- What is pushed for a flow.
abbrev pub entry : FlowKey × FlowStats → ℕ × FlowKey
entry flow = (total_bytes flow.1, flow.0)

heap_round-trim :
    (n : ℕ) (heap : List (ℕ × FlowKey)) (flow : FlowKey × FlowStats)
    → Top.heap_round n heap flow ≡ trim n (Top.heap_push (entry flow) heap)
unfolding Top.heap_round
heap_round-trim n heap (key, stats) = refl

length-trim :
    (n : ℕ) (heap : List (ℕ × FlowKey))
    → length heap ≤ n + 1
    → length (trim n heap) ≡ min n (length heap)
length-trim n [] few = ground arith
length-trim n (x ∷ heap) few = ground arith

trim-IsAscending :
    (n : ℕ) (heap : List (ℕ × FlowKey)) → IsAscending heap → IsAscending (trim n heap)
trim-IsAscending n [] h = ground arith
trim-IsAscending n (x ∷ heap) h = elim (Bool-cases (ltb n (length {A = ℕ × FlowKey} (x ∷ heap)))) [
  | inl over ↦ rw over h.1
  | inr fits ↦ rw fits h
]

trim-AtLeast : (n m : ℕ) (heap : List (ℕ × FlowKey)) → AtLeast m heap → AtLeast m (trim n heap)
trim-AtLeast n m [] h = ground arith
trim-AtLeast n m (x ∷ heap) h = elim (Bool-cases (ltb n (length {A = ℕ × FlowKey} (x ∷ heap)))) [
  | inl over ↦ rw over h.1
  | inr fits ↦ rw fits h
]

In-trim : (n : ℕ) (e : ℕ × FlowKey) (heap : List (ℕ × FlowKey)) → In e (trim n heap) → In e heap
In-trim n e [] i = elim (Bool-cases (ltb n 0)) [ inl over ↦ rw over at i | inr fits ↦ rw fits at i ]
In-trim n e (x ∷ heap) i = elim (Bool-cases (ltb n (length {A = ℕ × FlowKey} (x ∷ heap)))) [
  | inl over ↦ there (rw over at i)
  | inr fits ↦ rw fits at i
]

-- The entry is in the heap, or the heap is full of entries with no fewer bytes.
abbrev pub Dominated : ℕ → ℕ × FlowKey → List (ℕ × FlowKey) → Type 0
Dominated n e heap = In e heap ⊎ ((length heap ≡ n) × AtLeast e.0 heap)

trim-Dominated :
    (n : ℕ) (e : ℕ × FlowKey) (heap : List (ℕ × FlowKey))
    → IsAscending heap
    → length heap ≤ n + 1
    → In e heap
    → Dominated n e (trim n heap)
trim-Dominated n e [] h few i = elim i [ ]
trim-Dominated n e (x ∷ heap) h few i =
    elim (Bool-cases (ltb n (length {A = ℕ × FlowKey} (x ∷ heap)))) [
      | inl over ↦ rw over (elim (In-cons e x heap i) [
        | inl first ↦ inr (ground arith, rw first h.0)
        | inr j ↦ inl j
      ])
      | inr fits ↦ rw fits (inl i)
    ]

-- A full heap of entries that have at least `m` bytes stays so.
full-AtLeast :
    (n m : ℕ) (x : ℕ × FlowKey) (heap : List (ℕ × FlowKey))
    → length heap ≡ n
    → AtLeast m heap
    → AtLeast m (trim n (Top.heap_push x heap))
full-AtLeast n m x heap full h = elim (Bool-cases (ltb x.0 m)) [
  | inl less ↦ least heap full h (ground arith)
  | inr not_less ↦
      trim-AtLeast n m (Top.heap_push x heap) (heap_push-AtLeast m x heap (ground arith) h)
]
  where
    least :
        (heap' : List (ℕ × FlowKey))
        → length heap' ≡ n
        → AtLeast m heap'
        → x.0 < m
        → AtLeast m (trim n (Top.heap_push x heap'))
    least [] full' h' lt = rw (heap_push_nil x) (rw (lt→ltb n 1 (omega arith)) tt)
    least (y ∷ heap') full' h' lt =
        rw (heap_push_not_less x y heap' (lt-not_less x y (omega arith)))
          (rw (lt→ltb n (length {A = ℕ × FlowKey} (x ∷ y ∷ heap')) (omega arith)) h')

round-Dominated :
    (n : ℕ) (e : ℕ × FlowKey) (heap : List (ℕ × FlowKey)) (flow : FlowKey × FlowStats)
    → IsAscending heap
    → length heap ≤ n
    → Dominated n e heap
    → Dominated n e (Top.heap_round n heap flow)
round-Dominated n e heap flow h few (inl i) = rw (heap_round-trim n heap flow) (
    trim-Dominated n e (Top.heap_push (entry flow) heap) (heap_push-IsAscending (entry flow) heap h)
      (omega (arith, length-heap_push (entry flow) heap))
      (heap_push-In (entry flow) e heap (there i)))
round-Dominated n e heap flow h few (inr (full, least)) = rw (heap_round-trim n heap flow) (
    inr (
      omega (
        arith,
        length-trim n (Top.heap_push (entry flow) heap),
        length-heap_push (entry flow) heap,
      ),
      full-AtLeast n e.0 (entry flow) heap full least,
    ))

length-heap_round :
    (n : ℕ) (heap : List (ℕ × FlowKey)) (flow : FlowKey × FlowStats)
    → length heap ≤ n
    → length (Top.heap_round n heap flow) ≡ min n (length heap + 1)
length-heap_round n heap flow few = rw (heap_round-trim n heap flow) (
    omega
      (arith, length-trim n (Top.heap_push (entry flow) heap), length-heap_push (entry flow) heap))

heap_round-IsAscending :
    (n : ℕ) (heap : List (ℕ × FlowKey)) (flow : FlowKey × FlowStats)
    → IsAscending heap
    → IsAscending (Top.heap_round n heap flow)
heap_round-IsAscending n heap flow h = rw (heap_round-trim n heap flow) (
    trim-IsAscending n (Top.heap_push (entry flow) heap)
      (heap_push-IsAscending (entry flow) heap h))

pub length-heap_of :
    (n : ℕ) (heap : List (ℕ × FlowKey)) (flows : List (FlowKey × FlowStats))
    → length heap ≤ n
    → length (Top.heap_of n heap flows) ≡ min n (length heap + length flows)
unfolding Top.heap_of
length-heap_of n heap [] few = omega arith
length-heap_of n heap (flow ∷ flows) few =
    let heap' = Top.heap_round n heap flow in
    let one = length-heap_round n heap flow few in
    omega (arith, one, length-heap_of n heap' flows (omega (arith, one)))

heap_of-Dominated :
    (n : ℕ) (e : ℕ × FlowKey) (heap : List (ℕ × FlowKey)) (flows : List (FlowKey × FlowStats))
    → IsAscending heap
    → length heap ≤ n
    → Dominated n e heap
    → Dominated n e (Top.heap_of n heap flows)
unfolding Top.heap_of
heap_of-Dominated n e heap [] h few d = d
heap_of-Dominated n e heap (flow ∷ flows) h few d =
    heap_of-Dominated n e (Top.heap_round n heap flow) flows (heap_round-IsAscending n heap flow h)
      (omega (arith, length-heap_round n heap flow few)) (round-Dominated n e heap flow h few d)

-- Every flow that the loop has seen is in the heap, or the heap is full of flows with no fewer bytes.
pub heap_of_complete :
    (n : ℕ) (flow : FlowKey × FlowStats) (heap : List (ℕ × FlowKey))
    (flows : List (FlowKey × FlowStats))
    → IsAscending heap
    → length heap ≤ n
    → In flow flows
    → Dominated n (entry flow) (Top.heap_of n heap flows)
unfolding Top.heap_of
heap_of_complete n flow heap [] h few i = elim i [ ]
heap_of_complete n flow heap (other ∷ flows) h few i =
    let heap' = Top.heap_round n heap other in
    let h' = heap_round-IsAscending n heap other h in
    let few' : length heap' ≤ n = omega (arith, length-heap_round n heap other few) in
    elim (In-cons flow other flows i) [
      | inl same ↦ heap_of-Dominated n (entry flow) heap' flows h' few' (
          rw same (
            rw (heap_round-trim n heap other) (
              trim-Dominated n (entry other) (Top.heap_push (entry other) heap)
                (heap_push-IsAscending (entry other) heap h)
                (omega (arith, length-heap_push (entry other) heap))
                (heap_push-In (entry other) (entry other) heap here))))
      | inr j ↦ heap_of_complete n flow heap' flows h' few' j
    ]

-- What is in the heap behind the loop was in it, or is the entry of a flow.
pub In-heap_of :
    (n : ℕ) (e : ℕ × FlowKey) (heap : List (ℕ × FlowKey)) (flows : List (FlowKey × FlowStats))
    → In e (Top.heap_of n heap flows)
    → In e heap ⊎ ((flow : FlowKey × FlowStats) × (e ≡ entry flow) × In flow flows)
unfolding Top.heap_of
In-heap_of n e heap [] i = inl i
In-heap_of n e heap (flow ∷ flows) i = elim (In-heap_of n e (Top.heap_round n heap flow) flows i) [
  | inr (found, same, j) ↦ inr (found, same, there j)
  | inl j ↦
      elim (In-cons e (entry flow) heap (
        In-heap_push (entry flow) e heap (
          In-trim n e (Top.heap_push (entry flow) heap) (rw (heap_round-trim n heap flow) at j)))) [
            | inl same ↦ inr (flow, same, here)
            | inr old ↦ inl old
          ]
]

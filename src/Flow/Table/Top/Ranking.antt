-- ===== src/Flow/Table/Top/Ranking.antt =====
-- core-rs/core/src/flow.rs: `top_by_bytes` gives the busiest flows, the busiest first.
use netmon_polyglot.Flow.{FlowKey, FlowKey-discrete, FlowStats, FlowTable, total_bytes}
use netmon_polyglot.Flow.Table
use netmon_polyglot.Flow.Table.Contents.{IsValid}
use netmon_polyglot.Flow.Table.Top
use netmon_polyglot.Flow.Table.Top.Heap.{AtLeast}
use netmon_polyglot.Flow.Table.Top.Selection.{entry, length-heap_of, heap_of_complete, In-heap_of}
use netmon_polyglot.Flow.Table.Top.Sorting.{
  AllAbove, IsDescending, AllAbove-each, sort_top-IsDescending, length-sort_top, sort_top-In,
  In-sort_top,
}
use netmon_polyglot.Flow.Table.Top.Repeats.{top-Distinct}
use netmon_polyglot.Lru.{LruCache}
use netmon_polyglot.Lru.Entries.{lookup, Distinct}
use netmon_polyglot.Prelude.{
  false, true, eq-In, suc, In, here, there, In-cons, ◌≤◌, ◌≡◌, ◌⊎◌, inl, inr, Option-cases, refl,
  ap, sym, ◌∙◌, length, min, ◌==◌, arith, ℕ, List, [], ◌∷◌, some, Bool-cases,
}

lookup_member :
    (flow : FlowKey × FlowStats) (flows : List (FlowKey × FlowStats))
    → Distinct FlowKey-discrete flows
    → In flow flows
    → lookup FlowKey-discrete flow.0 flows ≡ some flow.1
lookup_member flow [] h i = elim i [ ]
lookup_member flow (x ∷ flows) h i = elim (In-cons flow x flows i) [
  | inl same ↦ ground arith
  | inr j ↦ ground (arith, lookup_member flow flows h.1 j)
]

member_lookup :
    (key : FlowKey) (stats : FlowStats) (flows : List (FlowKey × FlowStats))
    → lookup FlowKey-discrete key flows ≡ some stats
    → In (key, stats) flows
member_lookup key stats [] h = absurd cc
member_lookup key stats ((k, s) ∷ flows) h = elim (FlowKey-discrete k key) [
  | yes p ↦
      let same : ◌≡◌ {A = FlowKey × FlowStats} (key, stats) (k, s) = ground arith in
      eq-In (key, stats) (k, s) flows same
  | no p ↦ there (member_lookup key stats flows (ground arith))
]

AtLeast-each :
    (m : ℕ) (e : ℕ × FlowKey) (heap : List (ℕ × FlowKey)) → AtLeast m heap → In e heap → m ≤ e.0
AtLeast-each m e [] h i = elim i [ ]
AtLeast-each m e (x ∷ heap) h i = elim (In-cons e x heap i) [
  | inl same ↦ rw same h.0
  | inr j ↦ AtLeast-each m e heap h.1 j
]

AllAbove-at :
    (m : ℕ) (flow : FlowKey × FlowStats) (flows : List (FlowKey × FlowStats))
    → AllAbove m flows
    → In flow flows
    → m ≤ total_bytes flow.1
AllAbove-at m flow [] h i = elim i [ ]
AllAbove-at m flow (x ∷ flows) h i = elim (In-cons flow x flows i) [
  | inl same ↦ rw same h.0
  | inr j ↦ AllAbove-at m flow flows h.1 j
]

module _ (lru : LruCache FlowStats FlowKey-discrete) (t : FlowTable lru) where
  -- The flows of these keys are all known.
  abbrev Known : List (ℕ × FlowKey) → Type 0
  Known heap = (e : ℕ × FlowKey) → In e heap → (s : FlowStats) × (Table.get lru t e.1 ≡ some s)

  length-found :
      (heap : List (ℕ × FlowKey)) → Known heap → length (Top.found lru t heap) ≡ length heap
  unfolding Top.found
  length-found [] known = refl
  length-found (x ∷ heap) known =
      let (s, e) = known x here in
      rw (e, Top.found) (ap suc (length-found heap (λ y i. known y (there i))))

  found-In :
      (e : ℕ × FlowKey) (s : FlowStats) (heap : List (ℕ × FlowKey))
      → Table.get lru t e.1 ≡ some s
      → In e heap
      → In (e.1, s) (Top.found lru t heap)
  unfolding Top.found
  found-In e s [] is i = elim i [ ]
  found-In e s (x ∷ heap) is i = elim (In-cons e x heap i) [
    | inl same ↦ rw (← same) (rw (is, Top.found) here)
    | inr j ↦ elim (Option-cases (Table.get lru t x.1)) [
      | inl missing ↦ rw (missing, Top.found) (found-In e s heap is j)
      | inr (s', is') ↦ rw (is', Top.found) (there (found-In e s heap is j))
    ]
  ]

  In-found :
      (flow : FlowKey × FlowStats) (heap : List (ℕ × FlowKey))
      → In flow (Top.found lru t heap)
      → (bytes : ℕ) × In (bytes, flow.0) heap × (Table.get lru t flow.0 ≡ some flow.1)
  unfolding Top.found
  In-found flow [] i = elim i [ ]
  In-found flow (x ∷ heap) i = elim (Option-cases (Table.get lru t x.1)) [
    | inl missing ↦
        let (bytes, j, is) = In-found flow heap (rw (missing, Top.found) at i) in
        (bytes, there j, is)
    | inr (s, known) ↦
        elim (In-cons flow (x.1, s) (Top.found lru t heap) (rw (known, Top.found) at i)) [
          | inl same ↦ (x.0, rw same here, rw same known)
          | inr j ↦ let (bytes, k, is) = In-found flow heap j in (bytes, there k, is)
        ]
  ]

-- The ranking of `n` of the flows: as many as there are, or `n`; no key twice; none of them has fewer bytes than one
-- behind it; and none that is left out has more bytes than one of them.
pub record IsRanking (n : ℕ) (flows top : List (FlowKey × FlowStats)) : Type 0 where
  pub sized : length top ≡ min n (length flows)
  pub distinct : Distinct FlowKey-discrete top
  pub sorted : IsDescending top
  pub sound : (flow : FlowKey × FlowStats) → In flow top → In flow flows
  pub complete :
      (flow : FlowKey × FlowStats) → In flow flows → In flow top ⊎ AllAbove (total_bytes flow.1) top

module _ (lru : LruCache FlowStats FlowKey-discrete) (t : FlowTable lru) (v : IsValid lru t) where
  get_member :
      (flow : FlowKey × FlowStats)
      → In flow (Table.iter lru t)
      → Table.get lru t flow.0 ≡ some flow.1
  unfolding Table.get Table.iter
  get_member flow i =
      lru.peek-iter t.flows flow.0 ∙ lookup_member flow (lru.iter t.flows) v.distinct i

  member_get :
      (flow : FlowKey × FlowStats)
      → Table.get lru t flow.0 ≡ some flow.1
      → In flow (Table.iter lru t)
  unfolding Table.get Table.iter
  member_get flow e =
      member_lookup flow.0 flow.1 (lru.iter t.flows) (sym (lru.peek-iter t.flows flow.0) ∙ e)

  -- The entries of the heap behind the loop.
  abbrev heap : ℕ → List (ℕ × FlowKey)
  heap n = Top.heap_of n [] (Table.iter lru t)

  heap-entry :
      (n : ℕ) (e : ℕ × FlowKey)
      → In e (heap n)
      → (flow : FlowKey × FlowStats) × (e ≡ entry flow) × In flow (Table.iter lru t)
  heap-entry n e i = elim (In-heap_of n e [] (Table.iter lru t) i) [
    | inl none_yet ↦ elim none_yet [ ]
    | inr found ↦ found
  ]

  heap-Known : (n : ℕ) → Known lru t (heap n)
  heap-Known n e i =
      let (flow, same, j) = heap-entry n e i in
      (flow.1, ap (λ (x : ℕ × FlowKey). Table.get lru t x.1) same ∙ get_member flow j)

  found-AllAbove : (n m : ℕ) → AtLeast m (heap n) → AllAbove m (Top.found lru t (heap n))
  found-AllAbove n m h = AllAbove-each m (Top.found lru t (heap n)) λ flow i.
      let (bytes, j, is) = In-found lru t flow (heap n) i in
      let (g, same, k) = heap-entry n (bytes, flow.0) j in
      let least : m ≤ bytes = AtLeast-each m (bytes, flow.0) (heap n) h j in
      ground (arith, get_member g k)

  top_nothing : (n : ℕ) → (n == 0) ≡ true → Top.top_by_bytes lru t n ≡ []
  unfolding Top.top_by_bytes
  top_nothing n h = rw h refl

  top_some :
      (n : ℕ)
      → (n == 0) ≡ false
      → Top.top_by_bytes lru t n ≡ Top.sort_top (Top.found lru t (heap n))
  unfolding Top.top_by_bytes
  top_some n h = rw h refl

  ranked : (n : ℕ) → IsRanking n (Table.iter lru t) (Top.sort_top (Top.found lru t (heap n)))
  ranked n =
      let top = Top.found lru t (heap n) in
      record {
        sized =
            length-sort_top top
            ∙ length-found lru t (heap n) (heap-Known n)
            ∙ length-heap_of n [] (Table.iter lru t) (omega arith)
            ∙ omega arith;
        distinct = top-Distinct lru t n (Table.iter lru t) (unfold Table.iter in v.distinct);
        sorted = sort_top-IsDescending top;
        sound = λ flow i.
            let (bytes, j, is) = In-found lru t flow (heap n) (In-sort_top flow top i) in
            member_get flow is;
        complete = λ flow i.
            elim (heap_of_complete n flow [] (Table.iter lru t) tt (omega arith) i) [
              | inl j ↦ inl (
                  sort_top-In flow top
                    (found-In lru t (entry flow) flow.1 (heap n) (get_member flow i) j))
              | inr (full, least) ↦ inr (
                  AllAbove-each (total_bytes flow.1) (Top.sort_top top) λ other j.
                    AllAbove-at (total_bytes flow.1) other top
                      (found-AllAbove n (total_bytes flow.1) least) (In-sort_top other top j))
            ];
      }

  -- On a valid table `top_by_bytes` gives the ranking of `n` of its flows by their bytes in both
  -- directions: `n` of them, or all if there are fewer, none of them twice, the busiest first; and a flow that is left out
  -- has no more bytes than any that is given.
  pub top_by_bytes-IsRanking : (n : ℕ) → IsRanking n (Table.iter lru t) (Top.top_by_bytes lru t n)
  top_by_bytes-IsRanking n = elim (Bool-cases (n == 0)) [
    | inl nothing ↦ rw (top_nothing n nothing) (record {
      sized = ground arith;
      distinct = tt;
      sorted = tt;
      sound = λ flow i. elim i [ ];
      complete = λ flow i. inr tt;
    })
    | inr some_left ↦ rw (top_some n some_left) (ranked n)
  ]

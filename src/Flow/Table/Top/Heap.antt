-- ===== src/Flow/Table/Top/Heap.antt =====
-- core-rs/core/src/flow.rs: the heap of `top_by_bytes` holds the busiest flows of those that it has seen.
use netmon_polyglot.Flow.{FlowKey}
use netmon_polyglot.Flow.Table.Top
use netmon_polyglot.Net.{then_cmp}
use netmon_polyglot.Prelude.{
  In-swap, In-mono, In, ◌+◌, ◌<◌, ◌≤◌, ◌≡◌, inl, inr, true, false, Bool-cases, refl, length, arith,
  ℕ, List, [], ◌∷◌,
}

-- Each entry has at least so many bytes.
abbrev pub AtLeast : ℕ → List (ℕ × FlowKey) → Type 0
AtLeast m [] = Unit
AtLeast m (x ∷ heap) = (m ≤ x.0) × AtLeast m heap

abbrev pub IsAscending : List (ℕ × FlowKey) → Type 0
IsAscending [] = Unit
IsAscending (x ∷ heap) = AtLeast x.0 heap × IsAscending heap

less-le : (x y : ℕ × FlowKey) → Top.is_less (Top.cmp_entry y x) ≡ true → y.0 ≤ x.0
unfolding Top.is_less Top.cmp_entry then_cmp
less-le x y h = ground arith

not_less-le : (x y : ℕ × FlowKey) → Top.is_less (Top.cmp_entry y x) ≡ false → x.0 ≤ y.0
unfolding Top.is_less Top.cmp_entry then_cmp
not_less-le x y h = ground arith

pub lt-not_less : (x y : ℕ × FlowKey) → x.0 < y.0 → Top.is_less (Top.cmp_entry y x) ≡ false
unfolding Top.is_less Top.cmp_entry then_cmp
lt-not_less x y h = ground arith

pub heap_push_nil : (x : ℕ × FlowKey) → Top.heap_push x [] ≡ x ∷ []
unfolding Top.heap_push
heap_push_nil x = refl

heap_push_less :
    (x y : ℕ × FlowKey) (heap : List (ℕ × FlowKey))
    → Top.is_less (Top.cmp_entry y x) ≡ true
    → Top.heap_push x (y ∷ heap) ≡ y ∷ Top.heap_push x heap
unfolding Top.heap_push
heap_push_less x y heap h = rw h refl

pub heap_push_not_less :
    (x y : ℕ × FlowKey) (heap : List (ℕ × FlowKey))
    → Top.is_less (Top.cmp_entry y x) ≡ false
    → Top.heap_push x (y ∷ heap) ≡ x ∷ y ∷ heap
unfolding Top.heap_push
heap_push_not_less x y heap h = rw h refl

AtLeast-mono : (m n : ℕ) (heap : List (ℕ × FlowKey)) → m ≤ n → AtLeast n heap → AtLeast m heap
AtLeast-mono m n [] le h = tt
AtLeast-mono m n (x ∷ heap) le h = (omega arith, AtLeast-mono m n heap le h.1)

pub heap_push-AtLeast :
    (m : ℕ) (x : ℕ × FlowKey) (heap : List (ℕ × FlowKey))
    → m ≤ x.0
    → AtLeast m heap
    → AtLeast m (Top.heap_push x heap)
heap_push-AtLeast m x [] le h = rw (heap_push_nil x) (le, tt)
heap_push-AtLeast m x (y ∷ heap) le h = elim (Bool-cases (Top.is_less (Top.cmp_entry y x))) [
  | inl less ↦ rw (heap_push_less x y heap less) (h.0, heap_push-AtLeast m x heap le h.1)
  | inr not_less ↦ rw (heap_push_not_less x y heap not_less) (le, h)
]

pub heap_push-IsAscending :
    (x : ℕ × FlowKey) (heap : List (ℕ × FlowKey))
    → IsAscending heap
    → IsAscending (Top.heap_push x heap)
heap_push-IsAscending x [] h = rw (heap_push_nil x) (tt, tt)
heap_push-IsAscending x (y ∷ heap) h = elim (Bool-cases (Top.is_less (Top.cmp_entry y x))) [
  | inl less ↦
      rw (heap_push_less x y heap less)
        (heap_push-AtLeast y.0 x heap (less-le x y less) h.0, heap_push-IsAscending x heap h.1)
  | inr not_less ↦
      let le = not_less-le x y not_less in
      rw (heap_push_not_less x y heap not_less) ((le, AtLeast-mono x.0 y.0 heap le h.0), h)
]

pub length-heap_push :
    (x : ℕ × FlowKey) (heap : List (ℕ × FlowKey)) → length (Top.heap_push x heap) ≡ length heap + 1
length-heap_push x [] = rw (heap_push_nil x) (omega arith)
length-heap_push x (y ∷ heap) = elim (Bool-cases (Top.is_less (Top.cmp_entry y x))) [
  | inl less ↦ rw (heap_push_less x y heap less) (omega (arith, length-heap_push x heap))
  | inr not_less ↦ rw (heap_push_not_less x y heap not_less) (omega arith)
]

-- What is in the heap behind a push is what was in it, and what was pushed.
pub heap_push-In :
    (x e : ℕ × FlowKey) (heap : List (ℕ × FlowKey)) → In e (x ∷ heap) → In e (Top.heap_push x heap)
heap_push-In x e [] i = rw (heap_push_nil x) i
heap_push-In x e (y ∷ heap) i = elim (Bool-cases (Top.is_less (Top.cmp_entry y x))) [
  | inl less ↦ rw (heap_push_less x y heap less) (
      In-mono e y (x ∷ heap) (Top.heap_push x heap) (λ j. heap_push-In x e heap j)
        (In-swap e x y heap i))
  | inr not_less ↦ rw (heap_push_not_less x y heap not_less) i
]

pub In-heap_push :
    (x e : ℕ × FlowKey) (heap : List (ℕ × FlowKey)) → In e (Top.heap_push x heap) → In e (x ∷ heap)
In-heap_push x e [] i = rw (heap_push_nil x) at i
In-heap_push x e (y ∷ heap) i = elim (Bool-cases (Top.is_less (Top.cmp_entry y x))) [
  | inl less ↦ In-swap e y x heap (
      In-mono e y (Top.heap_push x heap) (x ∷ heap) (λ j. In-heap_push x e heap j)
        (rw (heap_push_less x y heap less) at i))
  | inr not_less ↦ rw (heap_push_not_less x y heap not_less) at i
]

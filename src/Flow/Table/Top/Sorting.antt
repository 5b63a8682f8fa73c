-- ===== src/Flow/Table/Top/Sorting.antt =====
-- core-rs/core/src/flow.rs: the sort at the end of `top_by_bytes`.
use netmon_polyglot.Flow.{FlowKey, FlowStats, total_bytes}
use netmon_polyglot.Flow.Table.Top
use netmon_polyglot.Net.{then_cmp}
use netmon_polyglot.Prelude.{
  there, here, In, In-mono, In-swap, ◌+◌, ◌≤◌, ◌≡◌, inl, inr, true, false, Bool-cases, refl, length,
  arith, ℕ, List, [], ◌∷◌,
}

-- Each flow has at least, or at most, so many bytes.
abbrev pub AllAbove : ℕ → List (FlowKey × FlowStats) → Type 0
AllAbove m [] = Unit
AllAbove m (flow ∷ flows) = (m ≤ total_bytes flow.1) × AllAbove m flows

abbrev pub AllBelow : ℕ → List (FlowKey × FlowStats) → Type 0
AllBelow m [] = Unit
AllBelow m (flow ∷ flows) = (total_bytes flow.1 ≤ m) × AllBelow m flows

abbrev pub IsDescending : List (FlowKey × FlowStats) → Type 0
IsDescending [] = Unit
IsDescending (flow ∷ flows) = AllBelow (total_bytes flow.1) flows × IsDescending flows

less-ge :
    (x y : FlowKey × FlowStats)
    → Top.is_less (Top.cmp_top y x) ≡ true
    → total_bytes x.1 ≤ total_bytes y.1
unfolding Top.is_less Top.cmp_top then_cmp
less-ge x y h = ground arith

not_less-ge :
    (x y : FlowKey × FlowStats)
    → Top.is_less (Top.cmp_top y x) ≡ false
    → total_bytes y.1 ≤ total_bytes x.1
unfolding Top.is_less Top.cmp_top then_cmp
not_less-ge x y h = ground arith

sort_insert_nil : (x : FlowKey × FlowStats) → Top.sort_insert x [] ≡ x ∷ []
unfolding Top.sort_insert
sort_insert_nil x = refl

sort_insert_less :
    (x y : FlowKey × FlowStats) (top : List (FlowKey × FlowStats))
    → Top.is_less (Top.cmp_top y x) ≡ true
    → Top.sort_insert x (y ∷ top) ≡ y ∷ Top.sort_insert x top
unfolding Top.sort_insert
sort_insert_less x y top h = rw h refl

sort_insert_not_less :
    (x y : FlowKey × FlowStats) (top : List (FlowKey × FlowStats))
    → Top.is_less (Top.cmp_top y x) ≡ false
    → Top.sort_insert x (y ∷ top) ≡ x ∷ y ∷ top
unfolding Top.sort_insert
sort_insert_not_less x y top h = rw h refl

AllBelow-mono :
    (m n : ℕ) (top : List (FlowKey × FlowStats)) → m ≤ n → AllBelow m top → AllBelow n top
AllBelow-mono m n [] le h = tt
AllBelow-mono m n (x ∷ top) le h = (omega arith, AllBelow-mono m n top le h.1)

sort_insert-AllBelow :
    (m : ℕ) (x : FlowKey × FlowStats) (top : List (FlowKey × FlowStats))
    → total_bytes x.1 ≤ m
    → AllBelow m top
    → AllBelow m (Top.sort_insert x top)
sort_insert-AllBelow m x [] le h = rw (sort_insert_nil x) (le, tt)
sort_insert-AllBelow m x (y ∷ top) le h = elim (Bool-cases (Top.is_less (Top.cmp_top y x))) [
  | inl less ↦ rw (sort_insert_less x y top less) (h.0, sort_insert-AllBelow m x top le h.1)
  | inr not_less ↦ rw (sort_insert_not_less x y top not_less) (le, h)
]

sort_insert-IsDescending :
    (x : FlowKey × FlowStats) (top : List (FlowKey × FlowStats))
    → IsDescending top
    → IsDescending (Top.sort_insert x top)
sort_insert-IsDescending x [] h = rw (sort_insert_nil x) (tt, tt)
sort_insert-IsDescending x (y ∷ top) h = elim (Bool-cases (Top.is_less (Top.cmp_top y x))) [
  | inl less ↦ rw (sort_insert_less x y top less) (
    sort_insert-AllBelow (total_bytes y.1) x top (less-ge x y less) h.0,
    sort_insert-IsDescending x top h.1,
  )
  | inr not_less ↦
      let le = not_less-ge x y not_less in
      rw (sort_insert_not_less x y top not_less)
        ((le, AllBelow-mono (total_bytes y.1) (total_bytes x.1) top le h.0), h)
]

length-sort_insert :
    (x : FlowKey × FlowStats) (top : List (FlowKey × FlowStats))
    → length (Top.sort_insert x top) ≡ length top + 1
length-sort_insert x [] = rw (sort_insert_nil x) (omega arith)
length-sort_insert x (y ∷ top) = elim (Bool-cases (Top.is_less (Top.cmp_top y x))) [
  | inl less ↦ rw (sort_insert_less x y top less) (omega (arith, length-sort_insert x top))
  | inr not_less ↦ rw (sort_insert_not_less x y top not_less) (omega arith)
]

sort_insert-In :
    (x e : FlowKey × FlowStats) (top : List (FlowKey × FlowStats))
    → In e (x ∷ top)
    → In e (Top.sort_insert x top)
sort_insert-In x e [] i = rw (sort_insert_nil x) i
sort_insert-In x e (y ∷ top) i = elim (Bool-cases (Top.is_less (Top.cmp_top y x))) [
  | inl less ↦ rw (sort_insert_less x y top less) (
      In-mono e y (x ∷ top) (Top.sort_insert x top) (λ j. sort_insert-In x e top j)
        (In-swap e x y top i))
  | inr not_less ↦ rw (sort_insert_not_less x y top not_less) i
]

In-sort_insert :
    (x e : FlowKey × FlowStats) (top : List (FlowKey × FlowStats))
    → In e (Top.sort_insert x top)
    → In e (x ∷ top)
In-sort_insert x e [] i = rw (sort_insert_nil x) at i
In-sort_insert x e (y ∷ top) i = elim (Bool-cases (Top.is_less (Top.cmp_top y x))) [
  | inl less ↦ In-swap e y x top (
      In-mono e y (Top.sort_insert x top) (x ∷ top) (λ j. In-sort_insert x e top j)
        (rw (sort_insert_less x y top less) at i))
  | inr not_less ↦ rw (sort_insert_not_less x y top not_less) at i
]

pub sort_top-IsDescending : (top : List (FlowKey × FlowStats)) → IsDescending (Top.sort_top top)
unfolding Top.sort_top
sort_top-IsDescending [] = tt
sort_top-IsDescending (x ∷ top) =
    sort_insert-IsDescending x (Top.sort_top top) (sort_top-IsDescending top)

pub length-sort_top : (top : List (FlowKey × FlowStats)) → length (Top.sort_top top) ≡ length top
unfolding Top.sort_top
length-sort_top [] = refl
length-sort_top (x ∷ top) =
    omega (arith, length-sort_insert x (Top.sort_top top), length-sort_top top)

pub sort_top-In :
    (e : FlowKey × FlowStats) (top : List (FlowKey × FlowStats))
    → In e top
    → In e (Top.sort_top top)
unfolding Top.sort_top
sort_top-In e [] i = elim i [ ]
sort_top-In e (x ∷ top) i =
    sort_insert-In x e (Top.sort_top top)
      (In-mono e x top (Top.sort_top top) (λ j. sort_top-In e top j) i)

pub In-sort_top :
    (e : FlowKey × FlowStats) (top : List (FlowKey × FlowStats))
    → In e (Top.sort_top top)
    → In e top
unfolding Top.sort_top
In-sort_top e [] i = i
In-sort_top e (x ∷ top) i =
    In-mono e x (Top.sort_top top) top (λ j. In-sort_top e top j)
      (In-sort_insert x e (Top.sort_top top) i)

pub AllAbove-each :
    (m : ℕ) (flows : List (FlowKey × FlowStats))
    → ((flow : FlowKey × FlowStats) → In flow flows → m ≤ total_bytes flow.1)
    → AllAbove m flows
AllAbove-each m [] h = tt
AllAbove-each m (x ∷ flows) h = (h x here, AllAbove-each m flows (λ flow i. h flow (there i)))

-- ===== src/Rules/Window/Counting.antt =====
-- core-rs/core/src/rules/window.rs: the counts of a window agree with its events.
use netmon_polyglot.Prelude.Words.{u32_mod, add32, sub32}
use netmon_polyglot.Prelude.{
  refl, zero, [], ◌<◌, suc, ◌≢◌, length, arith, ◌≡◌, ◌++◌, ◌≤◌, ◌∷◌, some, ◌+◌, none, List, Option,
  ℕ,
}
use netmon_polyglot.Rules.Window.{Option, add32, sub32, ℕ, List, increment, decrement}
use netmon_polyglot.Lru.Entries.{lookup, Distinct}

module _ {K : Type 0} (dec : Discrete K) where
  -- How often a key stands among the events.
  abbrev pub occurrences : K → List (ℕ × K) → ℕ
  occurrences key [] = 0
  occurrences key (e ∷ events) = elim (dec e.1 key) [
    | yes p ↦ suc (occurrences key events)
    | no p ↦ occurrences key events
  ]

  pub occurrences-le : (key : K) (events : List (ℕ × K)) → occurrences key events ≤ length events
  occurrences-le key [] = omega arith
  occurrences-le key (e ∷ events) = ground (arith, occurrences-le key events)

  pub occurrences-append :
      (key : K) (xs ys : List (ℕ × K))
      → occurrences key (xs ++ ys) ≡ occurrences key xs + occurrences key ys
  occurrences-append key [] ys = omega arith
  occurrences-append key (e ∷ xs) ys = ground (arith, occurrences-append key xs ys)

  -- The entry for a number of occurrences: none for 0.
  abbrev pub entry : ℕ → Option ℕ
  entry zero = none
  entry (suc n) = some (suc n)

  -- The value of an entry, 0 if there is none.
  abbrev pub value : Option ℕ → ℕ
  value none = 0
  value (some n) = n

  pub lookup-increment :
      (key q : K) (m : List (K × ℕ))
      → value (lookup dec key m) + 1 < u32_mod
      → lookup dec q (increment dec key m)
        ≡ elim (dec key q) [ yes p ↦ some (value (lookup dec key m) + 1) | no p ↦ lookup dec q m ]
  unfolding increment add32
  lookup-increment key q [] h = ground arith
  lookup-increment key q (e ∷ m) h = ground (arith, lookup-increment key q m)

  pub increment-Distinct :
      (key : K) (m : List (K × ℕ)) → Distinct dec m → Distinct dec (increment dec key m)
  unfolding increment
  increment-Distinct key [] h = (refl, tt)
  increment-Distinct key (e ∷ m) h =
      ground (arith, increment-Distinct key m h.1, absent_after key e.0 m h.0)
    where
      absent_after :
          (key q : K) (m : List (K × ℕ))
          → lookup dec q m ≡ none
          → key ≢ q
          → lookup dec q (increment dec key m) ≡ none
      absent_after key q [] h n = ground arith
      absent_after key q (f ∷ m) h n = ground (arith, absent_after key q m)

  absent-decrement :
      (key q : K) (m : List (K × ℕ))
      → lookup dec q m ≡ none
      → lookup dec q (decrement dec key m) ≡ none
  unfolding decrement
  absent-decrement key q [] h = refl
  absent-decrement key q (e ∷ m) h = ground (arith, absent-decrement key q m)

  pub decrement-Distinct :
      (key : K) (m : List (K × ℕ)) → Distinct dec m → Distinct dec (decrement dec key m)
  unfolding decrement
  decrement-Distinct key [] h = tt
  decrement-Distinct key (e ∷ m) h =
      ground (arith, decrement-Distinct key m h.1, absent-decrement key e.0 m h.0)

  pub lookup-decrement :
      (key q : K) (m : List (K × ℕ)) (n : ℕ)
      → Distinct dec m
      → lookup dec key m ≡ some (suc n)
      → suc n < u32_mod
      → lookup dec q (decrement dec key m)
        ≡ elim (dec key q) [ yes p ↦ entry n | no p ↦ lookup dec q m ]
  unfolding decrement sub32
  lookup-decrement key q [] n d h small = absurd (ground arith)
  lookup-decrement key q (e ∷ m) n d h small = ground (arith, lookup-decrement key q m n d.1)

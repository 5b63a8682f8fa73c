-- ===== src/Lru/Entries.antt =====
-- Lists of entries, most recently used first: lookup, removal of a key, the last entry.
use netmon_polyglot.Prelude.{
  ◌+◌, ◌-◌, ◌≡◌, refl, ◌≢◌, Option, none, some, List, [], ◌∷◌, arith, length,
}

module _ {K V : Type 0} where
  abbrev pub last : List (K × V) → Option (K × V)
  last [] = none
  last (e ∷ []) = some e
  last (e ∷ f ∷ l) = last (f ∷ l)

  abbrev pub drop_last : List (K × V) → List (K × V)
  drop_last [] = []
  drop_last (e ∷ []) = []
  drop_last (e ∷ f ∷ l) = e ∷ drop_last (f ∷ l)

  pub length-drop_last : (l : List (K × V)) → length (drop_last l) ≡ length l - 1
  length-drop_last [] = omega arith
  length-drop_last (e ∷ []) = omega arith
  length-drop_last (e ∷ f ∷ l) = omega (arith, length-drop_last (f ∷ l))

module _ {K V : Type 0} (dec : Discrete K) where
  abbrev pub lookup : K → List (K × V) → Option V
  lookup k [] = none
  lookup k (e ∷ l) = elim (dec e.0 k) [ yes p ↦ some e.1 | no p ↦ lookup k l ]

  abbrev pub remove : K → List (K × V) → List (K × V)
  remove k [] = []
  remove k (e ∷ l) = elim (dec e.0 k) [ yes p ↦ l | no p ↦ e ∷ remove k l ]

  -- No key stands twice.
  abbrev pub Distinct : List (K × V) → Type 0
  Distinct [] = Unit
  Distinct (e ∷ l) = (lookup e.0 l ≡ none) × Distinct l

  pub length-remove :
      (k : K) (l : List (K × V)) (v : V) → lookup k l ≡ some v → length (remove k l) + 1 ≡ length l
  length-remove k [] v h = absurd (ground arith)
  length-remove k (e ∷ l) v h = ground (arith, length-remove k l v)

  pub lookup-remove_ne : (k q : K) (l : List (K × V)) → q ≢ k → lookup q (remove k l) ≡ lookup q l
  lookup-remove_ne k q [] h = refl
  lookup-remove_ne k q (e ∷ l) h = ground (arith, lookup-remove_ne k q l)

  pub lookup-remove_self : (k : K) (l : List (K × V)) → Distinct l → lookup k (remove k l) ≡ none
  lookup-remove_self k [] h = refl
  lookup-remove_self k (e ∷ l) h = ground (arith, lookup-remove_self k l h.1)

  lookup-remove_none :
      (k q : K) (l : List (K × V)) → lookup q l ≡ none → lookup q (remove k l) ≡ none
  lookup-remove_none k q [] h = refl
  lookup-remove_none k q (e ∷ l) h = ground (arith, lookup-remove_none k q l)

  pub remove-Distinct : (k : K) (l : List (K × V)) → Distinct l → Distinct (remove k l)
  remove-Distinct k [] h = tt
  remove-Distinct k (e ∷ l) h =
      ground (arith, remove-Distinct k l h.1, lookup-remove_none k e.0 l h.0)

  pub lookup-drop_last_none :
      (q : K) (l : List (K × V)) → lookup q l ≡ none → lookup q (drop_last l) ≡ none
  lookup-drop_last_none q [] h = refl
  lookup-drop_last_none q (e ∷ []) h = refl
  lookup-drop_last_none q (e ∷ f ∷ l) h = ground (arith, lookup-drop_last_none q (f ∷ l))

  pub drop_last-Distinct : (l : List (K × V)) → Distinct l → Distinct (drop_last l)
  drop_last-Distinct [] h = tt
  drop_last-Distinct (e ∷ []) h = tt
  drop_last-Distinct (e ∷ f ∷ l) h =
      (lookup-drop_last_none e.0 (f ∷ l) h.0, drop_last-Distinct (f ∷ l) h.1)

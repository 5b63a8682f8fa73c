-- ===== src/Prelude/Outcome.antt =====
-- The outcome of fallible code: `Ok`, `Err`, a Rust panic (an index or a slice out of range), or,
-- for a loop that is modelled with fuel, that the fuel ran out.
use mathlib.Core.Path.{◌≡◌, refl}
use mathlib.Core.Bool.{Bool, true, false}

pub data Outcome {ℓ κ} (E : Type ℓ) (A : Type κ) : Type (ℓ ⊔ κ) where
  ok : A → Outcome E A
  err : E → Outcome E A
  panic : Outcome E A
  diverge : Outcome E A

infixl 5 ◌>>=◌
abbrev pub ◌>>=◌ {ℓ κ μ} :
    {E : Type ℓ} {A : Type κ} {B : Type μ} → Outcome E A → (A → Outcome E B) → Outcome E B
panic >>= next = panic
diverge >>= next = diverge
err x >>= next = err x
ok a >>= next = next a

-- The `?` of a statement that gives no value.
infixl 5 ◌>>◌
abbrev pub ◌>>◌ {ℓ μ} : {E : Type ℓ} {B : Type μ} → Outcome E (Unit {0}) → Outcome E B → Outcome E B
check >> rest = elim check [ ok u ↦ rest | err x ↦ err x | panic ↦ panic | diverge ↦ diverge ]

-- `if test { return Err(e) }`
abbrev pub reject_if {ℓ} : {E : Type ℓ} → Bool → E → Outcome E (Unit {0})
reject_if true e = err e
reject_if false e = ok tt

-- The code returns, with a value or with an error: it neither panics nor runs for ever.
abbrev pub Returns {ℓ κ} : {E : Type ℓ} {A : Type κ} → Outcome E A → Type 0
Returns (ok a) = Unit
Returns (err e) = Unit
Returns panic = ⊥
Returns diverge = ⊥

pub Returns->>= {ℓ κ μ} :
    {E : Type ℓ} {A : Type κ} {B : Type μ} (m : Outcome E A) (f : A → Outcome E B)
    → Returns m
    → ((a : A) → m ≡ ok a → Returns (f a))
    → Returns (m >>= f)
Returns->>= (ok a) f h k = k a refl
Returns->>= (err e) f h k = tt
Returns->>= panic f h k = h
Returns->>= diverge f h k = h

-- A chain that gives a value has a first part that gives one, and the rest gives the value for it.
pub >>=-eq-ok {ℓ κ μ} :
    {E : Type ℓ} {A : Type κ} {B : Type μ} (o : Outcome E A) (next : A → Outcome E B) {b : B}
    → (o >>= next) ≡ ok b
    → (a : A) × (o ≡ ok a) × (next a ≡ ok b)
>>=-eq-ok (ok a) next same = (a, refl, same)
>>=-eq-ok (err x) next same = absurd cc
>>=-eq-ok panic next same = absurd cc
>>=-eq-ok diverge next same = absurd cc

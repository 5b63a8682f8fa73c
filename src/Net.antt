-- ===== src/Net.antt =====
-- What the program uses of `std::net::IpAddr`: the two families with their octets, equality and the
-- derived order (every v4 address before every v6 address, then the octets from the left).
use Prim.Native.Nat.{Ordering, compare}
use native.Mathlib.Decide.{ℕ_discrete}
use netmon_polyglot.Prelude.{ℕ, ◌≡◌, refl, ap, Bool, true, false, List, [], ◌∷◌, arith}

pub data IpAddr : Type 0 where
  v4 : List ℕ → IpAddr
  v6 : List ℕ → IpAddr

unfoldable pub is_ipv4 : IpAddr → Bool
is_ipv4 (v4 octets) = true
is_ipv4 (v6 octets) = false

unfoldable pub IpAddr-discrete : Discrete IpAddr
IpAddr-discrete = hlevel ℕ_discrete

-- `Ordering::then`
unfoldable pub then_cmp : Ordering → Ordering → Ordering
then_cmp Ordering.lt o = Ordering.lt
then_cmp Ordering.eq o = o
then_cmp Ordering.gt o = Ordering.gt

unfoldable pub cmp_octets : List ℕ → List ℕ → Ordering
unfolding then_cmp
cmp_octets [] [] = Ordering.eq
cmp_octets [] (y ∷ ys) = Ordering.lt
cmp_octets (x ∷ xs) [] = Ordering.gt
cmp_octets (x ∷ xs) (y ∷ ys) = then_cmp (compare x y) (cmp_octets xs ys)

unfoldable pub cmp_addr : IpAddr → IpAddr → Ordering
unfolding cmp_octets
cmp_addr (v4 a) (v4 b) = cmp_octets a b
cmp_addr (v4 a) (v6 b) = Ordering.lt
cmp_addr (v6 a) (v4 b) = Ordering.gt
cmp_addr (v6 a) (v6 b) = cmp_octets a b

-- `Ordering::reverse`
unfoldable pub reverse_cmp : Ordering → Ordering
reverse_cmp Ordering.lt = Ordering.gt
reverse_cmp Ordering.eq = Ordering.eq
reverse_cmp Ordering.gt = Ordering.lt

-- Laws of a lawful comparison: equal only on equal values, and reversed when swapped.
pub record IsLawful {ℓ} {A : Type ℓ} (cmp : A → A → Ordering) : Type ℓ where
  pub eq_only : (a b : A) → cmp a b ≡ Ordering.eq → a ≡ b
  pub eq_self : (a : A) → cmp a a ≡ Ordering.eq
  pub swap : (a b : A) → cmp b a ≡ reverse_cmp (cmp a b)

compare-swap : (a b : ℕ) → compare b a ≡ reverse_cmp (compare a b)
unfolding reverse_cmp
compare-swap a b = ground arith

compare_self : (a : ℕ) → compare a a ≡ Ordering.eq
compare_self a = ground arith

pub compare-IsLawful : IsLawful compare
compare-IsLawful = record {
  eq_only = λ a b h. ground arith;
  eq_self = compare_self;
  swap = compare-swap;
}

pub reverse_cmp-then_cmp :
    (a b : Ordering) → reverse_cmp (then_cmp a b) ≡ then_cmp (reverse_cmp a) (reverse_cmp b)
unfolding reverse_cmp then_cmp
reverse_cmp-then_cmp Ordering.lt b = refl
reverse_cmp-then_cmp Ordering.eq b = refl
reverse_cmp-then_cmp Ordering.gt b = refl

cmp_octets-eq : (a b : List ℕ) → cmp_octets a b ≡ Ordering.eq → a ≡ b
unfolding cmp_octets
cmp_octets-eq [] [] h = refl
cmp_octets-eq [] (y ∷ ys) h = cc
cmp_octets-eq (x ∷ xs) [] h = cc
cmp_octets-eq (x ∷ xs) (y ∷ ys) h = ground (arith, cmp_octets-eq xs ys)

cmp_octets_self : (a : List ℕ) → cmp_octets a a ≡ Ordering.eq
unfolding cmp_octets
cmp_octets_self [] = refl
cmp_octets_self (x ∷ xs) = ground (arith, cmp_octets_self xs)

cmp_octets-swap : (a b : List ℕ) → cmp_octets b a ≡ reverse_cmp (cmp_octets a b)
unfolding cmp_octets reverse_cmp
cmp_octets-swap [] [] = refl
cmp_octets-swap [] (y ∷ ys) = refl
cmp_octets-swap (x ∷ xs) [] = refl
cmp_octets-swap (x ∷ xs) (y ∷ ys) = ground (arith, cmp_octets-swap xs ys)

cmp_addr-eq : (a b : IpAddr) → cmp_addr a b ≡ Ordering.eq → a ≡ b
unfolding cmp_addr
cmp_addr-eq (v4 a) (v4 b) h = ap v4 (cmp_octets-eq a b h)
cmp_addr-eq (v4 a) (v6 b) h = cc
cmp_addr-eq (v6 a) (v4 b) h = cc
cmp_addr-eq (v6 a) (v6 b) h = ap v6 (cmp_octets-eq a b h)

cmp_addr_self : (a : IpAddr) → cmp_addr a a ≡ Ordering.eq
unfolding cmp_addr
cmp_addr_self (v4 a) = cmp_octets_self a
cmp_addr_self (v6 a) = cmp_octets_self a

cmp_addr-swap : (a b : IpAddr) → cmp_addr b a ≡ reverse_cmp (cmp_addr a b)
unfolding cmp_addr reverse_cmp
cmp_addr-swap (v4 a) (v4 b) = cmp_octets-swap a b
cmp_addr-swap (v4 a) (v6 b) = refl
cmp_addr-swap (v6 a) (v4 b) = refl
cmp_addr-swap (v6 a) (v6 b) = cmp_octets-swap a b

pub cmp_addr-IsLawful : IsLawful cmp_addr
cmp_addr-IsLawful = record { eq_only = cmp_addr-eq; eq_self = cmp_addr_self; swap = cmp_addr-swap }

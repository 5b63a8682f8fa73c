-- ===== src/Packet/Dns/Names.antt =====
-- core-rs/core/src/packet/dns.rs: the loop of `read_name` ends, reads nothing out of range, and
-- yields a bounded name of printable characters.
use netmon_polyglot.Prelude.{
  ◌⊎◌, ℕ, zero, suc, ◌+◌, ◌-◌, ◌≡◌, refl, ◌≤◌, ◌<◌, some, List, [], ◌∷◌, ◌++◌, map, arith, length,
  drop, Option-cases, get_elem?, inl, inr, length-append, length-take, length-drop,
}
use netmon_polyglot.Prelude.Outcome.{panic, diverge, ok, err, Returns}
use netmon_polyglot.Packet.Bytes.{Parsed}
use netmon_polyglot.Packet.Dns.{
  Cursor, Round, more, done, round, literal, pointer, push_label, printable_lower, get_range,
  read_labels, name_fuel, read_name, cursor_at, max_name_len, max_pointer_jumps,
}

pub length-map : (f : ℕ → ℕ) (xs : List ℕ) → length (map f xs) ≡ length xs
length-map f [] = refl
length-map f (x ∷ xs) = omega (arith, length-map f xs)

pub length-push_label :
    (name label : List ℕ) → length name + length label ≤ length (push_label name label)
unfolding push_label
length-push_label [] label = omega (arith, length-map printable_lower label)
length-push_label (c ∷ name) label =
    omega (
      arith,
      length-append name (b'.' ∷ map printable_lower label),
      length-map printable_lower label,
    )

length-get_range :
    (msg : List ℕ) (a n : ℕ) {label : List ℕ} → get_range msg a n ≡ some label → length label ≡ n
unfolding get_range
length-get_range msg a n h = ground (arith, length-take n (drop a msg), length-drop a msg)

-- What is left of the two bounds.
abbrev pub budget : Cursor → ℕ
budget c = (max_name_len - length c.name) + (max_pointer_jumps - c.jumps)

literal-budget :
    (msg : List ℕ) (c : Cursor) (len : ℕ) (c' : Cursor)
    → 0 < len
    → literal msg c len ≡ ok (more c')
    → budget c' < budget c
unfolding literal
literal-budget msg c len c' positive h = elim (Option-cases (get_range msg (c.pos + 1) len)) [
  | inl missing ↦ ground arith
  | inr (label, found) ↦ ground (
    arith,
    length-push_label c.name label,
    length-get_range msg (c.pos + 1) len {label = label} found,
  )
]

pointer-budget :
    (msg : List ℕ) (c : Cursor) (b : ℕ) (c' : Cursor)
    → pointer msg c b ≡ ok (more c')
    → budget c' < budget c
unfolding pointer
pointer-budget msg c b c' h = ground arith

-- A round that goes on has used up some of the budget.
pub round-budget :
    (msg : List ℕ) (c c' : Cursor) → round msg c ≡ ok (more c') → budget c' < budget c
unfolding round
round-budget msg c c' h = elim (Option-cases (get_elem? msg c.pos)) [
  | inl missing ↦ ground arith
  | inr (b, found) ↦ ground (arith, literal-budget msg c b c', pointer-budget msg c b c')
]

round-Returns : (msg : List ℕ) (c : Cursor) → Returns (round msg c)
unfolding round literal pointer
round-Returns msg c = ground arith

-- With fuel above the budget the loop returns.
pub read_labels-Returns :
    (fuel : ℕ) (msg : List ℕ) (c : Cursor) → budget c < fuel → Returns (read_labels fuel msg c)
unfolding read_labels
read_labels-Returns zero msg c h = absurd (omega arith)
read_labels-Returns (suc fuel) msg c h =
    after (round msg c) refl (λ c' smaller. read_labels-Returns fuel msg c' smaller)
  where
    after :
        (o : Parsed Round)
        → round msg c ≡ o
        → ((c' : Cursor) → budget c' < fuel → Returns (read_labels fuel msg c'))
        → Returns (read_labels (suc fuel) msg c)
    after (ok (more c')) e ih = rw e (ih c' (omega (arith, round-budget msg c c' e)))
    after (ok (done name end)) e ih = rw e tt
    after (err x) e ih = rw e tt
    after panic e ih = absurd (rw e at (round-Returns msg c))
    after diverge e ih = absurd (rw e at (round-Returns msg c))

-- Reading a name ends on every message and from every place, without a panic: the compression
-- pointers cannot make it run for ever.
pub read_name-Returns : (msg : List ℕ) (start : ℕ) → Returns (read_name msg start)
unfolding read_name
read_name-Returns msg start = read_labels-Returns name_fuel msg (cursor_at start) (omega arith)

-- The characters of a name: graphic ASCII with no upper-case letter.
pub IsNameChar : ℕ → Type 0
IsNameChar c = (0x21 ≤ c) × (c ≤ 0x7e) × ((c < b'A') ⊎ (b'Z' < c))

abbrev pub All {ℓ κ} : {A : Type ℓ} → (A → Type κ) → List A → Type κ
All P [] = Unit
All P (x ∷ xs) = P x × All P xs

All-append {ℓ κ} :
    {A : Type ℓ} (P : A → Type κ) (xs ys : List A) → All P xs → All P ys → All P (xs ++ ys)
All-append P [] ys h k = k
All-append P (x ∷ xs) ys h k = (h.0, All-append P xs ys h.1 k)

printable_lower-IsNameChar : (b : ℕ) → IsNameChar (printable_lower b)
unfolding IsNameChar printable_lower
printable_lower-IsNameChar b = ground arith

All-printable : (xs : List ℕ) → All IsNameChar (map printable_lower xs)
All-printable [] = tt
All-printable (x ∷ xs) = (printable_lower-IsNameChar x, All-printable xs)

push_label-All :
    (name label : List ℕ) → All IsNameChar name → All IsNameChar (push_label name label)
unfolding push_label IsNameChar
push_label-All [] label h = All-printable label
push_label-All (c ∷ name) label h =
    All-append IsNameChar (c ∷ name) _ h
      ((omega arith, omega arith, omega arith), All-printable label)

-- The invariant of the loop.
pub record IsBounded (c : Cursor) : Type 0 where
  pub short : length c.name ≤ max_name_len
  pub printable : All IsNameChar c.name
  pub few_jumps : c.jumps ≤ max_pointer_jumps

literal-more :
    (msg : List ℕ) (c : Cursor) (len : ℕ) {c' : Cursor}
    → literal msg c len ≡ ok (more c')
    → (label : List ℕ) × (c' ≡ record c { name = push_label c.name label; pos = c.pos + (1 + len) })
      × (length (push_label c.name label) ≤ max_name_len)
unfolding literal
literal-more msg c len h = elim (Option-cases (get_range msg (c.pos + 1) len)) [
  | inl missing ↦ absurd (ground arith)
  | inr (label, found) ↦ (label, ground arith, ground arith)
]

literal-IsBounded :
    (msg : List ℕ) (c : Cursor) (len : ℕ) (c' : Cursor)
    → IsBounded c
    → literal msg c len ≡ ok (more c')
    → IsBounded c'
literal-IsBounded msg c len c' v h =
    let (label, e, short) = literal-more msg c len h in
    rw e (record {
      short = short;
      printable = push_label-All c.name label v.printable;
      few_jumps = v.few_jumps;
    })

pointer-IsBounded :
    (msg : List ℕ) (c : Cursor) (b : ℕ) (c' : Cursor)
    → IsBounded c
    → pointer msg c b ≡ ok (more c')
    → IsBounded c'
unfolding pointer
pointer-IsBounded msg c b c' v h = record {
  short = ground arith;
  printable = ground arith;
  few_jumps = ground arith;
}

round-IsBounded :
    (msg : List ℕ) (c c' : Cursor) → IsBounded c → round msg c ≡ ok (more c') → IsBounded c'
unfolding round
round-IsBounded msg c c' v h = elim (Option-cases (get_elem? msg c.pos)) [
  | inl missing ↦ absurd (ground arith)
  | inr (b, found) ↦ ground (arith, literal-IsBounded msg c b c' v, pointer-IsBounded msg c b c' v)
]

round_done :
    (msg : List ℕ) (c : Cursor) {name : List ℕ} {end : ℕ}
    → round msg c ≡ ok (done name end)
    → name ≡ c.name
unfolding round literal pointer
round_done msg c h = ground arith

read_labels-All :
    (fuel : ℕ) (msg : List ℕ) (c : Cursor) {name : List ℕ} {end : ℕ}
    → IsBounded c
    → read_labels fuel msg c ≡ ok (name, end)
    → (length name ≤ max_name_len) × All IsNameChar name
unfolding read_labels
read_labels-All zero msg c v h = absurd (ground arith)
read_labels-All (suc fuel) msg c {name} {end} v h =
    after (round msg c) refl (λ c' v' h'. read_labels-All fuel msg c' v' h')
  where
    after :
        (o : Parsed Round)
        → round msg c ≡ o
        → ((c' : Cursor)
            → IsBounded c'
            → read_labels fuel msg c' ≡ ok (name, end)
            → (length name ≤ max_name_len) × All IsNameChar name)
        → (length name ≤ max_name_len) × All IsNameChar name
    after (ok (more c')) e ih = ih c' (round-IsBounded msg c c' v e) (rw e at h)
    after (ok (done name' end')) e ih =
        let same : name ≡ c.name = ground (arith, round_done msg c {name = name'} {end = end'} e) in
        rw same (v.short, v.printable)
    after (err x) e ih = absurd (ground arith)
    after panic e ih = absurd (ground arith)
    after diverge e ih = absurd (ground arith)

-- A name that is read has at most 253 characters, each graphic ASCII and none an upper-case letter.
pub read_name-All :
    (msg : List ℕ) (start : ℕ) {name : List ℕ} {end : ℕ}
    → read_name msg start ≡ ok (name, end)
    → (length name ≤ max_name_len) × All IsNameChar name
unfolding read_name
read_name-All msg start {name} {end} h =
    read_labels-All name_fuel msg (cursor_at start) {name = name} {end = end}
      (record { short = omega arith; printable = tt; few_jumps = omega arith }) h

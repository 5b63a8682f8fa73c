-- ===== src/Synth/Names.antt =====
-- core-rs/core/src/synth.rs and packet/dns.rs: the name of a synthetic query is read back.
use netmon_polyglot.Packet.Dns
use netmon_polyglot.Packet.Dns.Names
use netmon_polyglot.Packet.Dns.{more, done}
use netmon_polyglot.Packet.Bytes.{word16}
use netmon_polyglot.Prelude.Outcome.{ok}
use netmon_polyglot.Prelude.{
  bit_and, ◌&&◌, ◌==◌, true, ◌<◌, ◌≤◌, ◌≡◌, ◌+◌, ◌++◌, suc, zero, none, some, get_elem?, drop,
  length, Bool, ◌∙◌, ◌*◌, length-append, take-append_length, refl, arith, ℕ, List, [], ◌∷◌,
}
use netmon_polyglot.Synth.Labels.{AreLabels, wire, pushed}
use mathlib.Core.List.{append_assoc}

kinds_below : ℕ → Bool
kinds_below zero = true
kinds_below (suc n) = (bit_and n 0xc0 == 0) && kinds_below n

kinds_below_sound : (n x : ℕ) → kinds_below n ≡ true → x < n → bit_and x 0xc0 ≡ 0
unfolding kinds_below
kinds_below_sound zero x h lt = absurd (omega arith)
kinds_below_sound (suc n) x h lt = ground (arith, kinds_below_sound n x)

all_kinds : kinds_below 64 ≡ true
unfolding kinds_below
all_kinds = refl

-- The length of a label is no pointer.
kind-literal : (n : ℕ) → n ≤ 63 → bit_and n 0xc0 ≡ 0
kind-literal n h = kinds_below_sound 64 n all_kinds (omega arith)

get_elem?-append_length :
    (pre : List ℕ) (x : ℕ) (rest : List ℕ) → get_elem? (pre ++ x ∷ rest) (length pre) ≡ some x
get_elem?-append_length [] x rest = refl
get_elem?-append_length (y ∷ pre) x rest = get_elem?-append_length pre x rest

drop_past :
    (pre : List ℕ) (x : ℕ) (rest : List ℕ) → drop (suc (length pre)) (pre ++ x ∷ rest) ≡ rest
drop_past [] x rest = refl
drop_past (y ∷ pre) x rest = drop_past pre x rest

get_range-append :
    (pre : List ℕ) (x : ℕ) (label rest : List ℕ)
    → Dns.get_range (pre ++ (x ∷ label ++ rest)) (length pre + 1) (length label) ≡ some label
unfolding Dns.get_range
get_range-append pre x label rest =
    let next : length pre + 1 ≡ suc (length pre) = omega arith in
    rw next (
      rw (drop_past pre x (label ++ rest)) (
        ground (
          arith,
          length-append pre (x ∷ label ++ rest),
          length-append label rest,
          take-append_length label rest,
        )))

round-label :
    (pre label rest name : List ℕ)
    → 0 < length label
    → length label ≤ 63
    → length (Dns.push_label name label) ≤ 253
    → Dns.round
        (pre ++ (length label ∷ label ++ rest))
        (record { name = name; pos = length pre; resume_at = none; jumps = 0 })
      ≡ ok (
          more (record {
            name = Dns.push_label name label;
            pos = length pre + (1 + length label);
            resume_at = none;
            jumps = 0;
          }))
unfolding Dns.round Dns.literal
round-label pre label rest name positive short room =
    rw (get_elem?-append_length pre (length label) (label ++ rest))
      (ground (arith, kind-literal (length label), get_range-append pre (length label) label rest))

round-end :
    (pre rest name : List ℕ)
    → Dns.round
        (pre ++ 0 ∷ rest)
        (record { name = name; pos = length pre; resume_at = none; jumps = 0 })
      ≡ ok (done name (length pre + 1))
unfolding Dns.round
round-end pre rest name = rw (get_elem?-append_length pre 0 rest) refl

longer : (name : List ℕ) (labels : List (List ℕ)) → length name ≤ length (pushed name labels)
longer name [] = omega arith
longer name (label ∷ labels) =
    omega (arith, longer (Dns.push_label name label) labels, Names.length-push_label name label)

-- The loop reads the labels from where they begin, and ends behind their last zero.
pub read_labels-wire :
    (labels : List (List ℕ)) (fuel : ℕ) (msg pre rest name : List ℕ)
    → msg ≡ pre ++ (wire labels ++ 0 ∷ rest)
    → AreLabels labels
    → length (pushed name labels) ≤ 253
    → length labels < fuel
    → Dns.read_labels fuel msg
        (record { name = name; pos = length pre; resume_at = none; jumps = 0 })
      ≡ ok (pushed name labels, length pre + (length (wire labels) + 1))
unfolding Dns.read_labels
read_labels-wire labels zero msg pre rest name same h room enough = absurd (omega arith)
read_labels-wire [] (suc fuel) msg pre rest name same h room enough =
    rw (same, round-end pre rest name) (ground arith)
read_labels-wire (label ∷ labels) (suc fuel) msg pre rest name same h room enough =
    let name' = Dns.push_label name label in
    let pre' = pre ++ length label ∷ label in
    let tail = wire labels ++ 0 ∷ rest in
    let split_up : msg ≡ pre ++ (length label ∷ label ++ tail) = same ∙ rw append_assoc refl in
    let joined_up : msg ≡ pre' ++ tail = split_up ∙ rw append_assoc refl in
    let behind : length pre' ≡ length pre + (1 + length label) =
      omega (arith, length-append pre (length label ∷ label)) in
    let short : length name' ≤ 253 = omega (arith, longer name' labels) in
    let one = round-label pre label tail name h.0 h.1 short in
    let others =
      read_labels-wire labels fuel msg pre' rest name' joined_up h.3 room (omega arith) in
    ground (arith, one, others, behind, split_up, length-append label (wire labels))

pub labels-le-pushed :
    (name : List ℕ) (labels : List (List ℕ))
    → AreLabels labels
    → length name + length labels ≤ length (pushed name labels)
labels-le-pushed name [] h = omega arith
labels-le-pushed name (label ∷ labels) h = omega (
  arith,
  labels-le-pushed (Dns.push_label name label) labels h.3,
  Names.length-push_label name label,
)

pub word16-append :
    (pre : List ℕ) (b c : ℕ) (rest : List ℕ)
    → word16 (pre ++ (b ∷ c ∷ rest)) (length pre) ≡ b * 256 + c
word16-append [] b c rest = refl
word16-append (y ∷ pre) b c rest =
    let next : suc (length pre) + 1 ≡ suc (length pre + 1) = omega arith in
    rw next (word16-append pre b c rest)

-- ===== src/Synth/Labels.antt =====
-- core-rs/core/src/synth.rs and packet/dns.rs: the labels of a query and the name they make.
use netmon_polyglot.Prelude.{
  length-append, ◌+◌, length, ap, ◌∙◌, arith, ◌≤◌, map, ◌++◌, ◌≡◌, ◌≢◌, ◌<◌, List, ℕ, ◌∷◌, refl, [],
}
use mathlib.Core.List.{append_assoc, map-append}
use netmon_polyglot.Packet.Dns
use netmon_polyglot.Packet.Dns.{Cursor, Round, more, done, DnsInfo, DnsQuestion}
use netmon_polyglot.Prelude.Outcome.{ok}
use netmon_polyglot.Rules.Entropy.{split}
use netmon_polyglot.Synth

-- The labels with a dot between two of them.
abbrev pub joined : List (List ℕ) → List ℕ
joined [] = []
joined (label ∷ []) = label
joined (label ∷ next ∷ labels) = label ++ 46 ∷ joined (next ∷ labels)

abbrev pub NoDot : List ℕ → Type 0
NoDot [] = Unit
NoDot (c ∷ label) = (c ≢ 46) × NoDot label

-- Labels of 1 to 63 bytes, with no dot inside.
abbrev pub AreLabels : List (List ℕ) → Type 0
AreLabels [] = Unit
AreLabels (label ∷ labels) =
    (0 < length label) × (length label ≤ 63) × NoDot label × AreLabels labels

-- Each label behind its length.
abbrev pub wire : List (List ℕ) → List ℕ
wire [] = []
wire (label ∷ labels) = length label ∷ label ++ wire labels

split_last : (label : List ℕ) → NoDot label → split 46 label ≡ label ∷ []
unfolding split
split_last [] h = refl
split_last (c ∷ label) h = ground (arith, split_last label h.1)

split_first :
    (label text : List ℕ) → NoDot label → split 46 (label ++ 46 ∷ text) ≡ label ∷ split 46 text
unfolding split
split_first [] text h = refl
split_first (c ∷ label) text h = ground (arith, split_first label text h.1)

pub split-joined :
    (label : List ℕ) (labels : List (List ℕ))
    → AreLabels (label ∷ labels)
    → split 46 (joined (label ∷ labels)) ≡ label ∷ labels
split-joined label [] h = split_last label h.2
split-joined label (next ∷ labels) h =
    split_first label (joined (next ∷ labels)) h.2 ∙ ap (◌∷◌ label) (split-joined next labels h.3)

pub label_bytes-wire :
    {E : Type 0} (labels : List (List ℕ))
    → AreLabels labels
    → Synth.label_bytes {E = E} labels ≡ ok (wire labels)
unfolding Synth.label_bytes
label_bytes-wire [] h = refl
label_bytes-wire {E} (label ∷ labels) h = ground (arith, label_bytes-wire {E = E} labels h.3)

-- The name that the parser makes of the labels behind a part that it has read.
abbrev pub pushed : List ℕ → List (List ℕ) → List ℕ
pushed name [] = name
pushed name (label ∷ labels) = pushed (Dns.push_label name label) labels

pushed_behind :
    (c : ℕ) (name label : List ℕ) (labels : List (List ℕ))
    → pushed (c ∷ name) (label ∷ labels)
      ≡ (c ∷ name) ++ 46 ∷ map Dns.printable_lower (joined (label ∷ labels))
unfolding Dns.push_label
pushed_behind c name label [] = refl
pushed_behind c name label (next ∷ labels) =
    pushed_behind c (name ++ 46 ∷ map Dns.printable_lower label) next labels
    ∙ rw (map-append, append_assoc) refl

pub pushed-joined :
    (label : List ℕ) (labels : List (List ℕ))
    → 0 < length label
    → pushed [] (label ∷ labels) ≡ map Dns.printable_lower (joined (label ∷ labels))
unfolding Dns.push_label
pushed-joined label [] h = refl
pushed-joined (c ∷ label) (next ∷ labels) h =
    pushed_behind (Dns.printable_lower c) (map Dns.printable_lower label) next labels
    ∙ rw map-append refl
pushed-joined [] (next ∷ labels) h = absurd (omega arith)

pub length-wire :
    (label : List ℕ) (labels : List (List ℕ))
    → length (wire (label ∷ labels)) ≡ length (joined (label ∷ labels)) + 1
length-wire label [] = omega (arith, length-append label [])
length-wire label (next ∷ labels) = omega (
  arith,
  length-wire next labels,
  length-append label (wire (next ∷ labels)),
  length-append label (46 ∷ joined (next ∷ labels)),
)

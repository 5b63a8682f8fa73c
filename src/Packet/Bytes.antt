-- ===== src/Packet/Bytes.antt =====
-- core-rs/core/src/packet/mod.rs: `need`, `be16`, `be32`, over slices whose indexing panics out of
-- range as Rust's does. A byte slice is a list of numbers.
use netmon_polyglot.Prelude.{
  ℕ, ◌+◌, ◌-◌, ◌*◌, ◌≤◌, ◌<◌, ◌≡◌, ◌||◌, none, some, List, arith, ltb, if◌then◌else◌, length,
  get_elem?, get_or, take, drop, get_elem?-get_or,
}
use netmon_polyglot.Prelude.Outcome.{Outcome, ok, err, panic, ◌>>=◌}
use netmon_polyglot.ParseError.{Layer, ParseError, truncated}

-- What a parser returns.
abbrev pub Parsed {ℓ} : Type ℓ → Type ℓ
Parsed A = Outcome ParseError A

-- `buf[i]`
unfoldable pub at : List ℕ → ℕ → Parsed ℕ
at buf i = elim (get_elem? buf i) [ none ↦ panic | some b ↦ ok b ]

-- `&buf[a..b]`
unfoldable pub slice : List ℕ → ℕ → ℕ → Parsed (List ℕ)
slice buf a b = if ltb b a || ltb (length buf) b then panic else ok (take (b - a) (drop a buf))

-- `&buf[a..]`
unfoldable pub slice_from : List ℕ → ℕ → Parsed (List ℕ)
slice_from buf a = if ltb (length buf) a then panic else ok (drop a buf)

unfoldable pub need : List ℕ → ℕ → Layer → Parsed (Unit {0})
need buf len l = if ltb (length buf) len then err (truncated l len (length buf)) else ok tt

unfoldable pub be16 : List ℕ → ℕ → Parsed ℕ
be16 buf i = do hi ← at buf i; lo ← at buf (i + 1); ok (hi * 256 + lo)

unfoldable pub be32 : List ℕ → ℕ → Parsed ℕ
be32 buf i = do
  b0 ← at buf i
  b1 ← at buf (i + 1)
  b2 ← at buf (i + 2)
  b3 ← at buf (i + 3)
  ok (((b0 * 256 + b1) * 256 + b2) * 256 + b3)

-- The byte at an index, 0 out of range, and the big-endian words there.
abbrev pub byte : List ℕ → ℕ → ℕ
byte buf i = get_or buf i 0

abbrev pub word16 : List ℕ → ℕ → ℕ
word16 buf i = byte buf i * 256 + byte buf (i + 1)

abbrev pub word32 : List ℕ → ℕ → ℕ
word32 buf i =
    ((byte buf i * 256 + byte buf (i + 1)) * 256 + byte buf (i + 2)) * 256 + byte buf (i + 3)

-- In range, an access is the byte.
pub at-byte : (buf : List ℕ) (i : ℕ) → i < length buf → at buf i ≡ ok (byte buf i)
unfolding at
at-byte buf i h = ground (arith, get_elem?-get_or buf i 0 h)

pub be16-word16 : (buf : List ℕ) (i : ℕ) → i + 1 < length buf → be16 buf i ≡ ok (word16 buf i)
unfolding be16
be16-word16 buf i h = rw (at-byte buf i (omega arith), at-byte buf (i + 1) (omega arith))

pub be32-word32 : (buf : List ℕ) (i : ℕ) → i + 3 < length buf → be32 buf i ≡ ok (word32 buf i)
unfolding be32
be32-word32 buf i h = rw (
  at-byte buf i (omega arith),
  at-byte buf (i + 1) (omega arith),
  at-byte buf (i + 2) (omega arith),
  at-byte buf (i + 3) (omega arith),
)

pub need_enough : (buf : List ℕ) (n : ℕ) (l : Layer) → n ≤ length buf → need buf n l ≡ ok tt
unfolding need
need_enough buf n l h = ground arith

pub need_short :
    (buf : List ℕ) (n : ℕ) (l : Layer)
    → length buf < n
    → need buf n l ≡ err (truncated l n (length buf))
unfolding need
need_short buf n l h = ground arith

pub slice_from-drop : (buf : List ℕ) (a : ℕ) → a ≤ length buf → slice_from buf a ≡ ok (drop a buf)
unfolding slice_from
slice_from-drop buf a h = ground arith

pub slice-take-drop :
    (buf : List ℕ) (a b : ℕ)
    → a ≤ b
    → b ≤ length buf
    → slice buf a b ≡ ok (take (b - a) (drop a buf))
unfolding slice
slice-take-drop buf a b h k = ground arith

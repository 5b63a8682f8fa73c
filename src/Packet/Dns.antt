-- ===== src/Packet/Dns.antt =====
-- core-rs/core/src/packet/dns.rs. A name is the list of its characters, all of them ASCII.
pub mod Names
use netmon_polyglot.Prelude.{
  ℕ, zero, suc, String, ◌+◌, ◌*◌, ◌/◌, Bool, true, false, not, ◌&&◌, Option, none, some, List, [],
  ◌∷◌, ◌++◌, map, ltb, leb, ◌==◌, if◌then◌else◌, length, drop, take, get_elem?, bit_and, bit_or,
}
use mathlib.Core.Option
use netmon_polyglot.Prelude.Outcome.{ok, err, diverge, reject_if, ◌>>=◌, ◌>>◌}
use netmon_polyglot.ParseError.{Layer, ParseError}
use netmon_polyglot.Packet.Bytes.{Parsed, need, at, be16}

abbrev pub port : ℕ
port = 53

abbrev pub header_len : ℕ
header_len = 12

abbrev pub max_name_len : ℕ
max_name_len = 253

abbrev pub max_pointer_jumps : ℕ
max_pointer_jumps = 16

abbrev pub label_kind_mask : ℕ
label_kind_mask = 0xc0

abbrev pub label_pointer : ℕ
label_pointer = 0xc0

abbrev pub label_literal : ℕ
label_literal = 0x00

abbrev pub qr_bit : ℕ
qr_bit = 0x80

pub record DnsQuestion : Type 0 where
  pub name : List ℕ
  pub qtype : ℕ

pub record DnsInfo : Type 0 where
  pub id : ℕ
  pub is_response : Bool
  pub opcode : ℕ
  pub rcode : ℕ
  pub question_count : ℕ
  pub answer_count : ℕ
  pub question : Option DnsQuestion

abbrev pub truncated : ℕ → ℕ → ParseError
truncated needed available = ParseError.truncated Layer.dns needed available

abbrev pub malformed : String → ParseError
malformed reason = ParseError.malformed Layer.dns reason

-- `u8::is_ascii_graphic`, `u8::to_ascii_lowercase`
unfoldable pub is_ascii_graphic : ℕ → Bool
is_ascii_graphic b = leb 0x21 b && leb b 0x7e

unfoldable pub to_ascii_lowercase : ℕ → ℕ
to_ascii_lowercase b = if leb b'A' b && leb b b'Z' then b + 32 else b

unfoldable pub printable_lower : ℕ → ℕ
unfolding is_ascii_graphic to_ascii_lowercase
printable_lower b = if is_ascii_graphic b then to_ascii_lowercase b else b'?'

-- `msg.get(a..a + len)`
unfoldable pub get_range : List ℕ → ℕ → ℕ → Option (List ℕ)
get_range msg a len = if ltb (length msg) (a + len) then none else some (take len (drop a msg))

-- `ok_or_else`
abbrev pub ok_or {ℓ} : {A : Type ℓ} → Option A → ParseError → Parsed A
ok_or none e = err e
ok_or (some a) e = ok a

-- The variables of the loop of `read_name`.
pub record Cursor : Type 0 where
  pub name : List ℕ
  pub pos : ℕ
  pub resume_at : Option ℕ
  pub jumps : ℕ

-- A round goes on, or breaks with the name and the position behind it.
pub data Round : Type 0 where
  more : Cursor → Round
  done : List ℕ → ℕ → Round

-- The name with a further label.
unfoldable pub push_label : List ℕ → List ℕ → List ℕ
unfolding printable_lower
push_label [] label = map printable_lower label
push_label (c ∷ name) label = (c ∷ name) ++ (b'.' ∷ map printable_lower label)

unfoldable pub literal : List ℕ → Cursor → ℕ → Parsed Round
unfolding push_label get_range
literal msg c len = do
  label ← ok_or (get_range msg (c.pos + 1) len) (truncated (c.pos + 1 + len) (length msg))
  let name = push_label c.name label
  reject_if (ltb max_name_len (length name)) (malformed "name longer than 253")
  ok (more (record c { name = name; pos = c.pos + (1 + len) }))

unfoldable pub pointer : List ℕ → Cursor → ℕ → Parsed Round
pointer msg c len_byte = do
  low ← ok_or (get_elem? msg (c.pos + 1)) (truncated (c.pos + 2) (length msg))
  let jumps = c.jumps + 1
  reject_if (ltb max_pointer_jumps jumps) (malformed "compression pointer loop")
  ok (
      more (record c {
        pos = bit_or (bit_and len_byte 0x3f * 256) low;
        resume_at = some (Option.get_or c.resume_at (c.pos + 2));
        jumps = jumps;
      }))

unfoldable pub round : List ℕ → Cursor → Parsed Round
unfolding literal pointer
round msg c = do
  len_byte ← ok_or (get_elem? msg c.pos) (truncated (c.pos + 1) (length msg))
  let kind = bit_and len_byte label_kind_mask
  (if kind == label_literal && len_byte == 0
      then ok (done c.name (Option.get_or c.resume_at (c.pos + 1)))
      else if kind == label_literal
      then literal msg c len_byte
      else if kind == label_pointer
      then pointer msg c len_byte
      else err (malformed "reserved label type"))

-- The loop of `read_name`, on fuel.
unfoldable pub read_labels : ℕ → List ℕ → Cursor → Parsed (List ℕ × ℕ)
read_labels zero msg c = diverge
read_labels (suc fuel) msg c = do
  r ← round msg c
  elim r [ more c' ↦ read_labels fuel msg c' | done name end ↦ ok (name, end) ]

-- A label makes the name longer, up to 253 characters, and a pointer counts a jump, up to 16: at
-- most 253 + 16 rounds go on.
abbrev pub name_fuel : ℕ
name_fuel = 270

-- The variables at the start of the loop.
abbrev pub cursor_at : ℕ → Cursor
cursor_at start = record { name = []; pos = start; resume_at = none; jumps = 0 }

unfoldable pub read_name : List ℕ → ℕ → Parsed (List ℕ × ℕ)
unfolding read_labels round
read_name msg start = read_labels name_fuel msg (cursor_at start)

unfoldable pub first_question : List ℕ → Parsed (Option DnsQuestion)
unfolding read_name
first_question msg = do
  (name, end) ← read_name msg header_len
  need msg (end + 2) Layer.dns
  qtype ← be16 msg end
  ok (some (record { name = name; qtype = qtype }))

unfoldable pub read_question : List ℕ → ℕ → Parsed (Option DnsQuestion)
unfolding first_question
read_question msg question_count = elim (question_count == 0) [
  | true ↦ ok none
  | false ↦ first_question msg
]

unfoldable pub parse : List ℕ → Parsed DnsInfo
unfolding read_question
parse msg = do
  need msg header_len Layer.dns
  question_count ← be16 msg 4
  question ← read_question msg question_count
  id ← be16 msg 0
  b2 ← at msg 2
  b3 ← at msg 3
  answer_count ← be16 msg 6
  ok (record {
    id = id;
    is_response = not (bit_and b2 qr_bit == 0);
    opcode = bit_and (b2 / 8) 0x0f;
    rcode = bit_and b3 0x0f;
    question_count = question_count;
    answer_count = answer_count;
    question = question;
  })

-- ===== src/Pcap.antt =====
-- core-rs/core/src/pcap.rs: the reader and the writer of capture files, over bytes in memory: a
-- reader holds the bytes that are left, of which a read gives as many as asked for or all that are
-- left, and a writer the bytes that were written. Such a stream fails only where it ends too early.
pub mod RoundTrip
pub mod Files
pub mod Progress
use netmon_polyglot.Prelude.Words.{u32_mod}
use netmon_polyglot.Prelude.Outcome.{reject_if, ◌>>=◌, ◌>>◌}
use netmon_polyglot.Prelude.Outcome.{ok, diverge, err, Outcome}
use netmon_polyglot.Prelude.{
  leb, ◌-◌, take, length, ltb, ◌==◌, drop, ◌/◌, ◌*◌, ◌+◌, Option, Bool, ◌++◌, ◌%◌, if◌then◌else◌, ℕ,
  List, ◌∷◌, false, true, some, none, suc, zero, [],
}
use netmon_polyglot.Packet.Bytes.{byte}
use netmon_polyglot.Packet.Header.{LinkType, from_raw, to_raw}

abbrev pub magic_micros : ℕ
magic_micros = 0xa1b2c3d4

abbrev pub magic_nanos : ℕ
magic_nanos = 0xa1b23c4d

abbrev pub global_header_len : ℕ
global_header_len = 24

abbrev pub record_header_len : ℕ
record_header_len = 16

abbrev pub version_major : ℕ
version_major = 2

abbrev pub version_minor : ℕ
version_minor = 4

abbrev pub max_record_len : ℕ
max_record_len = 262_144

abbrev pub micros_per_sec : ℕ
micros_per_sec = 1_000_000

abbrev pub nanos_per_micro : ℕ
nanos_per_micro = 1_000

pub data PcapError : Type 0 where
  io truncated_record : PcapError
  bad_magic unsupported_link_type record_too_large : ℕ → PcapError

pub record RecordHeader : Type 0 where
  pub ts_us : ℕ
  pub cap_len : ℕ
  pub wire_len : ℕ

pub record PcapReader : Type 0 where
  pub inner : List ℕ
  pub link : LinkType
  pub swapped : Bool
  pub nanos : Bool

-- `u32::from_le_bytes`
abbrev pub from_le_bytes : List ℕ → ℕ
from_le_bytes bytes =
    byte bytes 0 + 256 * byte bytes 1 + 65_536 * byte bytes 2 + 16_777_216 * byte bytes 3

-- `u32::swap_bytes`
abbrev pub swap_bytes : ℕ → ℕ
swap_bytes n =
    n % 256 * 16_777_216 + n / 256 % 256 * 65_536 + n / 65_536 % 256 * 256 + n / 16_777_216 % 256

-- `to_le_bytes` of a `u32` and of a `u16`.
abbrev pub to_le_bytes : ℕ → List ℕ
to_le_bytes n = n % 256 ∷ n / 256 % 256 ∷ n / 65_536 % 256 ∷ n / 16_777_216 % 256 ∷ []

abbrev pub to_le_bytes16 : ℕ → List ℕ
to_le_bytes16 n = n % 256 ∷ n / 256 % 256 ∷ []

-- The bytes of four from a place in a header.
unfoldable pub read_u32 : List ℕ → ℕ → Bool → ℕ
read_u32 header i swapped =
    if swapped then swap_bytes (from_le_bytes (drop i header)) else from_le_bytes (drop i header)

-- Whether the file is in the other byte order, and whether it counts nanoseconds.
unfoldable pub byte_order : ℕ → Outcome PcapError (Bool × Bool)
byte_order m =
    if m == magic_micros
    then ok (false, false)
    else if m == magic_nanos
    then ok (false, true)
    else if swap_bytes m == magic_micros
    then ok (true, false)
    else if swap_bytes m == magic_nanos
    then ok (true, true)
    else err (bad_magic m)

unfoldable pub link_of : ℕ → Outcome PcapError LinkType
link_of raw_link = elim (from_raw raw_link) [
  | none ↦ err (unsupported_link_type raw_link)
  | some link ↦ ok link
]

-- `Read::read_exact`: the bytes and the rest.
unfoldable pub read_exact : ℕ → List ℕ → PcapError → Outcome PcapError (List ℕ × List ℕ)
read_exact n inner e = if ltb (length inner) n then err e else ok (take n inner, drop n inner)

-- `PcapReader::new`
unfoldable pub open_reader : List ℕ → Outcome PcapError PcapReader
unfolding read_exact read_u32 byte_order link_of
open_reader inner = do
  (header, rest) ← read_exact global_header_len inner io
  (swapped, nanos) ← byte_order (read_u32 header 0 false)
  link ← link_of (read_u32 header 20 swapped)
  ok (record { inner = rest; link = link; swapped = swapped; nanos = nanos })

pub data ReadOutcome : Type 0 where
  full partial eof : ReadOutcome

-- The loop of `read_full_or_eof`, on fuel: the outcome, the bytes read and the rest.
unfoldable pub fill : ℕ → ℕ → List ℕ → List ℕ → Outcome PcapError (ReadOutcome × List ℕ × List ℕ)
fill zero len filled inner = diverge
fill (suc fuel) len filled inner = elim (ltb (length filled) len) [
  | false ↦ ok (full, filled, inner)
  | true ↦ elim (take (len - length filled) inner) [
    | [] ↦ ok (if length filled == 0 then eof else partial, filled, inner)
    | b ∷ bytes ↦ fill fuel len (filled ++ b ∷ bytes) (drop (len - length filled) inner)
  ]
]

-- A read gives all that is left or all that is missing.
unfoldable pub read_full_or_eof : ℕ → List ℕ → Outcome PcapError (ReadOutcome × List ℕ × List ℕ)
unfolding fill
read_full_or_eof len inner = fill 3 len [] inner

-- The record behind its header: its fields, and the bytes that are put in the buffer.
unfoldable pub read_body :
    PcapReader → List ℕ → List ℕ → Outcome PcapError (Option (RecordHeader × List ℕ) × PcapReader)
unfolding read_exact read_u32
read_body r header rest = do
  let sec = read_u32 header 0 r.swapped
  let frac = read_u32 header 4 r.swapped
  let cap_len = read_u32 header 8 r.swapped
  reject_if (ltb max_record_len cap_len) (record_too_large cap_len)
  (buf, left) ← read_exact cap_len rest truncated_record
  ok (
    some (
      record {
        ts_us = sec * micros_per_sec + (if r.nanos then frac / nanos_per_micro else frac);
        cap_len = cap_len;
        wire_len = read_u32 header 12 r.swapped;
      },
      buf,
    ),
    record r { inner = left },
  )

-- `None` at the end of the file.
unfoldable pub next_record :
    PcapReader → Outcome PcapError (Option (RecordHeader × List ℕ) × PcapReader)
unfolding read_full_or_eof read_body
next_record r = do
  (outcome, header, rest) ← read_full_or_eof record_header_len r.inner
  elim outcome [
    | full ↦ read_body r header rest
    | partial ↦ err truncated_record
    | eof ↦ ok (none, record r { inner = rest })
  ]

pub record PcapWriter : Type 0 where
  pub inner : List ℕ

pub data WriteError : Type 0 where
  record_too_large timestamp_past_2106 : WriteError

-- `PcapWriter::new`
unfoldable pub open_writer : List ℕ → LinkType → ℕ → PcapWriter
open_writer inner link snaplen = record {
  inner =
      inner
      ++ to_le_bytes magic_micros
      ++ to_le_bytes16 version_major
      ++ to_le_bytes16 version_minor
      ++ to_le_bytes 0
      ++ to_le_bytes 0
      ++ to_le_bytes snaplen
      ++ to_le_bytes (to_raw link);
}

unfoldable pub write_record : PcapWriter → ℕ → List ℕ → Outcome WriteError PcapWriter
write_record w ts_us bytes = do
  reject_if (leb u32_mod (length bytes)) WriteError.record_too_large
  reject_if (leb u32_mod (ts_us / micros_per_sec)) timestamp_past_2106
  ok (record {
    inner =
        w.inner
        ++ to_le_bytes (ts_us / micros_per_sec)
        ++ to_le_bytes (ts_us % micros_per_sec)
        ++ to_le_bytes (length bytes)
        ++ to_le_bytes (length bytes)
        ++ bytes;
  })

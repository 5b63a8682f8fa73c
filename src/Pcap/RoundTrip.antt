-- ===== src/Pcap/RoundTrip.antt =====
-- core-rs/core/src/pcap.rs: the reader reads back what the writer wrote.
use netmon_polyglot.Packet.Header.{from_raw, to_raw, LinkType, null, ethernet, raw}
use netmon_polyglot.Prelude.Outcome.{ok}
use netmon_polyglot.Prelude.Words.{u32_mod}
use netmon_polyglot.Packet.Header.{LinkType, from_raw, to_raw}
use netmon_polyglot.Prelude.{
  ap, leb, none, le→ltb, ◌+◌, ◌*◌, ◌∙◌, drop-append_length, ◌%◌, take-append_length, ◌≤◌,
  length-append, ◌/◌, take_all, length-drop, length-take, drop, take, ◌==◌, length, ltb, arith,
  if◌then◌else◌, ◌≡◌, ◌++◌, ◌<◌, ℕ, List, refl, false, some, [],
}
use netmon_polyglot.Pcap
use mathlib.Core.List.{append_assoc}
use netmon_polyglot.Pcap.{
  leb, diverge, Outcome, drop, take, length, ltb, ok, List, to_raw, LinkType, from_raw, ℕ,
  to_le_bytes, from_le_bytes,
}

pub from_le_bytes-to_le_bytes :
    (n : ℕ) (rest : List ℕ) → n < u32_mod → from_le_bytes (to_le_bytes n ++ rest) ≡ n
from_le_bytes-to_le_bytes n rest h = omega arith

from_raw-to_raw : (link : LinkType) → from_raw (to_raw link) ≡ some link
unfolding from_raw to_raw
from_raw-to_raw null = refl
from_raw-to_raw ethernet = refl
from_raw-to_raw raw = refl

to_raw_small : (link : LinkType) → to_raw link < u32_mod
unfolding to_raw
to_raw_small null = omega arith
to_raw_small ethernet = omega arith
to_raw_small raw = omega arith

-- A file starts with a header that the reader accepts: its link type, this byte order, microseconds,
-- and the records behind the header are left.
pub open_reader-open_writer :
    (link : LinkType) (snaplen : ℕ) (records : List ℕ)
    → Pcap.open_reader ((Pcap.open_writer [] link snaplen).inner ++ records)
      ≡ ok (record { inner = records; link = link; swapped = false; nanos = false })
unfolding Pcap.open_reader Pcap.open_writer Pcap.read_exact Pcap.read_u32 Pcap.byte_order
    Pcap.link_of
open_reader-open_writer link snaplen records = ground (
  arith,
  from_raw-to_raw link,
  from_le_bytes-to_le_bytes (to_raw link) records (to_raw_small link),
)

-- The loop that fills the header of a record ends on every stream: it is full with the first 16 bytes
-- if there are as many, else the file is at its end or broken off, depending on whether there is any
-- byte.
pub read_full_or_eof_lem :
    (inner : List ℕ)
    → Pcap.read_full_or_eof 16 inner ≡ (
        if ltb (length inner) 16
        then ok (if length inner == 0 then Pcap.eof else Pcap.partial, inner, [])
        else ok (Pcap.full, take 16 inner, drop 16 inner))
unfolding Pcap.read_full_or_eof Pcap.fill
read_full_or_eof_lem inner =
    ground (arith, length-take 16 inner, length-drop 16 inner, take_all 16 inner)

-- The bytes of a record, its header of 16 bytes first.
abbrev pub header_of : ℕ → ℕ → List ℕ
header_of ts_us len =
    to_le_bytes (ts_us / 1_000_000)
    ++ to_le_bytes (ts_us % 1_000_000)
    ++ to_le_bytes len
    ++ to_le_bytes len

-- What the reader gives for a record.
abbrev pub shown : ℕ → List ℕ → Pcap.RecordHeader × List ℕ
shown ts_us bytes =
    (record { ts_us = ts_us; cap_len = length bytes; wire_len = length bytes }, bytes)

-- A reader of the writer's byte order, with the bytes left.
abbrev pub reading : LinkType → List ℕ → Pcap.PcapReader
reading link inner = record { inner = inner; link = link; swapped = false; nanos = false }

read_exact-append :
    (bytes rest : List ℕ) (e : Pcap.PcapError)
    → Pcap.read_exact (length bytes) (bytes ++ rest) e ≡ ok (bytes, rest)
unfolding Pcap.read_exact
read_exact-append bytes rest e =
    ground (
      arith,
      length-append bytes rest,
      take-append_length bytes rest,
      drop-append_length bytes rest,
    )

read_u32_lem :
    (header rest : List ℕ) (i n : ℕ)
    → drop i header ≡ to_le_bytes n ++ rest
    → n < u32_mod
    → Pcap.read_u32 header i false ≡ n
unfolding Pcap.read_u32
read_u32_lem header rest i n same h = rw same (from_le_bytes-to_le_bytes n rest h)

read_body_values :
    (link : LinkType) (inner header : List ℕ) (ts_us : ℕ) (bytes rest : List ℕ)
    → Pcap.read_u32 header 0 false ≡ ts_us / 1_000_000
    → Pcap.read_u32 header 4 false ≡ ts_us % 1_000_000
    → Pcap.read_u32 header 8 false ≡ length bytes
    → Pcap.read_u32 header 12 false ≡ length bytes
    → length bytes ≤ Pcap.max_record_len
    → Pcap.read_body (reading link inner) header (bytes ++ rest)
      ≡ ok (some (shown ts_us bytes), reading link rest)
unfolding Pcap.read_body
read_body_values link inner header ts_us bytes rest sec frac cap wire fits =
    let whole : ts_us / 1_000_000 * 1_000_000 + ts_us % 1_000_000 ≡ ts_us = omega arith in
    let within : ltb Pcap.max_record_len (length bytes) ≡ false = le→ltb _ _ fits in
    rw (sec, frac, cap, wire, Pcap.read_body, within, read_exact-append bytes rest, whole) refl

read_body-header_of :
    (link : LinkType) (inner : List ℕ) (ts_us : ℕ) (bytes rest : List ℕ)
    → ts_us / 1_000_000 < u32_mod
    → length bytes ≤ Pcap.max_record_len
    → Pcap.read_body (reading link inner) (header_of ts_us (length bytes)) (bytes ++ rest)
      ≡ ok (some (shown ts_us bytes), reading link rest)
read_body-header_of link inner ts_us bytes rest h fits =
    let head = header_of ts_us (length bytes) in
    read_body_values link inner head ts_us bytes rest
      (read_u32_lem head _ 0 (ts_us / 1_000_000) refl h)
      (read_u32_lem head _ 4 (ts_us % 1_000_000) refl (omega arith))
      (read_u32_lem head _ 8 (length bytes) refl (omega arith))
      (read_u32_lem head [] 12 (length bytes) refl (omega arith)) fits

next_record_full :
    (r : Pcap.PcapReader) (header rest : List ℕ)
    → Pcap.read_full_or_eof 16 r.inner ≡ ok (Pcap.full, header, rest)
    → Pcap.next_record r ≡ Pcap.read_body r header rest
unfolding Pcap.next_record
next_record_full r header rest h = rw (h, Pcap.next_record) refl

pub next_record-header_of :
    (link : LinkType) (ts_us : ℕ) (bytes rest : List ℕ)
    → ts_us / 1_000_000 < u32_mod
    → length bytes ≤ Pcap.max_record_len
    → Pcap.next_record (reading link (header_of ts_us (length bytes) ++ bytes ++ rest))
      ≡ ok (some (shown ts_us bytes), reading link rest)
next_record-header_of link ts_us bytes rest h fits =
    let inner = header_of ts_us (length bytes) ++ bytes ++ rest in
    let filled : Pcap.read_full_or_eof 16 inner
        ≡ ok (Pcap.full, header_of ts_us (length bytes), bytes ++ rest) =
      read_full_or_eof_lem inner ∙ rw (le→ltb (length inner) 16 (omega arith)) refl in
    next_record_full (reading link inner) (header_of ts_us (length bytes)) (bytes ++ rest) filled
    ∙ read_body-header_of link inner ts_us bytes rest h fits

pub next_record_nil :
    (link : LinkType) → Pcap.next_record (reading link []) ≡ ok (none, reading link [])
unfolding Pcap.next_record Pcap.read_full_or_eof Pcap.fill
next_record_nil link = refl

append_five : (w a b c d y : List ℕ) → w ++ a ++ b ++ c ++ d ++ y ≡ w ++ (a ++ b ++ c ++ d) ++ y
append_five w a b c d y = simp append_assoc refl

pub write_record-header_of :
    (w : Pcap.PcapWriter) (ts_us : ℕ) (bytes : List ℕ)
    → ts_us / 1_000_000 < u32_mod
    → length bytes ≤ Pcap.max_record_len
    → Pcap.write_record w ts_us bytes
      ≡ ok (record { inner = w.inner ++ header_of ts_us (length bytes) ++ bytes })
unfolding Pcap.write_record
write_record-header_of w ts_us bytes h fits =
    let short : leb u32_mod (length bytes) ≡ false = ground arith in
    let early : leb u32_mod (ts_us / 1_000_000) ≡ false = ground arith in
    let joined =
      append_five w.inner (to_le_bytes (ts_us / 1_000_000)) (to_le_bytes (ts_us % 1_000_000))
        (to_le_bytes (length bytes)) (to_le_bytes (length bytes)) bytes in
    rw (short, early, Pcap.write_record) (ap (λ l. ok (record { inner = l })) joined)

-- ===== src/Pcap/Files.antt =====
-- core-rs/core/src/pcap.rs: a whole file, written and read back.
use netmon_polyglot.Prelude.Words.{u32_mod}
use netmon_polyglot.Pcap.{u32_mod, length, List, ℕ, LinkType}
use netmon_polyglot.Packet.Header.{LinkType}
use netmon_polyglot.Prelude.{
  length-append, arith, ap, ◌∙◌, ◌≤◌, ◌++◌, ◌<◌, ◌≡◌, length, ◌/◌, List, ℕ, ◌∷◌, refl, some, none,
  suc, zero, [],
}
use netmon_polyglot.Prelude.Outcome.{Outcome, ok, diverge, ◌>>=◌}
use netmon_polyglot.Pcap
use mathlib.Core.List.{append_assoc, append-nil}
use netmon_polyglot.Pcap.RoundTrip.{
  header_of, shown, reading, next_record_nil, next_record-header_of, write_record-header_of,
  open_reader-open_writer,
}

-- The records of a file, one after the other.
unfoldable pub write_all :
    Pcap.PcapWriter → List (ℕ × List ℕ) → Outcome Pcap.WriteError Pcap.PcapWriter
write_all w [] = ok w
write_all w (r ∷ records) = do w' ← Pcap.write_record w r.0 r.1; write_all w' records

-- All records that are left, with the number of calls as fuel.
unfoldable pub read_all :
    ℕ → Pcap.PcapReader → Outcome Pcap.PcapError (List (Pcap.RecordHeader × List ℕ))
read_all zero r = diverge
read_all (suc fuel) r = do
  (next, r') ← Pcap.next_record r
  elim next [ none ↦ ok [] | some one ↦ do others ← read_all fuel r'; ok (one ∷ others) ]

abbrev pub encoded : List (ℕ × List ℕ) → List ℕ
encoded [] = []
encoded (r ∷ records) = header_of r.0 (length r.1) ++ r.1 ++ encoded records

abbrev pub Fits : List (ℕ × List ℕ) → Type 0
Fits [] = Unit
Fits (r ∷ records) = (r.0 / 1_000_000 < u32_mod) × (length r.1 ≤ Pcap.max_record_len) × Fits records

abbrev pub all_shown : List (ℕ × List ℕ) → List (Pcap.RecordHeader × List ℕ)
all_shown [] = []
all_shown (r ∷ records) = shown r.0 r.1 ∷ all_shown records

pub read_all-encoded :
    (fuel : ℕ) (link : LinkType) (records : List (ℕ × List ℕ))
    → Fits records
    → length records < fuel
    → read_all fuel (reading link (encoded records)) ≡ ok (all_shown records)
unfolding read_all
read_all-encoded zero link records h enough = absurd (omega arith)
read_all-encoded (suc fuel) link [] h enough = rw (next_record_nil link) refl
read_all-encoded (suc fuel) link (r ∷ records) h enough =
    rw (next_record-header_of link r.0 r.1 (encoded records) h.0 h.1)
      (rw (read_all-encoded fuel link records h.2 (omega arith)) refl)

-- A record has bytes.
pub length-encoded : (records : List (ℕ × List ℕ)) → length records ≤ length (encoded records)
length-encoded [] = omega arith
length-encoded (r ∷ records) = omega (
  arith,
  length-encoded records,
  length-append (header_of r.0 (length r.1) ++ r.1) (encoded records),
  length-append (header_of r.0 (length r.1)) r.1,
)

append_four : (w a b c : List ℕ) → w ++ a ++ b ++ c ≡ w ++ (a ++ b ++ c)
append_four w a b c = simp append_assoc refl

write_all-encoded :
    (w : Pcap.PcapWriter) (records : List (ℕ × List ℕ))
    → Fits records
    → write_all w records ≡ ok (record { inner = w.inner ++ encoded records })
unfolding write_all
write_all-encoded w [] h = rw (append-nil w.inner) refl
write_all-encoded w (r ∷ records) h =
    let joined : w.inner ++ header_of r.0 (length r.1) ++ r.1 ++ encoded records
        ≡ w.inner ++ (header_of r.0 (length r.1) ++ r.1 ++ encoded records) =
      append_four w.inner (header_of r.0 (length r.1)) r.1 (encoded records) in
    let one = write_record-header_of w r.0 r.1 h.0 h.1 in
    rw one (
      write_all-encoded (record { inner = w.inner ++ header_of r.0 (length r.1) ++ r.1 }) records
        h.2
      ∙ ap (λ l. ok (record { inner = l })) joined)

-- A file of records of at most 262144 bytes, with times before the year 2106, can be written, and the
-- reader finds in it the link type and exactly these records, with their times and lengths, and then
-- its end.
pub read_all-write_all :
    (link : LinkType) (snaplen : ℕ) (records : List (ℕ × List ℕ))
    → Fits records
    → (w : Pcap.PcapWriter) × (write_all (Pcap.open_writer [] link snaplen) records ≡ ok w)
      × (Pcap.open_reader w.inner ≡ ok (reading link (encoded records)))
      × (read_all (suc (length records)) (reading link (encoded records)) ≡ ok (all_shown records))
read_all-write_all link snaplen records h = (
  record { inner = (Pcap.open_writer [] link snaplen).inner ++ encoded records },
  write_all-encoded (Pcap.open_writer [] link snaplen) records h,
  open_reader-open_writer link snaplen (encoded records),
  read_all-encoded (suc (length records)) link records h (omega arith),
)

-- ===== src/Pcap/Progress.antt =====
-- core-rs/core/src/pcap.rs: every read of a record ends, and uses up bytes of the file.
use netmon_polyglot.Prelude.{◌<◌, ◌≤◌, ◌≡◌, length, take, drop, length-drop, arith, ℕ, List, some}
use netmon_polyglot.Prelude.Outcome.{ok, Returns}
use netmon_polyglot.Pcap
use netmon_polyglot.Pcap.{PcapReader, PcapError, RecordHeader, ReadOutcome}
use netmon_polyglot.Pcap.RoundTrip.{read_full_or_eof_lem}

read_body-Returns : (r : PcapReader) (header rest : List ℕ) → Returns (Pcap.read_body r header rest)
unfolding Pcap.read_body Pcap.read_exact
read_body-Returns r header rest = ground arith

-- A read gives a record, the end of the file or an error, on every stream.
pub next_record-Returns : (r : PcapReader) → Returns (Pcap.next_record r)
unfolding Pcap.next_record
next_record-Returns r =
    ground
      (arith, read_full_or_eof_lem r.inner, read_body-Returns r (take 16 r.inner) (drop 16 r.inner))

read_body-shrinks :
    (r : PcapReader) (header rest : List ℕ) {x : RecordHeader × List ℕ} {r' : PcapReader}
    → Pcap.read_body r header rest ≡ ok (some x, r')
    → length r'.inner ≤ length rest
unfolding Pcap.read_body Pcap.read_exact
read_body-shrinks r header rest h =
    ground (arith, length-drop (Pcap.read_u32 header 8 r.swapped) rest)

-- A record takes bytes.
pub next_record-shrinks :
    (r : PcapReader) {x : RecordHeader × List ℕ} {r' : PcapReader}
    → Pcap.next_record r ≡ ok (some x, r')
    → length r'.inner < length r.inner
unfolding Pcap.next_record
next_record-shrinks r {x} {r'} h = ground (
  arith,
  read_full_or_eof_lem r.inner,
  length-drop 16 r.inner,
  read_body-shrinks r (take 16 r.inner) (drop 16 r.inner) {x = x} {r' = r'},
)

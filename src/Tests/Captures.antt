-- ===== src/Tests/Captures.antt =====
-- The theorems on capture files at a file of two records.
use netmon_polyglot.Prelude.Outcome.{ok}
use netmon_polyglot.Prelude.{arith, ℕ, ◌≡◌, List, ◌∷◌, []}
use netmon_polyglot.Packet.Header.{LinkType}
use netmon_polyglot.Pcap
use netmon_polyglot.Pcap.RoundTrip
use netmon_polyglot.Pcap.Files

abbrev two_records : List (ℕ × List ℕ)
two_records = (1_700_000_000_123_456, 1 ∷ 2 ∷ 3 ∷ []) ∷ (1_700_000_001_000_000, []) ∷ []

read_all-write_all_example :
    (w : Pcap.PcapWriter) × (Files.write_all
        (Pcap.open_writer [] LinkType.ethernet 65_535)
        two_records
      ≡ ok w)
    × (Pcap.open_reader w.inner
        ≡ ok (RoundTrip.reading LinkType.ethernet (Files.encoded two_records)))
    × (Files.read_all 3 (RoundTrip.reading LinkType.ethernet (Files.encoded two_records))
        ≡ ok (Files.all_shown two_records))
read_all-write_all_example =
    Files.read_all-write_all LinkType.ethernet 65_535 two_records
      (omega arith, omega arith, (omega arith, omega arith, tt))

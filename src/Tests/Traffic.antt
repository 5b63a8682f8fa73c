-- ===== src/Tests/Traffic.antt =====
-- Synthetic frames, among them a SYN from port 40000 to port 443 and a query for example.com, and the
-- theorems on the traffic.
use netmon_polyglot.Packet.Dns
use netmon_polyglot.Cli.Main.{CliError, put_record}
use netmon_polyglot.Packet.{Transport}
use netmon_polyglot.Packet
use netmon_polyglot.Pcap.{PcapWriter}
use netmon_polyglot.Prelude.Outcome.{ok, ◌>>=◌}
use netmon_polyglot.Prelude.{false, some, ◌∷◌, [], ◌≡◌, refl, length, arith, ℕ, List}
use netmon_polyglot.Synth
use netmon_polyglot.Synth.{Rng}
use netmon_polyglot.Synth.Generated
use netmon_polyglot.Synth.Hosts
use netmon_polyglot.Synth.Queries
use netmon_polyglot.Synth.Reading
use netmon_polyglot.Synth.Scenarios.{Scenario}
use netmon_polyglot.Synth.Traffic

abbrev from_port : Synth.SocketAddr
from_port = record { ip = 10 ∷ 0 ∷ 0 ∷ 1 ∷ []; port = 40_000 }

abbrev to_port : Synth.SocketAddr
to_port = record { ip = 10 ∷ 0 ∷ 0 ∷ 2 ∷ []; port = 443 }

segment_len :
    (Synth.tcp_segment {E = CliError} from_port to_port 2 0 >>= λ bytes. ok (length bytes)) ≡ ok 54
unfolding Synth.tcp_segment
segment_len = refl

-- The second number of the generator of random numbers with the seed 7.
second_number : (Synth.next_u64 (Synth.next_u64 (Synth.new_rng 7)).0).1 ≡ 8_070_950_887_952_051_652
unfolding Synth.next_u64 Synth.new_rng
second_number = refl

-- The lengths of the frames, the last one first.
lengths : List ℕ → ℕ → List ℕ → List ℕ
lengths all ts frame = length frame ∷ all

-- A port scan starts with a probe.
scan_lengths :
    Traffic.generate {E = CliError}
      (λ all ts frame. ok (lengths all ts frame))
      Scenario.port_scan
      3
      7
      []
    ≡ ok (1_416 ∷ 179 ∷ 54 ∷ [])
unfolding Traffic.generate lengths Synth.tcp_segment Synth.below Synth.new_rng
scan_lengths = refl

tcp_segment-ReadsAs_example :
    Reading.ReadsAs {E = CliError} (Synth.tcp_segment from_port to_port 2 0) 54 (
      Reading.packet_of 6
        (10 ∷ 0 ∷ 0 ∷ 1 ∷ [])
        (10 ∷ 0 ∷ 0 ∷ 2 ∷ [])
        (Transport.tcp (record {
          src_port = 40_000;
          dst_port = 443;
          seq = 0;
          ack = 0;
          flags = 2;
          window = 64_240;
        }))
        Packet.App.none)
tcp_segment-ReadsAs_example =
    Reading.tcp_segment-ReadsAs 10 0 0 1 10 0 0 2 {E = CliError} 40_000 443 2 0 (omega arith)
      (omega arith) (omega arith)

-- The query of port 49152 for the address of example.com.
dns_query-ReadsAs_example :
    Reading.ReadsAs {E = CliError}
      (Synth.dns_query
        (record { ip = 10 ∷ 0 ∷ 0 ∷ 10 ∷ []; port = 49_152 })
        Hosts.resolver
        5
        Hosts.example_com
        1)
      71
      (Reading.packet_of 17
        (10 ∷ 0 ∷ 0 ∷ 10 ∷ [])
        (10 ∷ 0 ∷ 0 ∷ 1 ∷ [])
        (Transport.udp (record { src_port = 49_152; dst_port = 53; len = 37 }))
        (Packet.App.dns (record {
          id = 5;
          is_response = false;
          opcode = 0;
          rcode = 0;
          question_count = 1;
          answer_count = 0;
          question = some (record { name = Hosts.example_com; qtype = 1 });
        })))
unfolding Dns.printable_lower
dns_query-ReadsAs_example =
    Queries.dns_query-ReadsAs 5 1 (101 ∷ 120 ∷ 97 ∷ 109 ∷ 112 ∷ 108 ∷ 101 ∷ [])
      ((99 ∷ 111 ∷ 109 ∷ []) ∷ []) (omega arith) (omega arith) {E = CliError} 10 0 0 10 10 0 0 1
      49_152 (omega arith) (omega arith) (omega arith)

generate-feeds_example :
    (records : List (ℕ × List ℕ)) × (length records ≡ 3)
    × Generated.AreTraffic Hosts.start_ts_us records
    × ((s : PcapWriter)
        → Traffic.generate put_record Scenario.flood 3 7 s ≡ Generated.feed put_record s records)
generate-feeds_example = Generated.generate-feeds put_record Scenario.flood 3 7 (omega arith)

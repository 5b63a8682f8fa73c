-- ===== src/Synth/Captures.antt =====
-- core-rs/core/src/synth.rs and pcap.rs: generated traffic that is written to a capture file.
use netmon_polyglot.Packet.Header.{LinkType}
use netmon_polyglot.Pcap
use netmon_polyglot.Pcap.{PcapWriter}
use netmon_polyglot.Pcap.Files
use netmon_polyglot.Pcap.Files.{Fits, encoded, read_all-write_all}
use netmon_polyglot.Pcap.RoundTrip.{reading}
use netmon_polyglot.Prelude.{◌+◌, ◌*◌, ◌<◌, ◌≤◌, ◌≡◌, ◌∙◌, length, arith, ℕ, List, [], ◌∷◌}
use netmon_polyglot.Prelude.Outcome.{Outcome, ok, >>=-eq-ok}
use netmon_polyglot.Synth.Generated.{AreTraffic, feed, generate-feeds}
use netmon_polyglot.Synth.Hosts.{start_ts_us}
use netmon_polyglot.Synth.Scenarios.{Scenario}
use netmon_polyglot.Synth.Traffic

-- Up to the year 2106 the times fit, and the frames are short enough.
AreTraffic-Fits :
    (now : ℕ) (records : List (ℕ × List ℕ))
    → AreTraffic now records
    → now + 2_000 * length records < 4_294_967_296_000_000
    → Fits records
AreTraffic-Fits now [] traffic early = tt
AreTraffic-Fits now (r ∷ records) traffic early = (
  omega arith,
  omega (arith, traffic.2.short),
  AreTraffic-Fits r.0 records traffic.3 (omega arith),
)

module _ {E : Type 0} (sink : PcapWriter → ℕ → List ℕ → Outcome E PcapWriter)
    (follows : (w w' : PcapWriter) (ts_us : ℕ) (bytes : List ℕ)
      → Pcap.write_record w ts_us bytes ≡ ok w'
      → sink w ts_us bytes ≡ ok w') where
  feed-write_all :
      (w w' : PcapWriter) (records : List (ℕ × List ℕ))
      → Files.write_all w records ≡ ok w'
      → feed sink w records ≡ ok w'
  unfolding Files.write_all feed
  feed-write_all w w' [] done_all = ground arith
  feed-write_all w w' (r ∷ records) done_all =
      let (next, one, others) = >>=-eq-ok (Pcap.write_record w r.0 r.1) _ done_all in
      rw (follows w next r.0 r.1 one) (feed-write_all next w' records others)

  -- The generator writes a capture of as many records as it was asked for, if the sink does what
  -- `write_record` does where that succeeds.
  pub generate-encoded :
      (scenario : Scenario) (packets seed : ℕ)
      → packets ≤ 1_000_000_000_000
      → (records : List (ℕ × List ℕ)) × (w : PcapWriter) × (length records ≡ packets)
        × AreTraffic start_ts_us records
        × Fits records
        × (Traffic.generate sink scenario packets seed
              (Pcap.open_writer [] LinkType.ethernet 65_535)
            ≡ ok w)
        × (Pcap.open_reader w.inner ≡ ok (reading LinkType.ethernet (encoded records)))
  generate-encoded scenario packets seed few =
      let (records, all, traffic, feeds) =
        generate-feeds sink scenario packets seed (omega arith) in
      let fits = AreTraffic-Fits start_ts_us records traffic (omega arith) in
      let (w, wrote, opens, _) = read_all-write_all LinkType.ethernet 65_535 records fits in
      let fresh = Pcap.open_writer [] LinkType.ethernet 65_535 in
      (records, w, all, traffic, fits, feeds fresh ∙ feed-write_all fresh w records wrote, opens)

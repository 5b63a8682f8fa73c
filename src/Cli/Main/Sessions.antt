-- ===== src/Cli/Main/Sessions.antt =====
-- core-rs/cli/src/main.rs: a file that `gen` writes is replayed in full.
use netmon_polyglot.Synth.Captures.{generate-encoded}
use netmon_polyglot.FileSystem.{FileSystem}
use netmon_polyglot.Cli.Main.Counting.{ipv4-run}
use netmon_polyglot.Cli.Main.Replaying.{replay_records-run}
use netmon_polyglot.Cli.{Command, RulesChoice}
use netmon_polyglot.Prelude.Words.{u64_mod}
use netmon_polyglot.Engine.Accounting.{IsAccounted}
use netmon_polyglot.Engine.Snapshot
use netmon_polyglot.Engine.Run
use netmon_polyglot.Engine
use netmon_polyglot.Cli.Main
use netmon_polyglot.Engine.{Engine}
use netmon_polyglot.Rules.Spec.{Yaml}
use netmon_polyglot.Alert.{Text}
use netmon_polyglot.Net.{IpAddr-discrete}
use netmon_polyglot.Rules.Compiled.{CompiledRule, SourceState}
use netmon_polyglot.Flow.{FlowKey-discrete, FlowStats}
use netmon_polyglot.Lru.{LruCache}
use netmon_polyglot.Float.{Float}
use netmon_polyglot.Cli.Main.{
  frame_of, RulesChoice, Engine, CompiledRule, Option, Yaml, Text, IpAddr-discrete, SourceState,
  FlowKey-discrete, FlowStats, LruCache, Float, put_record,
}
use netmon_polyglot.Packet.Header.{LinkType}
use netmon_polyglot.Pcap
use netmon_polyglot.Pcap.{PcapWriter}
use netmon_polyglot.Pcap.Files.{Fits, encoded, all_shown, read_all-encoded, length-encoded}
use netmon_polyglot.Pcap.RoundTrip.{reading}
use netmon_polyglot.Prelude.{
  none, ap, map, Option, refl, some, suc, ◌+◌, ◌<◌, ◌≤◌, ◌≡◌, length, arith, ℕ, List, [], ◌∷◌,
}
use netmon_polyglot.Prelude.Outcome.{ok}
use netmon_polyglot.Synth.Generated.{AreTraffic}
use netmon_polyglot.Synth.Hosts.{start_ts_us}
use netmon_polyglot.Synth.Scenarios.{Scenario}

follows :
    (w w' : PcapWriter) (ts_us : ℕ) (bytes : List ℕ)
    → Pcap.write_record w ts_us bytes ≡ ok w'
    → put_record w ts_us bytes ≡ ok w'
unfolding put_record
follows w w' ts_us bytes wrote = rw wrote refl

-- Every packet was counted, as IPv4, and none in error.
pub record CountsAll (packets : ℕ) (c : Engine.Counters) : Type 0 where
  pub all : c.packets ≡ packets
  pub ipv4 : c.ipv4 ≡ packets
  pub no_errors : c.parse_errors ≡ 0
  pub no_others : c.non_ip + c.ipv6 ≡ 0
  pub accounted : IsAccounted c

IsAccounted-CountsAll :
    (packets : ℕ) (c : Engine.Counters)
    → IsAccounted c
    → c.packets ≡ packets
    → c.ipv4 ≡ packets
    → CountsAll packets c
IsAccounted-CountsAll packets c v all ipv4 = record {
  all = all;
  ipv4 = ipv4;
  no_errors = omega (arith, v.frames);
  no_others = omega (arith, v.frames);
  accounted = v;
}

module _ (f : Float) (flow_lru : LruCache FlowStats FlowKey-discrete)
    (source_lru : LruCache SourceState IpAddr-discrete) (fs : FileSystem)
    (from_str : Text → Yaml f.F64) (default_rules_yaml : Text) where
  open fs use {Disk, create, write, contents, contents-write}

  -- The engine that `replay` starts with.
  abbrev started : ℕ → Option (List (CompiledRule f source_lru)) → Engine f flow_lru source_lru
  started top loaded =
      Engine.set_rules f flow_lru source_lru
        (Engine.new f flow_lru source_lru
          (record (Engine.default_config) { link = LinkType.ethernet; top_n = top }))
        loaded

  run_counts :
      (top : ℕ) (loaded : Option (List (CompiledRule f source_lru))) (records : List (ℕ × List ℕ))
      → AreTraffic start_ts_us records
      → length records < u64_mod
      → let c =
          (Run.run f flow_lru source_lru
            (started top loaded)
            (map frame_of (all_shown records))).counters in
        IsAccounted c × (c.packets ≡ length records) × (c.ipv4 ≡ length records)
  unfolding Engine.set_rules Engine.new
  run_counts top loaded records traffic room =
      let frames = map frame_of (all_shown records) in
      let sized : length frames ≡ length records = length-frames records in
      let (accounted, all) =
        Run.after-IsAccounted f flow_lru source_lru (started top loaded) frames
          (record {
            frames = refl;
            transports = omega arith;
            fragmented = omega arith;
            queries = omega arith;
          })
          (omega (arith, sized)) in
      let ipv4 =
        ipv4-run f flow_lru source_lru start_ts_us records (started top loaded) traffic refl
          (omega arith) in
      (accounted, omega (arith, all, sized), omega (arith, ipv4))
    where
      length-frames :
          (records : List (ℕ × List ℕ)) → length (map frame_of (all_shown records)) ≡ length records
      length-frames [] = refl
      length-frames (r ∷ records) = ap suc (length-frames records)

  replay-CountsAll :
      (disk : Disk) (path : Text) (top : ℕ) (choice : RulesChoice)
      (loaded : Option (List (CompiledRule f source_lru))) (records : List (ℕ × List ℕ))
      (bytes : List ℕ)
      → contents disk path ≡ some bytes
      → Pcap.open_reader bytes ≡ ok (reading LinkType.ethernet (encoded records))
      → Main.load_rules f flow_lru source_lru fs from_str default_rules_yaml disk choice ≡ ok loaded
      → AreTraffic start_ts_us records
      → Fits records
      → length records < u64_mod
      → (report : Main.Report f flow_lru source_lru) × (Main.replay f flow_lru source_lru fs
            from_str default_rules_yaml disk path top choice
          ≡ ok report)
        × (report.link ≡ LinkType.ethernet)
        × CountsAll (length records) report.snapshot.counters
  unfolding Main.replay Main.or_io Main.map_err Snapshot.snapshot Engine.set_rules Engine.new
  replay-CountsAll disk path top choice loaded records bytes holds opens loads traffic fits room =
      let fuel = suc (length (encoded records)) in
      let reads =
        read_all-encoded fuel LinkType.ethernet records fits
          (omega (arith, length-encoded records)) in
      let (last, all, loops, runs) =
        replay_records-run f flow_lru source_lru fuel (reading LinkType.ethernet (encoded records))
          (started top loaded) [] (all_shown records) refl reads in
      let (accounted, packets, ipv4) = run_counts top loaded records traffic room in
      let same : last.counters
          ≡ (Run.run f flow_lru source_lru (started top loaded)
              (map frame_of (all_shown records))).counters =
        ap (λ (e : Engine f flow_lru source_lru). e.counters) runs in
      (
        record {
          link = LinkType.ethernet;
          snapshot = Snapshot.snapshot f flow_lru source_lru last;
          rule_count = Main.rule_count f flow_lru source_lru last.rules;
          alerts = all;
        },
        rw (holds, Main.replay)
            (rw (opens, Main.replay) (rw (loads, Main.replay) (rw (loops, Main.replay) refl))),
        refl,
        rw same (IsAccounted-CountsAll (length records) _ accounted packets ipv4),
      )

  -- Where the file can be created and written, and the rules load from any disk, `gen` of up to 10 ^ 12
  -- packets succeeds, and `replay` of the file that it wrote succeeds: its link type is Ethernet, as many
  -- packets are counted as were asked for, all as IPv4, and none is a parse error.
  pub replay-gen :
      (disk created : Disk) (scenario : Scenario) (out : Text) (packets seed top : ℕ)
      (choice : RulesChoice) (loaded : Option (List (CompiledRule f source_lru)))
      → create disk out ≡ some created
      → ((bytes : List ℕ) → (disk' : Disk) × (write created out bytes ≡ some disk'))
      → ((disk' : Disk)
          → Main.load_rules f flow_lru source_lru fs from_str default_rules_yaml disk' choice
            ≡ ok loaded)
      → packets ≤ 1_000_000_000_000
      → let run = Main.run_command f flow_lru source_lru fs from_str default_rules_yaml in
        (disk' : Disk) × (report : Main.Report f flow_lru source_lru) × (run disk
            (Command.gen scenario out packets seed)
          ≡ ok (disk', none))
        × (run disk' (Command.replay out top choice) ≡ ok (disk', some report))
        × (report.link ≡ LinkType.ethernet)
        × CountsAll packets report.snapshot.counters
  unfolding Main.run_command Main.generate Main.or_io
  replay-gen disk created scenario out packets seed top choice loaded creates writes loads few =
      let (records, w, sized, traffic, fits, generated, opens) =
        generate-encoded put_record follows scenario packets seed few in
      let (disk', saved) = writes w.inner in
      let (report, replays, link, counts) =
        replay-CountsAll disk' out top choice loaded records w.inner
          (contents-write disk created disk' out w.inner creates saved) opens (loads disk') traffic
          fits (omega arith) in
      (
        disk',
        report,
        rw (creates, Main.generate)
            (rw (generated, Main.generate) (rw (saved, Main.generate) refl)),
        rw (replays, Main.run_command) refl,
        link,
        rw sized at counts,
      )

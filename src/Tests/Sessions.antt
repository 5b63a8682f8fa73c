-- ===== src/Tests/Sessions.antt =====
-- The theorems on the commands at a disk with one file, whatever its name: two packets of mixed traffic,
-- and a capture of one SYN.
use netmon_polyglot.Prelude.Int.{negsuc}
use netmon_polyglot.Prelude.{length, true, ◌++◌}
use netmon_polyglot.Synth.Hosts.{start_ts_us}
use netmon_polyglot.Synth.Generated.{AreTraffic}
use netmon_polyglot.Pcap
use netmon_polyglot.Ffi.Types
use netmon_polyglot.Ffi.Api.Demo
use netmon_polyglot.FileSystem.{FileSystem}
use netmon_polyglot.Alert.{Text}
use netmon_polyglot.Cli.{Command, RulesChoice}
use netmon_polyglot.Cli.Main
use netmon_polyglot.Cli.Main.Replaying
use netmon_polyglot.Cli.Main.Returning
use netmon_polyglot.Cli.Main.Sessions
use netmon_polyglot.Cli.Main.Sessions.{CountsAll}
use netmon_polyglot.Engine
use netmon_polyglot.Engine.{Engine}
use netmon_polyglot.Packet.Header.{LinkType}
use netmon_polyglot.Pcap.Files
use netmon_polyglot.Pcap.RoundTrip.{reading}
use netmon_polyglot.Prelude.{◌∷◌, [], ◌≡◌, refl, arith, ℕ, List, Option, some, none}
use netmon_polyglot.Prelude.Outcome.{ok, Returns, Outcome}
use netmon_polyglot.Rules.Spec
use netmon_polyglot.Rules.Spec.{Yaml}
use netmon_polyglot.Synth.Scenarios.{Scenario}
use netmon_polyglot.Tests.Data.{wholes, flow_cache, source_cache, ethernet_frame}

one_file_lem :
    (d d1 d2 : List ℕ) (path : Text) (bytes : List ℕ)
    → ◌≡◌ {A = Option (List ℕ)} (some []) (some d1)
    → some bytes ≡ some d2
    → some d2 ≡ some bytes
one_file_lem d d1 d2 path bytes created written = cc

abbrev one_file : FileSystem
one_file = record {
  Disk = List ℕ;
  create = λ d path. some [];
  write = λ d path bytes. some bytes;
  contents = λ d path. some d;
  read_to_string = λ d path. none;
  contents-write = one_file_lem;
}

abbrev no_yaml : Text → Yaml ℕ
no_yaml text = Yaml.unreadable text

abbrev run :
    List ℕ
    → Command
    → Outcome Main.CliError (List ℕ × Option (Main.Report wholes flow_cache source_cache))
run = Main.run_command wholes flow_cache source_cache one_file no_yaml []

replay-gen_example :
    (disk' : List ℕ) × (report : Main.Report wholes flow_cache source_cache) × (run []
        (Command.gen Scenario.mixed (111 ∷ []) 2 7)
      ≡ ok (disk', none))
    × (run disk' (Command.replay (111 ∷ []) 10 RulesChoice.off) ≡ ok (disk', some report))
    × (report.link ≡ LinkType.ethernet)
    × CountsAll 2 report.snapshot.counters
unfolding Main.load_rules
replay-gen_example =
    Sessions.replay-gen wholes flow_cache source_cache one_file no_yaml [] [] [] Scenario.mixed
      (111 ∷ []) 2 7 10 RulesChoice.off none refl (λ bytes. (bytes, refl)) (λ d. refl) (omega arith)

abbrev idle : Engine wholes flow_cache source_cache
idle = Engine.new wholes flow_cache source_cache Engine.default_config

abbrev syn : List (ℕ × List ℕ)
syn = (1_700_000_000_123_456, ethernet_frame) ∷ []

replay_records-run_example :
    Replaying.Replays wholes flow_cache source_cache 2
      (reading LinkType.ethernet (Files.encoded syn))
      idle
      []
      (Files.all_shown syn)
unfolding Engine.new
replay_records-run_example =
    Replaying.replay_records-run wholes flow_cache source_cache 2
      (reading LinkType.ethernet (Files.encoded syn)) idle [] (Files.all_shown syn) refl
      (Files.read_all-encoded 2 LinkType.ethernet syn (omega arith, omega arith, tt) (omega arith))

-- Three bytes are no record.
replay_records-Returns_example : Returns (
    Main.replay_records wholes flow_cache source_cache 4
      (reading LinkType.ethernet (1 ∷ 2 ∷ 3 ∷ []))
      idle
      [])
replay_records-Returns_example =
    Replaying.replay_records-Returns wholes flow_cache source_cache 4
      (reading LinkType.ethernet (1 ∷ 2 ∷ 3 ∷ [])) idle [] (omega arith)

-- The bundled rules: none.
abbrev empty_rules : Text → Yaml ℕ
empty_rules text = Yaml.read (record { version = 1; rules = [] })

-- A capture that ends within the header of its first record.
abbrev broken_capture : List ℕ
broken_capture = (Pcap.open_writer [] LinkType.ethernet Main.snaplen).inner ++ 1 ∷ 2 ∷ 3 ∷ []

-- A call with a number that is no scenario changes nothing.
no_scenario :
    Demo.core_write_demo_pcap one_file (λ text. true) [] (some (111 ∷ [])) 3 2 7
    ≡ (none, some (negsuc 1))
unfolding Demo.core_write_demo_pcap Demo.scenario_of Types.status_code
no_scenario = refl

core_write_demo_pcap-answer_example :
    (records : List (ℕ × List ℕ)) × (bytes : List ℕ) × (length records ≡ 2)
    × AreTraffic start_ts_us records
    × (Pcap.open_reader bytes ≡ ok (reading LinkType.ethernet (Files.encoded records)))
    × (Demo.core_write_demo_pcap one_file (λ text. true) [] (some (111 ∷ [])) 2 2 7
        ≡ Demo.answer one_file (λ text. true) [] (111 ∷ []) bytes)
unfolding Demo.scenario_of
core_write_demo_pcap-answer_example =
    Demo.core_write_demo_pcap-answer one_file (λ text. true) [] (111 ∷ []) 2 2 7 Scenario.dns_tunnel
      refl refl (omega arith)

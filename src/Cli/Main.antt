-- ===== src/Cli/Main.antt =====
-- core-rs/cli/src/main.rs: the two commands, `gen` and `replay`, and the exit codes. The file system and
-- the text of the bundled rules are parameters; the report is what is handed to the printing.
pub mod Replaying
pub mod Returning
pub mod Counting
pub mod Sessions
use netmon_polyglot.Alert.{Alert, Text}
use netmon_polyglot.Cli
use netmon_polyglot.Cli.{Command, RulesChoice, ArgError}
use netmon_polyglot.Engine
use netmon_polyglot.Engine.{Engine, EngineConfig}
use netmon_polyglot.Engine.Snapshot
use netmon_polyglot.Engine.Snapshot.{Snapshot}
use netmon_polyglot.FileSystem.{FileSystem}
use netmon_polyglot.Float.{Float}
use netmon_polyglot.Flow.{FlowKey-discrete, FlowStats}
use netmon_polyglot.Lru.{LruCache}
use netmon_polyglot.Net.{IpAddr-discrete}
use netmon_polyglot.Packet.Header.{LinkType, Frame}
use netmon_polyglot.Packet.{Packet}
use netmon_polyglot.ParseError.{ParseError}
use netmon_polyglot.Pcap
use netmon_polyglot.Pcap.{PcapError, PcapReader, PcapWriter, RecordHeader, WriteError}
use netmon_polyglot.Prelude.{
  ◌++◌, ◌-◌, ltb, if◌then◌else◌, length, take, ℕ, List, Option, [], suc, zero, some, none, ◌≡◌,
}
use netmon_polyglot.Prelude.Outcome.{Outcome, ok, err, panic, diverge, ◌>>=◌, ◌>>◌}
use netmon_polyglot.Rules
use netmon_polyglot.Rules.Compiled.{SourceState, CompiledRule}
use netmon_polyglot.Rules.Spec.{RuleError, Yaml}
use netmon_polyglot.Synth.Scenarios.{Scenario}
use netmon_polyglot.Synth.Traffic

abbrev pub snaplen : ℕ
snaplen = 65_535

abbrev pub max_printed_alerts : ℕ
max_printed_alerts = 10

-- `Box<dyn Error>`
pub data CliError : Type 0 where
  io : CliError
  pcap : PcapError → CliError
  write_failed : WriteError → CliError
  bad_rules : RuleError → CliError

unfoldable pub map_err {ℓ} : {E F : Type 0} {A : Type ℓ} → (E → F) → Outcome E A → Outcome F A
map_err wrap (ok a) = ok a
map_err wrap (err e) = err (wrap e)
map_err wrap panic = panic
map_err wrap diverge = diverge

-- `?` on an operation of the file system
unfoldable pub or_io {ℓ} : {A : Type ℓ} → Option A → Outcome CliError A
or_io none = err io
or_io (some a) = ok a

-- `let _ = engine.process(…)`: an error is dropped.
unfoldable pub ignore : Outcome ParseError Packet → Outcome CliError (Unit {0})
ignore (ok packet) = ok tt
ignore (err e) = ok tt
ignore panic = panic
ignore diverge = diverge

-- What the sink of `generate` does.
unfoldable pub put_record : PcapWriter → ℕ → List ℕ → Outcome CliError PcapWriter
unfolding map_err
put_record writer ts_us bytes = map_err write_failed (Pcap.write_record writer ts_us bytes)

abbrev pub frame_of : RecordHeader × List ℕ → Frame
frame_of (h, buf) = record { ts_us = h.ts_us; wire_len = h.wire_len; bytes = buf }

module _ (fs : FileSystem) where
  open fs use {Disk, create, write}

  -- The file is created before anything is generated.
  unfoldable pub generate : Disk → Scenario → Text → ℕ → ℕ → Outcome CliError Disk
  unfolding or_io put_record
  generate disk scenario out packets seed = do
    created ← or_io (create disk out)
    writer ←
        Traffic.generate put_record scenario packets seed
          (Pcap.open_writer [] LinkType.ethernet snaplen)
    or_io (write created out writer.inner)

module _ (f : Float) (flow_lru : LruCache FlowStats FlowKey-discrete)
    (source_lru : LruCache SourceState IpAddr-discrete) where
  open f use {F64}

  -- The loop over the records, on fuel: the engine and the alerts so far.
  unfoldable pub replay_records :
      ℕ
      → PcapReader
      → Engine f flow_lru source_lru
      → List (Alert F64)
      → Outcome CliError (Engine f flow_lru source_lru × List (Alert F64))
  unfolding map_err ignore
  replay_records zero reader engine alerts = diverge
  replay_records (suc fuel) reader engine alerts = do
    (next, reader') ← map_err pcap (Pcap.next_record reader)
    elim next [
      | none ↦ ok (engine, alerts)
      | some rec ↦ do
        let (processed, result) = Engine.process f flow_lru source_lru engine (frame_of rec)
        ignore result
        let (drained, new) = Engine.drain_alerts f flow_lru source_lru processed
        replay_records fuel reader' drained (alerts ++ new)
    ]

  -- What is printed of a capture.
  pub record Report : Type 0 where
    pub link : LinkType
    pub snapshot : Snapshot
    pub rule_count : ℕ
    pub alerts : List (Alert F64)

  -- `print_alerts`: the alerts that are printed, and how many are not, if any.
  unfoldable pub printed_alerts : List (Alert F64) → List (Alert F64) × Option ℕ
  printed_alerts alerts = (
    take max_printed_alerts alerts,
    if ltb max_printed_alerts (length alerts)
        then some (length alerts - max_printed_alerts)
        else none,
  )

  -- `map_or(0, RuleEngine::len)`
  unfoldable pub rule_count : Option (List (CompiledRule f source_lru)) → ℕ
  rule_count none = 0
  rule_count (some rules) = length rules

  module _ (fs : FileSystem) (from_str : Text → Yaml F64) (default_rules_yaml : Text) where
    open fs use {Disk, contents, read_to_string}

    unfoldable pub load_rules :
        Disk → RulesChoice → Outcome RuleError (Option (List (CompiledRule f source_lru)))
    load_rules disk RulesChoice.builtin = do
      rules ← Rules.builtin f source_lru from_str default_rules_yaml
      ok (some rules)
    load_rules disk (RulesChoice.file path) = do
      rules ← Rules.load f source_lru from_str (read_to_string disk path)
      ok (some rules)
    load_rules disk RulesChoice.off = ok none

    -- Each record takes at least one byte, so the loop makes at most one round more than there are
    -- bytes.
    unfoldable pub replay : Disk → Text → ℕ → RulesChoice → Outcome CliError Report
    unfolding or_io map_err load_rules replay_records rule_count
    replay disk path top choice = do
      bytes ← or_io (contents disk path)
      reader ← map_err pcap (Pcap.open_reader bytes)
      let config : EngineConfig = record (Engine.default_config) { link = reader.link; top_n = top }
      loaded ← map_err bad_rules (load_rules disk choice)
      let engine =
          Engine.set_rules f flow_lru source_lru (Engine.new f flow_lru source_lru config) loaded
      (last, alerts) ← replay_records (suc (length reader.inner)) reader engine []
      ok (record {
        link = reader.link;
        snapshot = Snapshot.snapshot f flow_lru source_lru last;
        rule_count = rule_count last.rules;
        alerts = alerts;
      })

    -- A command: the disk behind it, and the report of a replay.
    unfoldable pub run_command : Disk → Command → Outcome CliError (Disk × Option Report)
    unfolding generate replay
    run_command disk Command.help = ok (disk, none)
    run_command disk (Command.gen scenario out packets seed) = do
      disk' ← generate fs disk scenario out packets seed
      ok (disk', none)
    run_command disk (Command.replay path top choice) = do
      report ← replay disk path top choice
      ok (disk, some report)

    -- What `main` ends with: a code, and if all went well the disk and the report. What an unfinished
    -- file holds is left open.
    pub record Exit : Type 0 where
      pub code : ℕ
      pub result : Option (Disk × Option Report)

    unfoldable pub exit_of : {E : Type 0} → Outcome CliError (Disk × Option Report) → Outcome E Exit
    exit_of (ok r) = ok (record { code = 0; result = some r })
    exit_of (err e) = ok (record { code = 1; result = none })
    exit_of panic = panic
    exit_of diverge = diverge

    -- A wrong command line ends with 2.
    unfoldable pub main : {E : Type 0} → Disk → List Text → Outcome E Exit
    unfolding run_command exit_of
    main disk args = elim (Cli.parse args) [
      | ok command ↦ exit_of (run_command disk command)
      | err e ↦ ok (record { code = 2; result = none })
      | panic ↦ panic
      | diverge ↦ diverge
    ]

-- ===== src/Ffi/Api/Demo.antt =====
-- core-rs/core-ffi/src/lib.rs: `core_abi_version`, and `core_write_demo_pcap`, which writes a capture of
-- synthetic traffic.
use netmon_polyglot.Alert.{Text}
use netmon_polyglot.Ffi.Api.Polls.{plain_status}
use netmon_polyglot.Ffi.Types
use netmon_polyglot.Ffi.Types.{NcStatus}
use netmon_polyglot.FileSystem.{FileSystem}
use netmon_polyglot.Packet.Header.{LinkType}
use netmon_polyglot.Pcap
use netmon_polyglot.Pcap.{PcapWriter, WriteError}
use netmon_polyglot.Pcap.Files.{encoded}
use netmon_polyglot.Pcap.RoundTrip.{reading}
use netmon_polyglot.Prelude.{
  ◌==◌, if◌then◌else◌, ◌<◌, ◌≡◌, true, length, arith, refl, ℕ, Bool, List, Option, some, none, [],
}
use netmon_polyglot.Prelude.Int.{ℤ, pos}
use netmon_polyglot.Prelude.Outcome.{Outcome, ok, err, panic, diverge, ◌>>=◌}
use netmon_polyglot.Prelude.Words.{u32_mod}
use netmon_polyglot.Synth.Captures.{generate-encoded}
use netmon_polyglot.Synth.Generated.{AreTraffic}
use netmon_polyglot.Synth.Hosts.{start_ts_us}
use netmon_polyglot.Synth.Scenarios.{Scenario}
use netmon_polyglot.Synth.Traffic

unfoldable pub core_abi_version : ℕ
core_abi_version = Types.nc_abi_version

abbrev pub demo_snaplen : ℕ
demo_snaplen = 65_535

-- core-rs/core-ffi/src/types.rs: `NcScenario`, and its numbers.
pub data NcScenario : Type 0 where
  mixed port_scan dns_tunnel : NcScenario

unfoldable pub nc_scenario : NcScenario → ℕ
nc_scenario mixed = 0
nc_scenario port_scan = 1
nc_scenario dns_tunnel = 2

unfoldable pub scenario_of : ℕ → Outcome NcStatus Scenario
unfolding nc_scenario
scenario_of s =
    if s == nc_scenario mixed
    then ok Scenario.mixed
    else if s == nc_scenario port_scan
    then ok Scenario.port_scan
    else if s == nc_scenario dns_tunnel
    then ok Scenario.dns_tunnel
    else err NcStatus.invalid_arg

-- `utf8_arg(…).map_err(|e| e.status)`
unfoldable pub path_arg : (Text → Bool) → Option Text → Outcome NcStatus Text
path_arg valid none = err NcStatus.null_arg
path_arg valid (some path) = if valid path then ok path else err NcStatus.invalid_arg

-- Every error of the file system, and of the writer, is one status.
unfoldable pub or_io {ℓ} : {A : Type ℓ} → Option A → Outcome NcStatus A
or_io none = err NcStatus.io
or_io (some a) = ok a

unfoldable pub io_status : Outcome WriteError PcapWriter → Outcome NcStatus PcapWriter
io_status (ok w) = ok w
io_status (err e) = err NcStatus.io
io_status panic = panic
io_status diverge = diverge

unfoldable pub put_record : PcapWriter → ℕ → List ℕ → Outcome NcStatus PcapWriter
unfolding io_status
put_record w ts_us bytes = io_status (Pcap.write_record w ts_us bytes)

follows :
    (w w' : PcapWriter) (ts_us : ℕ) (bytes : List ℕ)
    → Pcap.write_record w ts_us bytes ≡ ok w'
    → put_record w ts_us bytes ≡ ok w'
unfolding put_record
follows w w' ts_us bytes wrote = rw wrote refl

module _ (fs : FileSystem) (valid : Text → Bool) where
  open fs use {Disk, create, write, contents, contents-write}

  unfoldable pub write_demo : Disk → Option Text → ℕ → ℕ → ℕ → Outcome NcStatus Disk
  unfolding path_arg or_io
  write_demo disk path scenario packets seed = do
    path' ← path_arg valid path
    scenario' ← scenario_of scenario
    created ← or_io (create disk path')
    writer ←
        Traffic.generate put_record scenario' packets seed
          (Pcap.open_writer [] LinkType.ethernet demo_snaplen)
    or_io (write created path' writer.inner)

  -- The disk of a call that succeeds, and the code.
  unfoldable pub demo_result : Outcome NcStatus Disk → Option Disk × Option ℤ
  unfolding plain_status
  demo_result (ok disk) = (some disk, plain_status (ok tt))
  demo_result (err status) = (none, plain_status (err status))
  demo_result panic = (none, plain_status panic)
  demo_result diverge = (none, plain_status diverge)

  unfoldable pub core_write_demo_pcap : Disk → Option Text → ℕ → ℕ → ℕ → Option Disk × Option ℤ
  unfolding write_demo demo_result
  core_write_demo_pcap disk path scenario packets seed =
      demo_result (write_demo disk path scenario packets seed)

  -- What a call leaves for a path and a scenario that are accepted, with the bytes of the capture.
  abbrev pub answer : Disk → Text → List ℕ → Option Disk × Option ℤ
  answer disk path bytes = elim (create disk path) [
    | none ↦ (none, some (Types.status_code NcStatus.io))
    | some created ↦ elim (write created path bytes) [
      | none ↦ (none, some (Types.status_code NcStatus.io))
      | some disk' ↦ (some disk', some (pos 0))
    ]
  ]

  -- For a path that is UTF-8, a known scenario and fewer than 2 ^ 32 packets the call answers 0 and
  -- leaves a capture of Ethernet frames with as many records as were asked for, each a frame that the
  -- parser reads with no error; or, only where the file cannot be created or written, the code of an
  -- error of input or output.
  pub core_write_demo_pcap-answer :
      (disk : Disk) (path : Text) (n packets seed : ℕ) (scenario : Scenario)
      → valid path ≡ true
      → scenario_of n ≡ ok scenario
      → packets < u32_mod
      → (records : List (ℕ × List ℕ)) × (bytes : List ℕ) × (length records ≡ packets)
        × AreTraffic start_ts_us records
        × (Pcap.open_reader bytes ≡ ok (reading LinkType.ethernet (encoded records)))
        × (core_write_demo_pcap disk (some path) n packets seed ≡ answer disk path bytes)
  unfolding core_write_demo_pcap Types.status_code
  core_write_demo_pcap-answer disk path n packets seed scenario utf8 known few =
      let (records, w, sized, traffic, _, generated, opens) =
        generate-encoded put_record follows scenario packets seed (omega arith) in
      (
        records,
        w.inner,
        sized,
        traffic,
        opens,
        rw (utf8, core_write_demo_pcap) (rw (known, core_write_demo_pcap) (ground arith)),
      )

-- ===== src/Ffi/Api/Polls.antt =====
-- core-rs/core-ffi/src/lib.rs: the exported functions that write through a pointer, and those that
-- take no core.
use netmon_polyglot.Ffi.Api.{Bool, Option}
use netmon_polyglot.Prelude.{
  take, ◌==◌, length, if◌then◌else◌, ℕ, Bool, List, Option, ◌∷◌, some, none, [],
}
use netmon_polyglot.Ffi.Api
use netmon_polyglot.Ffi.Core
use netmon_polyglot.Ffi.Core.{NcCore}
use netmon_polyglot.Ffi.Core.Control
use netmon_polyglot.Ffi.Core.Reports
use netmon_polyglot.Ffi.Cstr
use netmon_polyglot.Ffi.Cstr.{NcAlert, NcDevice}
use netmon_polyglot.Ffi.Sniffer
use netmon_polyglot.Ffi.Sniffer.{SnifferLib, DeviceInfo}
use netmon_polyglot.Ffi.Types
use netmon_polyglot.Ffi.Types.{NcStatus, NcConfig, NcStats, NcFlow, CoreError, ErrorText}
use netmon_polyglot.Float.{Float}
use netmon_polyglot.Flow.{FlowKey-discrete, FlowStats}
use netmon_polyglot.Lru.{LruCache}
use netmon_polyglot.Net.{IpAddr-discrete}
use netmon_polyglot.Rules.Compiled.{SourceState}
use netmon_polyglot.Rules.Spec.{Yaml}
use netmon_polyglot.Alert.{Text, Message}
use netmon_polyglot.Prelude.Int.{ℤ, pos}
use netmon_polyglot.Prelude.Outcome.{panic, diverge, ok, err, Outcome}

-- `plain_status`; `none` for a call that does not return.
unfoldable pub plain_status : Outcome NcStatus (Unit {0}) → Option ℤ
plain_status (ok u) = some (Types.status_code NcStatus.ok_status)
plain_status (err status) = some (Types.status_code status)
plain_status panic = some (Types.status_code NcStatus.panicked)
plain_status diverge = none

unfoldable pub nc_devices : List DeviceInfo → List NcDevice
nc_devices [] = []
nc_devices (d ∷ devices) = Cstr.nc_device d.name d.description d.flags ∷ nc_devices devices

module _ {f : Float} {flow_lru : LruCache FlowStats FlowKey-discrete}
    {source_lru : LruCache SourceState IpAddr-discrete} {lib : SnifferLib} where
  open f use {F64}
  open lib use {World}

  -- `out` says whether the pointer may be written through.
  unfoldable pub core_poll_stats :
      World
      → Option (NcCore f flow_lru source_lru lib)
      → Bool
      → (World × Option (NcCore f flow_lru source_lru lib)) × Option NcStats × Option ℤ
  core_poll_stats w core out = Api.guarded w core (λ w' c.
      if out
      then (let (wc, stats) = Reports.stats w' c in
          (wc, some stats, ok (Types.status_code NcStatus.ok_status)))
      else ((w', c), none, err (Api.null_arg "out")))

  -- The slots behind `out`, `capacity` of them, and the number behind `written`, which is 0 first.
  unfoldable pub core_poll_top_flows :
      World
      → Option (NcCore f flow_lru source_lru lib)
      → Option (List NcFlow)
      → ℕ
      → Bool
      → (World × Option (NcCore f flow_lru source_lru lib)) × Option (List NcFlow × ℕ) × Option ℤ
  core_poll_top_flows w core out capacity written = Api.guarded w core (λ w' c.
      if written
      then (if capacity == 0
          then ((w', c), some ([], 0), ok (Types.status_code NcStatus.ok_status))
          else elim out [
            | none ↦ ((w', c), some ([], 0), err (Api.null_arg "out"))
            | some slots ↦ (
              (w', c),
              some (Reports.top_flows c (take capacity slots)),
              ok (Types.status_code NcStatus.ok_status),
            )
          ])
      else ((w', c), none, err (Api.null_arg "written")))

  -- 1 with an alert, 0 without.
  unfoldable pub core_poll_alert :
      (Message F64 → Text)
      → World
      → Option (NcCore f flow_lru source_lru lib)
      → Bool
      → (World × Option (NcCore f flow_lru source_lru lib)) × Option (NcAlert F64) × Option ℤ
  core_poll_alert text_of w core out = Api.guarded w core (λ w' c.
      if out
      then (let (c', alert) = Reports.pop_alert c in
          elim alert [
            | none ↦ ((w', c'), none, ok (pos 0))
            | some a ↦ ((w', c'), some (Cstr.nc_alert text_of a), ok (pos 1))
          ])
      else ((w', c), none, err (Api.null_arg "out")))

  -- The buffer behind `buf`, of length `len`; `text_of` is the text of an error.
  unfoldable pub core_last_error :
      (ErrorText → Text)
      → World
      → Option (NcCore f flow_lru source_lru lib)
      → Option (List ℕ)
      → ℕ
      → (World × Option (NcCore f flow_lru source_lru lib)) × Option (List ℕ) × Option ℤ
  core_last_error text_of w core buf len = Api.guarded w core (λ w' c. elim buf [
    | none ↦ ((w', c), none, err (Api.null_arg "buf"))
    | some dst ↦ if len == 0 then ((w', c), none, err (Api.null_arg "buf")) else (
      (w', c),
      some (Cstr.write_cstr (take len dst) (text_of c.last_error)),
      ok (Types.status_code NcStatus.ok_status),
    )
  ])

module _ (f : Float) (flow_lru : LruCache FlowStats FlowKey-discrete)
    (source_lru : LruCache SourceState IpAddr-discrete) (lib : SnifferLib) where
  open f use {F64}
  open lib use {World}

  -- The new core; none with an error or a panic.
  unfoldable pub core_create :
      (Text → Yaml F64) → Text → Option NcConfig → Option (NcCore f flow_lru source_lru lib)
  core_create from_str default_rules_yaml config =
      elim (Core.create f flow_lru source_lru lib from_str default_rules_yaml
        (elim config [ none ↦ Api.default_nc_config | some cfg ↦ cfg ])) [
          | ok c ↦ some c
          | err e ↦ none
          | panic ↦ none
          | diverge ↦ none
        ]

  unfoldable pub core_destroy : World → Option (NcCore f flow_lru source_lru lib) → World
  core_destroy w none = w
  core_destroy w (some c) = (Control.drop_core w c).0

-- With the devices: their number, and the slots if there are any.
unfoldable pub write_devices :
    List DeviceInfo → Option (List NcDevice) → ℕ → Option (List NcDevice) × Option ℤ
unfolding plain_status nc_devices
write_devices devices out capacity =
    if capacity == 0 then (none, plain_status (ok tt)) else elim out [
      | none ↦ (none, plain_status (err NcStatus.null_arg))
      | some slots ↦
          (some (Reports.fill (take capacity slots) (nc_devices devices)), plain_status (ok tt))
    ]

module _ (lib : SnifferLib) where
  open lib use {World}

  -- What stands behind `total`, the slots written, and the code.
  unfoldable pub core_list_devices :
      World
      → Option (List NcDevice)
      → ℕ
      → Bool
      → World × Option ℕ × Option (List NcDevice) × Option ℤ
  unfolding write_devices plain_status
  core_list_devices w out capacity total =
      if total
      then (let (w', r) = Sniffer.list_devices lib w in
          elim r [
            | ok devices ↦
                let (slots, code) = write_devices devices out capacity in
                (w', some (length devices), slots, code)
            | err e ↦ (w', none, none, plain_status (err e.status))
            | panic ↦ (w', none, none, plain_status panic)
            | diverge ↦ (w', none, none, none)
          ])
      else (w, none, none, plain_status (err NcStatus.null_arg))

-- ===== src/Ffi/Api.antt =====
-- core-rs/core-ffi/src/lib.rs: the functions of the C interface. A pointer is `none` when it is null; a
-- text behind a pointer is its bytes, up to the zero. What a call writes through a pointer is part of
-- its result, `none` when it writes nothing.
pub mod Calls
pub mod Polls
pub mod Codes
pub mod Demo
use netmon_polyglot.Alert.{Text}
use netmon_polyglot.Prelude.Int.{negsuc, pos, ℤ}
use netmon_polyglot.Prelude.{◌==◌, if◌then◌else◌, Bool, String, Option, some, none}
use netmon_polyglot.Ffi.Core
use netmon_polyglot.Ffi.Core.{NcCore}
use netmon_polyglot.Ffi.Core.Reports
use netmon_polyglot.Ffi.Types
use netmon_polyglot.Ffi.Types.{NcStatus, NcConfig, CoreError, ErrorText, literal, named}
use netmon_polyglot.Float.{Float}
use netmon_polyglot.Flow.{FlowKey-discrete, FlowStats}
use netmon_polyglot.Lru.{LruCache}
use netmon_polyglot.Net.{IpAddr-discrete}
use netmon_polyglot.Rules.Compiled.{SourceState}
use netmon_polyglot.Ffi.Sniffer.{SnifferLib}
use netmon_polyglot.Prelude.Outcome.{panic, diverge, ok, err, Outcome, ◌>>=◌, ◌>>◌, reject_if}

-- `NcConfig::default()`
abbrev pub default_nc_config : NcConfig
default_nc_config = record {
  max_flows = 0;
  flow_idle_timeout_ms = 0;
  top_n = 0;
  snaplen = 0;
  link_type = 0;
}

abbrev pub null_arg : String → CoreError
null_arg what = record { status = NcStatus.null_arg; message = named what " is null" }

-- `valid` is what `to_str` accepts.
unfoldable pub utf8_arg : (Text → Bool) → Option Text → String → Outcome CoreError Text
utf8_arg valid none what = err (null_arg what)
utf8_arg valid (some text) what =
    if valid text
    then ok text
    else err (record { status = NcStatus.invalid_arg; message = named what " is not valid utf-8" })

-- `core_status_str`
unfoldable pub status_str : ℤ → String
status_str (pos n) = if n == 0 then "ok" else "unknown status"
status_str (negsuc n) =
    if n == 0
    then "null argument"
    else if n == 1
    then "invalid argument"
    else if n == 2
    then "invalid state"
    else if n == 3
    then "i/o error"
    else if n == 4
    then "capture error"
    else if n == 5
    then "capture library (npcap/libpcap) not installed"
    else if n == 6
    then "permission denied"
    else if n == 7
    then "internal panic"
    else if n == 8
    then "rules error"
    else if n == 9
    then "bad file format"
    else "unknown status"

module _ {f : Float} {flow_lru : LruCache FlowStats FlowKey-discrete}
    {source_lru : LruCache SourceState IpAddr-discrete} {lib : SnifferLib} where
  open f use {F64}
  open lib use {World}

  -- The end of a call: an error becomes its code and the last error, and so does a panic.
  unfoldable pub conclude :
      (World × NcCore f flow_lru source_lru lib)
      → Outcome CoreError ℤ
      → (World × NcCore f flow_lru source_lru lib) × Option ℤ
  conclude (w, c) (ok value) = ((w, c), some value)
  conclude (w, c) (err e) = ((w, Reports.set_error c e.message), some (Types.status_code e.status))
  conclude (w, c) panic = (
    (w, Reports.set_error c (literal "internal panic in netcore")),
    some (Types.status_code NcStatus.panicked),
  )
  conclude (w, c) diverge = ((w, c), none)

  -- `guarded`: the core, what is written, and the code; no code if the call does not return.
  unfoldable pub guarded :
      {A : Type 0}
      → World
      → Option (NcCore f flow_lru source_lru lib)
      → (World
          → NcCore f flow_lru source_lru lib
          → (World × NcCore f flow_lru source_lru lib) × Option A × Outcome CoreError ℤ)
      → (World × Option (NcCore f flow_lru source_lru lib)) × Option A × Option ℤ
  unfolding conclude
  guarded w none call = ((w, none), none, some (Types.status_code NcStatus.null_arg))
  guarded w (some c) call =
      let (wc, written, r) = call w c in
      let ((w', c'), code) = conclude wc r in ((w', some c'), written, code)

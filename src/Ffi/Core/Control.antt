-- ===== src/Ffi/Core/Control.antt =====
-- core-rs/core-ffi/src/core.rs: the operations that load rules, and start and stop things.
use netmon_polyglot.Alert.{Text}
use netmon_polyglot.Prelude.{length, ℕ, Option, if◌then◌else◌, some, none}
use netmon_polyglot.Ffi.Analytics
use netmon_polyglot.Rules
use netmon_polyglot.Rules.Spec
use netmon_polyglot.Rules.Spec.{RuleError, Yaml}
use netmon_polyglot.Engine
use netmon_polyglot.Ffi.Core.{ℕ, Option, Text, NcCore}
use netmon_polyglot.Ffi.Sniffer
use netmon_polyglot.Ffi.Sniffer.{SnifferLib, Sniffer}
use netmon_polyglot.Ffi.Types.{NcStatus, CoreError, literal, given}
use netmon_polyglot.Float.{Float}
use netmon_polyglot.Flow.{FlowKey-discrete, FlowStats}
use netmon_polyglot.Lru.{LruCache}
use netmon_polyglot.Net.{IpAddr-discrete}
use netmon_polyglot.Rules.Compiled.{SourceState}
use netmon_polyglot.Prelude.Outcome.{panic, diverge, ok, err, Outcome}

-- What `stop` says without a running capture.
abbrev pub not_running : CoreError
not_running = record { status = NcStatus.state; message = literal "capture is not running" }

module _ {f : Float} {flow_lru : LruCache FlowStats FlowKey-discrete}
    {source_lru : LruCache SourceState IpAddr-discrete} {lib : SnifferLib} where
  open f use {F64}
  open lib use {World}

  -- The rules of a file, which is absent when it cannot be read; `to_text` prints an error. The number
  -- is that of the rules that are enabled.
  unfoldable pub load_rules :
      (Text → Yaml F64)
      → (RuleError → Text)
      → Option Text
      → NcCore f flow_lru source_lru lib
      → NcCore f flow_lru source_lru lib × Outcome CoreError ℕ
  load_rules from_str to_text contents c = elim (Spec.load f from_str contents) [
    | err e ↦ (c, err (record { status = NcStatus.rules; message = given (to_text e) }))
    | panic ↦ (c, panic)
    | diverge ↦ (c, diverge)
    | ok specs ↦
        let rules = Rules.from_specs f source_lru specs in
        (
          record c {
            shared = record (c.shared) {
              engine = Engine.set_rules f flow_lru source_lru c.shared.engine (some rules);
            };
            rule_specs = specs;
          },
          ok (length rules),
        )
  ]

  -- The old link goes first, also when the new one cannot start.
  unfoldable pub connect_analytics :
      Option Text
      → Option Text
      → NcCore f flow_lru source_lru lib
      → NcCore f flow_lru source_lru lib × Outcome CoreError (Unit {0})
  connect_analytics link_error thread_error c =
      let r = Analytics.start {F = F64} link_error thread_error in
      elim r [
        | ok a ↦ (record c { analytics = some a }, ok tt)
        | err e ↦ (record c { analytics = none }, err e)
        | panic ↦ (record c { analytics = none }, panic)
        | diverge ↦ (record c { analytics = none }, diverge)
      ]

  unfoldable pub disconnect_analytics :
      NcCore f flow_lru source_lru lib → NcCore f flow_lru source_lru lib
  disconnect_analytics c = record c { analytics = none }

  unfoldable pub start :
      World
      → NcCore f flow_lru source_lru lib
      → (World × NcCore f flow_lru source_lru lib) × Outcome CoreError (Unit {0})
  start w c = elim c.capture [
    | none ↦ (
      (w, c),
      err (record { status = NcStatus.state; message = literal "no capture source opened" }),
    )
    | some s ↦ let (w', s', r) = Sniffer.start w s in ((w', record c { capture = some s' }), r)
  ]

  unfoldable pub stop :
      World
      → NcCore f flow_lru source_lru lib
      → (World × NcCore f flow_lru source_lru lib) × Outcome CoreError (Unit {0})
  stop w c = elim c.capture [
    | none ↦ ((w, c), err not_running)
    | some s ↦
        if s.running
        then (let (w', s', r) = Sniffer.stop w s in ((w', record c { capture = some s' }), r))
        else ((w, c), err not_running)
  ]

  -- `drop`
  unfoldable pub drop_core :
      World → NcCore f flow_lru source_lru lib → World × NcCore f flow_lru source_lru lib
  drop_core w c = (Sniffer.close w c.capture, record c { analytics = none; capture = none })

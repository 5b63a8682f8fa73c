-- ===== src/Ffi/Core.antt =====
-- core-rs/core-ffi/src/core.rs: `NcCore`, the object behind the C interface. Each operation takes the
-- state of the world, of which the capture library is a part, and the core, and gives both back.
pub mod Capturing
pub mod Control
pub mod Reports
pub mod Installing
pub mod Opening
use netmon_polyglot.Alert.{Text}
use netmon_polyglot.Net.{IpAddr-discrete}
use netmon_polyglot.Rules.Compiled.{SourceState}
use netmon_polyglot.Flow.{FlowKey-discrete, FlowStats}
use netmon_polyglot.Lru.{LruCache}
use netmon_polyglot.Float.{Float}
use netmon_polyglot.Prelude.Int.{negsuc, pos, ℤ}
use netmon_polyglot.Prelude.{List, Bool, ◌*◌, Option, ◌==◌, ℕ, if◌then◌else◌, false, some, none}
use netmon_polyglot.Engine
use netmon_polyglot.Rules
use netmon_polyglot.Rules.Spec
use netmon_polyglot.Rules.Spec.{RuleSpec, RuleError, Yaml}
use netmon_polyglot.Flow.Table
use netmon_polyglot.Link
use netmon_polyglot.Link.{Link, LinkState}
use netmon_polyglot.Ffi.Shared
use netmon_polyglot.Ffi.Shared.{Shared}
use netmon_polyglot.Ffi.Analytics
use netmon_polyglot.Ffi.Sniffer
use netmon_polyglot.Ffi.Sniffer.{SnifferLib, Sniffer}
use netmon_polyglot.Ffi.Types
use netmon_polyglot.Ffi.Types.{
  NcStatus, NcConfig, NcStats, NcCaptureState, NcAnalyticsState, CoreError, ErrorText, literal,
  numbered, given,
}
use netmon_polyglot.Prelude.Outcome.{panic, diverge, ok, err, Outcome}
use netmon_polyglot.Packet.Header
use netmon_polyglot.Packet.Header.{LinkType, from_raw}

abbrev pub default_snaplen : ℕ
default_snaplen = 65_535

abbrev pub micros_per_milli : ℕ
micros_per_milli = 1_000

-- `0` is Ethernet here; the null link comes only from a capture.
unfoldable pub config_link : ℕ → Option LinkType
config_link raw = if raw == 0 then some LinkType.ethernet else from_raw raw

unfoldable pub engine_config : NcConfig → Outcome CoreError Engine.EngineConfig
unfolding config_link
engine_config cfg = elim (config_link cfg.link_type) [
  | none ↦ err (record {
    status = NcStatus.invalid_arg;
    message = numbered "unsupported link type " cfg.link_type;
  })
  | some link ↦ ok (record {
    link = link;
    max_flows = if cfg.max_flows == 0 then Engine.default_max_flows else cfg.max_flows;
    flow_idle_timeout_us =
        if cfg.flow_idle_timeout_ms == 0
        then Engine.default_flow_idle_timeout_us
        else cfg.flow_idle_timeout_ms * micros_per_milli;
    top_n = if cfg.top_n == 0 then Engine.default_top_n else cfg.top_n;
  })
]

-- `u32::try_from(sniffer.link_type()).unwrap_or(u32::MAX)`
unfoldable pub raw_link : ℤ → ℕ
raw_link (pos n) = n
raw_link (negsuc n) = 0xffff_ffff

module _ (f : Float) (flow_lru : LruCache FlowStats FlowKey-discrete)
    (source_lru : LruCache SourceState IpAddr-discrete) (lib : SnifferLib) where
  open f use {F64}
  open lib use {World}

  pub record NcCore : Type 0 where
    pub analytics : Option (Analytics.Analytics F64)
    pub capture : Option (Sniffer lib)
    pub shared : Shared f flow_lru source_lru
    pub config : Engine.EngineConfig
    pub snaplen : ℕ
    pub rule_specs : List (RuleSpec F64)
    pub last_error : ErrorText

  unfoldable pub create : (Text → Yaml F64) → Text → NcConfig → Outcome CoreError NcCore
  unfolding engine_config
  create from_str default_rules_yaml cfg = elim (engine_config cfg) [
    | err e ↦ err e
    | panic ↦ panic
    | diverge ↦ diverge
    | ok config ↦ elim (Spec.parse f from_str default_rules_yaml) [
      | err e ↦ panic
      | panic ↦ panic
      | diverge ↦ diverge
      | ok specs ↦ ok (record {
        analytics = none;
        capture = none;
        shared = Shared.new_shared (
            Engine.set_rules f flow_lru source_lru (Engine.new f flow_lru source_lru config)
              (some (Rules.from_specs f source_lru specs)));
        config = config;
        snaplen = if cfg.snaplen == 0 then default_snaplen else cfg.snaplen;
        rule_specs = specs;
        last_error = literal "";
      })
    ]
  ]

module _ {lib : SnifferLib} where
  open lib use {World}

  -- The handle is closed when the pace cannot be set.
  unfoldable pub with_realtime :
      Bool → World × Outcome CoreError (Sniffer lib) → World × Outcome CoreError (Sniffer lib)
  with_realtime realtime (w, ok s) =
      let (w', r) = Sniffer.set_realtime w s realtime in
      elim r [
        | ok u ↦ (w', ok s)
        | err e ↦ (Sniffer.close w' (some s), err e)
        | panic ↦ (Sniffer.close w' (some s), panic)
        | diverge ↦ (Sniffer.close w' (some s), diverge)
      ]
  with_realtime realtime (w, r) = (w, r)

module _ {f : Float} {flow_lru : LruCache FlowStats FlowKey-discrete}
    {source_lru : LruCache SourceState IpAddr-discrete} {lib : SnifferLib} where
  open f use {F64}
  open lib use {World}

  -- `if capture.as_ref().is_some_and(Sniffer::is_running)`
  unfoldable pub is_capturing : NcCore f flow_lru source_lru lib → Bool
  is_capturing c = elim c.capture [ none ↦ false | some s ↦ s.running ]

  unfoldable pub feed :
      NcCore f flow_lru source_lru lib
      → ℕ
      → List ℕ
      → ℕ
      → NcCore f flow_lru source_lru lib × Outcome CoreError (Unit {0})
  feed c ts_us bytes wire_len =
      let (s, r) = Shared.ingest c.shared ts_us wire_len bytes in (record c { shared = s }, r)

  -- The engine that a capture begins with.
  unfoldable pub fresh_engine :
      NcCore f flow_lru source_lru lib → LinkType → Engine.Engine f flow_lru source_lru
  fresh_engine c link =
      Engine.set_rules f flow_lru source_lru
        (Engine.new f flow_lru source_lru (record (c.config) { link = link }))
        (some (Rules.from_specs f source_lru c.rule_specs))

  -- The capture is kept when `set_callback` went well; else the handle is closed.
  unfoldable pub attached :
      World
      → NcCore f flow_lru source_lru lib
      → Sniffer lib
      → Outcome CoreError (Unit {0})
      → (World × NcCore f flow_lru source_lru lib) × Outcome CoreError (Unit {0})
  attached w c s (ok u) = ((w, record c { capture = some s }), ok tt)
  attached w c s (err e) = ((Sniffer.close w (some s), c), err e)
  attached w c s panic = ((Sniffer.close w (some s), c), panic)
  attached w c s diverge = ((Sniffer.close w (some s), c), diverge)

  unfoldable pub attach :
      World
      → NcCore f flow_lru source_lru lib
      → Sniffer lib
      → (World × NcCore f flow_lru source_lru lib) × Outcome CoreError (Unit {0})
  unfolding attached
  attach w c s = let (w', r) = Sniffer.set_callback w s in attached w' c s r

  -- `install` with an open handle and its link.
  unfoldable pub adopt_link :
      World
      → NcCore f flow_lru source_lru lib
      → Sniffer lib
      → Option LinkType
      → (World × NcCore f flow_lru source_lru lib) × Outcome CoreError (Unit {0})
  unfolding raw_link fresh_engine attach
  adopt_link w c s none = (
    (Sniffer.close w (some s), c),
    err (record {
      status = NcStatus.format;
      message = numbered "unsupported link type " (raw_link (lib.link_type w s.raw));
    }),
  )
  adopt_link w c s (some link) =
      attach w (record c { shared = record (c.shared) { engine = fresh_engine c link } }) s

  unfoldable pub adopt :
      World
      → NcCore f flow_lru source_lru lib
      → Sniffer lib
      → (World × NcCore f flow_lru source_lru lib) × Outcome CoreError (Unit {0})
  unfolding raw_link adopt_link
  adopt w c s = adopt_link w c s (from_raw (raw_link (lib.link_type w s.raw)))

  unfoldable pub adopt_opened :
      (World × Outcome CoreError (Sniffer lib))
      → NcCore f flow_lru source_lru lib
      → (World × NcCore f flow_lru source_lru lib) × Outcome CoreError (Unit {0})
  unfolding adopt
  adopt_opened (w, ok s) c = adopt w c s
  adopt_opened (w, err e) c = ((w, c), err e)
  adopt_opened (w, panic) c = ((w, c), panic)
  adopt_opened (w, diverge) c = ((w, c), diverge)

  unfoldable pub install :
      World
      → NcCore f flow_lru source_lru lib
      → (World → World × Outcome CoreError (Sniffer lib))
      → (World × NcCore f flow_lru source_lru lib) × Outcome CoreError (Unit {0})
  unfolding is_capturing adopt_opened
  install w c open_it =
      if is_capturing c
      then (
        (w, c),
        err (record {
          status = NcStatus.state;
          message = literal "stop the running capture first";
        }),
      )
      else adopt_opened (open_it (Sniffer.close w c.capture)) (record c { capture = none })

  unfoldable pub open_live :
      World
      → NcCore f flow_lru source_lru lib
      → Text
      → Bool
      → (World × NcCore f flow_lru source_lru lib) × Outcome CoreError (Unit {0})
  unfolding install
  open_live w c iface promisc = install w c (λ w'. Sniffer.open_live w' iface c.snaplen promisc)

  unfoldable pub open_file :
      World
      → NcCore f flow_lru source_lru lib
      → Text
      → Bool
      → (World × NcCore f flow_lru source_lru lib) × Outcome CoreError (Unit {0})
  unfolding install with_realtime
  open_file w c path realtime =
      install w c (λ w'. with_realtime realtime (Sniffer.open_file w' path))

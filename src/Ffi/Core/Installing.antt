-- ===== src/Ffi/Core/Installing.antt =====
-- core-rs/core-ffi/src/core.rs: what opening a capture changes.
use netmon_polyglot.Alert.{Text}
use netmon_polyglot.Prelude.{
  List, [], Bool-cases, Bool, ◌⊎◌, inr, inl, false, true, Option, ◌≡◌, refl, some, none,
}
use netmon_polyglot.Packet.Header.{LinkType, from_raw}
use netmon_polyglot.Engine
use netmon_polyglot.Ffi.Core
use netmon_polyglot.Ffi.Core.{ℕ, Text, Bool, ℤ, Option, NcCore}
use netmon_polyglot.Ffi.Core.Opening.{
  HasNumber, from_raw-HasNumber, IsOpened, Opens, check-Returns, open_live-Opens, open_file-Opens,
  with_realtime-Opens,
}
use netmon_polyglot.Ffi.Sniffer
use netmon_polyglot.Ffi.Sniffer.{Opening, SnifferLib, Sniffer}
use netmon_polyglot.Ffi.Types.{NcStatus, CoreError, literal}
use netmon_polyglot.Float.{Float}
use netmon_polyglot.Flow.{FlowKey-discrete, FlowStats}
use netmon_polyglot.Flow.Table
use netmon_polyglot.Lru.{LruCache}
use netmon_polyglot.Net.{IpAddr-discrete}
use netmon_polyglot.Rules.Loaded
use netmon_polyglot.Rules
use netmon_polyglot.Rules.Compiled.{CompiledRule, SourceState}
use netmon_polyglot.Prelude.Outcome.{Returns, panic, diverge, ok, err, Outcome}

module _ {f : Float} {flow_lru : LruCache FlowStats FlowKey-discrete}
    {source_lru : LruCache SourceState IpAddr-discrete} {lib : SnifferLib} where
  open f use {F64}
  open lib use {World, Handle}

  -- Nothing but the capture and the engine changed.
  pub record IsKept (c c' : NcCore f flow_lru source_lru lib) : Type 0 where
    pub analytics : c'.analytics ≡ c.analytics
    pub config : c'.config ≡ c.config
    pub snaplen : c'.snaplen ≡ c.snaplen
    pub rule_specs : c'.rule_specs ≡ c.rule_specs
    pub last_error : c'.last_error ≡ c.last_error
    pub alerts : c'.shared.alerts ≡ c.shared.alerts
    pub alerts_total : c'.shared.alerts_total ≡ c.shared.alerts_total
    pub alerts_dropped : c'.shared.alerts_dropped ≡ c.shared.alerts_dropped

  -- A new engine for a link: the configuration with this link, the loaded rules that are not switched off, with no source seen, and
  -- nothing counted, no flow, no alert and no time.
  pub record IsFresh (c : NcCore f flow_lru source_lru lib) (link : LinkType)
      (e : Engine.Engine f flow_lru source_lru) : Type 0 where
    pub linked : e.config.link ≡ link
    pub limits : (e.config.max_flows ≡ c.config.max_flows) × (e.config.top_n ≡ c.config.top_n)
    pub timeout : e.flows.idle_timeout_us ≡ c.config.flow_idle_timeout_us
    pub room : flow_lru.cap e.flows.flows ≡ c.config.max_flows
    pub no_flows : flow_lru.iter e.flows.flows ≡ []
    pub nothing : e.counters ≡ Engine.no_counts
    pub at_zero : (e.last_ts_us ≡ 0) × (e.next_expiry_us ≡ 0)
    pub no_alerts : e.alerts ≡ []
    pub rules : List (CompiledRule f source_lru)
    pub ruled :
        (e.rules ≡ some rules)
        × (Loaded.specs_of f source_lru rules ≡ Loaded.enabled f source_lru c.rule_specs)
        × Loaded.Unseen f source_lru rules

  fresh_engine-IsFresh :
      (c : NcCore f flow_lru source_lru lib) (link : LinkType)
      → IsFresh c link (Core.fresh_engine c link)
  unfolding Core.fresh_engine Engine.new Engine.set_rules Table.new
  fresh_engine-IsFresh c link = record {
    linked = refl;
    limits = (refl, refl);
    timeout = refl;
    room = flow_lru.cap-new c.config.max_flows;
    no_flows = flow_lru.iter-new c.config.max_flows;
    nothing = refl;
    at_zero = (refl, refl);
    no_alerts = refl;
    rules = Rules.from_specs f source_lru c.rule_specs;
    ruled = (
      refl,
      Loaded.specs_of-from_specs f source_lru c.rule_specs,
      Loaded.from_specs-Unseen f source_lru c.rule_specs,
    );
  }

  -- What `install` gives when no capture runs, where the library has opened `o`. With a handle: the new
  -- capture, with a new engine of the link that the library names; or an error, no capture, and the
  -- engine as before or new. Without: the error of the opening, no capture, and the engine as before.
  abbrev pub Replaces :
      NcCore f flow_lru source_lru lib
      → Opening Handle
      → World × Outcome CoreError (Sniffer lib)
      → (World × NcCore f flow_lru source_lru lib) × Outcome CoreError (Unit {0})
      → Type 0
  Replaces c o (w₁, ok s) ((w, c'), ok u) =
      (link : LinkType) × IsOpened lib o s
      × (c'.capture ≡ some s)
      × HasNumber link (lib.link_type w₁ s.raw)
      × IsFresh c link c'.shared.engine
      × IsKept c c'
  Replaces c o (w₁, ok s) ((w, c'), err e) =
      (c'.capture ≡ none)
      × ((c'.shared.engine ≡ c.shared.engine)
          ⊎ ((link : LinkType) × HasNumber link (lib.link_type w₁ s.raw)
              × IsFresh c link c'.shared.engine))
      × IsKept c c'
  Replaces c o (w₁, err e₁) ((w, c'), err e) =
      (e ≡ e₁) × (w ≡ w₁) × (c'.capture ≡ none) × (c'.shared.engine ≡ c.shared.engine) × IsKept c c'
  Replaces c o opening r = ⊥

  -- A running capture stays, and the call says so; else it is replaced by what `o` and `opening` give.
  abbrev pub Installs :
      World
      → NcCore f flow_lru source_lru lib
      → Opening Handle
      → World × Outcome CoreError (Sniffer lib)
      → (World × NcCore f flow_lru source_lru lib) × Outcome CoreError (Unit {0})
      → Type 0
  Installs w c o opening r =
      ((Core.is_capturing c ≡ true)
        × (r ≡ (
          (w, c),
          err (record {
            status = NcStatus.state;
            message = literal "stop the running capture first";
          }),
        )))
      ⊎ ((Core.is_capturing c ≡ false) × Replaces c o opening r)

  with_engine-IsKept :
      (c : NcCore f flow_lru source_lru lib) (e : Engine.Engine f flow_lru source_lru)
      (capture : Option (Sniffer lib))
      → IsKept c (record c { capture = capture; shared = record (c.shared) { engine = e } })
  with_engine-IsKept c e capture = record {
    analytics = refl;
    config = refl;
    snaplen = refl;
    rule_specs = refl;
    last_error = refl;
    alerts = refl;
    alerts_total = refl;
    alerts_dropped = refl;
  }

  attached-Replaces :
      (w w₁ : World) (c : NcCore f flow_lru source_lru lib) (s : Sniffer lib) (link : LinkType)
      (o : Opening Handle) (r : Outcome CoreError (Unit {0}))
      → IsOpened lib o s
      → HasNumber link (lib.link_type w₁ s.raw)
      → Returns r
      → let c' = record c {
        capture = none;
        shared = record (c.shared) { engine = Core.fresh_engine c link };
      } in
        Replaces c o (w₁, ok s) (Core.attached w c' s r)
  unfolding Core.attached
  attached-Replaces w w₁ c s link o (ok u) opened number h = (
    link,
    opened,
    refl,
    number,
    fresh_engine-IsFresh c link,
    with_engine-IsKept c (Core.fresh_engine c link) (some s),
  )
  attached-Replaces w w₁ c s link o (err e) opened number h = (
    refl,
    inr (link, number, fresh_engine-IsFresh c link),
    with_engine-IsKept c (Core.fresh_engine c link) none,
  )
  attached-Replaces w w₁ c s link o panic opened number h = h
  attached-Replaces w w₁ c s link o diverge opened number h = h

  adopt_link-Replaces :
      (w : World) (c : NcCore f flow_lru source_lru lib) (s : Sniffer lib) (o : Opening Handle)
      (link : Option LinkType)
      → IsOpened lib o s
      → from_raw (Core.raw_link (lib.link_type w s.raw)) ≡ link
      → Replaces c o (w, ok s) (Core.adopt_link w (record c { capture = none }) s link)
  unfolding Core.adopt_link Core.attach Core.fresh_engine Sniffer.set_callback
  adopt_link-Replaces w c s o none opened number =
      (refl, inl refl, with_engine-IsKept c c.shared.engine none)
  adopt_link-Replaces w c s o (some link) opened number =
      attached-Replaces (lib.set_callback w s.raw).0 w c s link o _ opened
        (from_raw-HasNumber link (lib.link_type w s.raw) number)
        (check-Returns lib (lib.set_callback w s.raw).0 s (lib.set_callback w s.raw).1)

  adopt_opened-Replaces :
      (o : Opening Handle) (r : World × Outcome CoreError (Sniffer lib))
      (c : NcCore f flow_lru source_lru lib)
      → Opens lib o r.1
      → Replaces c o r (Core.adopt_opened r (record c { capture = none }))
  unfolding Core.adopt_opened Core.adopt
  adopt_opened-Replaces o (w, ok s) c h = adopt_link-Replaces w c s o _ h refl
  adopt_opened-Replaces o (w, err e) c h =
      (refl, refl, refl, refl, with_engine-IsKept c c.shared.engine none)
  adopt_opened-Replaces o (w, panic) c h = h
  adopt_opened-Replaces o (w, diverge) c h = h

  install-Installs :
      (w : World) (c : NcCore f flow_lru source_lru lib)
      (open_it : World → World × Outcome CoreError (Sniffer lib)) (o : Opening Handle)
      → Opens lib o (open_it (Sniffer.close w c.capture)).1
      → Installs w c o (open_it (Sniffer.close w c.capture)) (Core.install w c open_it)
  unfolding Core.install
  install-Installs w c open_it o opens = elim (Bool-cases (Core.is_capturing c)) [
    | inl busy ↦ inl (busy, rw busy refl)
    | inr idle ↦
        inr (idle, rw idle (adopt_opened-Replaces o (open_it (Sniffer.close w c.capture)) c opens))
  ]

  -- Opening a device or a file while a capture runs is refused with the status of a wrong state, and
  -- changes nothing. Otherwise the old handle is closed and the library is asked. If it opens a handle
  -- without an error, either this is the new capture, not running yet, with a new engine: nothing
  -- counted, no flow and no alert, the loaded rules that are not switched off, with no source seen, the
  -- configuration's limits, and the link type whose number the library gives; or there is an error and no capture. If it does not, its error is the
  -- call's, and there is no capture and the engine is as before. In each case the rules, the alerts and
  -- the configuration stay, and nothing panics.
  pub opens-Installs :
      (w : World) (c : NcCore f flow_lru source_lru lib) (name : Text) (flag : Bool)
      → let closed = Sniffer.close w c.capture in
        Installs w c
          (lib.open_live closed name c.snaplen flag).1
          (Sniffer.open_live closed name c.snaplen flag)
          (Core.open_live w c name flag)
        × Installs w c
            (lib.open_file closed name).1
            (Core.with_realtime flag (Sniffer.open_file closed name))
            (Core.open_file w c name flag)
  unfolding Core.open_live Core.open_file
  opens-Installs w c name flag =
      let closed = Sniffer.close w c.capture in
      (
        install-Installs w c (λ w'. Sniffer.open_live {lib = lib} w' name c.snaplen flag)
            (lib.open_live closed name c.snaplen flag).1
            (open_live-Opens lib closed name c.snaplen flag),
        install-Installs w c (λ w'. Core.with_realtime flag (Sniffer.open_file {lib = lib} w' name))
            (lib.open_file closed name).1
            (with_realtime-Opens lib flag (Sniffer.open_file closed name)
              (lib.open_file closed name).1 (open_file-Opens lib closed name)),
      )

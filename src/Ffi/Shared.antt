-- ===== src/Ffi/Shared.antt =====
-- core-rs/core-ffi/src/core.rs: `Shared`, what the capture thread, the exporter and the caller share:
-- the engine, and a bounded queue of alerts. A lock that a panic has poisoned is used on, so a panic
-- leaves what was written before it.
pub mod Queue
use netmon_polyglot.Engine
use netmon_polyglot.Prelude.Words.{add64}
use netmon_polyglot.Ffi.Types.{CoreError}
use netmon_polyglot.Alert.{Alert}
use netmon_polyglot.Prelude.Outcome.{ok, err, panic, diverge, Outcome}
use netmon_polyglot.Net.{IpAddr-discrete}
use netmon_polyglot.Rules.Compiled.{SourceState}
use netmon_polyglot.Flow.{FlowKey-discrete, FlowStats}
use netmon_polyglot.Lru.{LruCache}
use netmon_polyglot.Prelude.{
  take, if◌then◌else◌, ◌++◌, drop, ◌==◌, Option, List, length, ℕ, ◌∷◌, false, true, some, none, [],
}
use netmon_polyglot.Float.{Float}

abbrev pub alert_queue_capacity : ℕ
alert_queue_capacity = 1024

-- A frame that the capture library hands over, whose bytes may be null.
pub record CapturedFrame : Type 0 where
  pub ts_us : ℕ
  pub caplen : ℕ
  pub len : ℕ
  pub bytes : Option (List ℕ)

-- `if frame.caplen == 0 || frame.data.is_null()`
unfoldable pub frame_bytes : CapturedFrame → List ℕ
frame_bytes frame =
    if frame.caplen == 0
    then []
    else elim frame.bytes [ none ↦ [] | some bytes ↦ take frame.caplen bytes ]

module _ (f : Float) (flow_lru : LruCache FlowStats FlowKey-discrete)
    (source_lru : LruCache SourceState IpAddr-discrete) where
  open f use {F64}

  pub record Shared : Type 0 where
    pub engine : Engine.Engine f flow_lru source_lru
    pub alerts : List (Alert F64)
    pub alerts_total : ℕ
    pub alerts_dropped : ℕ

module _ {f : Float} {flow_lru : LruCache FlowStats FlowKey-discrete}
    {source_lru : LruCache SourceState IpAddr-discrete} where
  open f use {F64}

  -- What `NcCore::new` shares.
  unfoldable pub new_shared : Engine.Engine f flow_lru source_lru → Shared f flow_lru source_lru
  new_shared engine = record { engine = engine; alerts = []; alerts_total = 0; alerts_dropped = 0 }

  -- `if queue.len() == ALERT_QUEUE_CAPACITY { queue.pop_front(); … }`
  unfoldable pub make_room : Shared f flow_lru source_lru → Shared f flow_lru source_lru
  make_room s = elim (length s.alerts == alert_queue_capacity) [
    | true ↦ record s { alerts = drop 1 s.alerts; alerts_dropped = add64 s.alerts_dropped 1 }
    | false ↦ s
  ]

  unfoldable pub push_alert :
      Shared f flow_lru source_lru → Alert F64 → Shared f flow_lru source_lru
  unfolding make_room
  push_alert s alert =
      let s' = make_room (record s { alerts_total = add64 s.alerts_total 1 }) in
      record s' { alerts = s'.alerts ++ alert ∷ [] }

  unfoldable pub push_alerts :
      Shared f flow_lru source_lru → List (Alert F64) → Shared f flow_lru source_lru
  push_alerts s [] = s
  push_alerts s (alert ∷ alerts) = push_alerts (push_alert s alert) alerts

  -- After `process` has returned: a parse error is not looked at, a panic goes up.
  unfoldable pub deliver :
      {E P : Type 0}
      → Shared f flow_lru source_lru
      → Outcome E P
      → Shared f flow_lru source_lru × Outcome CoreError (Unit {0})
  unfolding push_alerts
  deliver s panic = (s, panic)
  deliver s diverge = (s, diverge)
  deliver s r =
      let (engine, alerts) = Engine.drain_alerts f flow_lru source_lru s.engine in
      (push_alerts (record s { engine = engine }) alerts, ok tt)

  unfoldable pub ingest :
      Shared f flow_lru source_lru
      → ℕ
      → ℕ
      → List ℕ
      → Shared f flow_lru source_lru × Outcome CoreError (Unit {0})
  unfolding deliver
  ingest s ts_us wire_len bytes =
      let (engine, r) =
        Engine.process f flow_lru source_lru s.engine
          (record { ts_us = ts_us; wire_len = wire_len; bytes = bytes }) in
      deliver (record s { engine = engine }) r

  -- The callback of the capture, on its thread; a panic goes no further.
  unfoldable pub on_frame :
      Shared f flow_lru source_lru → Option CapturedFrame → Shared f flow_lru source_lru
  unfolding ingest frame_bytes
  on_frame s none = s
  on_frame s (some frame) = (ingest s frame.ts_us frame.len (frame_bytes frame)).0

  -- `pop_alert` of `NcCore`
  unfoldable pub pop_alert :
      Shared f flow_lru source_lru → Shared f flow_lru source_lru × Option (Alert F64)
  pop_alert s = elim s.alerts [
    | [] ↦ (s, none)
    | alert ∷ rest ↦ (record s { alerts = rest }, some alert)
  ]

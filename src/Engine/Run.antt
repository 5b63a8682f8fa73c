-- ===== src/Engine/Run.antt =====
-- core-rs/core/src/engine.rs: the engine from its start, over a sequence of frames.
use netmon_polyglot.Prelude.Words.{u64_mod}
use netmon_polyglot.Flow.Table.Order.{IsTimely}
use netmon_polyglot.Net.{IpAddr-discrete}
use netmon_polyglot.Rules.Compiled.{SourceState}
use netmon_polyglot.Flow.{FlowKey, FlowKey-discrete, FlowStats}
use netmon_polyglot.Packet.Header.{Frame}
use netmon_polyglot.Lru.{LruCache}
use netmon_polyglot.Float.{Float}
use netmon_polyglot.Prelude.{refl, arith, ◌≡◌, ◌<◌, length, ◌+◌, ◌≤◌, List, ℕ, ◌∷◌, [], some}
use netmon_polyglot.Engine
use netmon_polyglot.Flow.Table
use netmon_polyglot.Flow.Table.Contents.{IsValid, Flows, find}
use netmon_polyglot.Flow.Table.Ends.{IsTableFor, InEnds-single, swapped}
use netmon_polyglot.Lru.Entries.{Distinct}
use netmon_polyglot.Flow.Table.Order.{IsTimely}
use netmon_polyglot.Engine.{
  IpAddr-discrete, SourceState, FlowKey-discrete, Frame, FlowStats, LruCache, List, ℕ, Float,
  Engine, EngineConfig,
}
use netmon_polyglot.Engine.Accounting.{IsAccounted, process-IsAccounted, packets-process}
use netmon_polyglot.Engine.Flows.{process-IsValid, process-IsTimely, process-IsTableFor}

-- The times of the frames do not go back, from `now` on.
abbrev pub InOrder : ℕ → List Frame → Type 0
InOrder now [] = Unit
InOrder now (frame ∷ frames) = (now ≤ frame.ts_us) × InOrder frame.ts_us frames

-- At most `n` flows, no key twice, and no connection once for each of its directions.
pub record IsSingle (n : ℕ) (flows : Flows) : Type 0 where
  pub bounded : length flows ≤ n
  pub distinct : Distinct FlowKey-discrete flows
  pub one_direction :
      (key : FlowKey) (s t : FlowStats)
      → find key flows ≡ some s
      → find (swapped key) flows ≡ some t
      → key.a ≡ key.b

module _ (f : Float) (flow_lru : LruCache FlowStats FlowKey-discrete)
    (source_lru : LruCache SourceState IpAddr-discrete) where
  abbrev Eng : Type 0
  Eng = Engine f flow_lru source_lru

  unfoldable pub run : Eng → List Frame → Eng
  run e [] = e
  run e (frame ∷ frames) = run (Engine.process f flow_lru source_lru e frame).0 frames

  pub after-IsAccounted :
      (e : Eng) (frames : List Frame)
      → IsAccounted e.counters
      → e.counters.packets + length frames < u64_mod
      → IsAccounted (run e frames).counters
        × ((run e frames).counters.packets ≡ e.counters.packets + length frames)
  unfolding run
  after-IsAccounted e [] v room = (v, omega arith)
  after-IsAccounted e (frame ∷ frames) v room =
      let e' = (Engine.process f flow_lru source_lru e frame).0 in
      let one : e'.counters.packets ≡ e.counters.packets + 1 =
        packets-process f flow_lru source_lru e frame (omega arith) in
      let rest =
        after-IsAccounted e' frames
          (process-IsAccounted f flow_lru source_lru e frame v (omega arith)) (omega arith) in
      (rest.0, omega (arith, rest.1))

  -- A new engine that takes fewer than 2 ^ 64 frames has counted each of them, and each exactly once as
  -- not IP, IPv4, IPv6 or a parse error; no more transports or fragments than IP packets, and no more
  -- DNS messages than UDP datagrams.
  pub run-IsAccounted :
      (config : EngineConfig) (frames : List Frame)
      → length frames < u64_mod
      → let c = (run (Engine.new f flow_lru source_lru config) frames).counters in
        IsAccounted c × (c.packets ≡ length frames)
  unfolding Engine.new
  run-IsAccounted config frames room =
      let (accounted, all) =
        after-IsAccounted (Engine.new f flow_lru source_lru config) frames
          (record {
            frames = refl;
            transports = omega arith;
            fragmented = omega arith;
            queries = omega arith;
          })
          (omega arith) in
      (accounted, omega (arith, all))

  after-IsValid :
      (e : Eng) (frames : List Frame)
      → IsValid flow_lru e.flows
      → IsValid flow_lru (run e frames).flows
  unfolding run
  after-IsValid e [] v = v
  after-IsValid e (frame ∷ frames) v =
      after-IsValid (Engine.process f flow_lru source_lru e frame).0 frames
        (process-IsValid f flow_lru source_lru e frame v)

  new-IsValid :
      (config : EngineConfig)
      → 0 < config.max_flows
      → IsValid flow_lru (Engine.new f flow_lru source_lru config).flows
  unfolding Engine.new Table.new
  new-IsValid config h = record {
    positive = rw (flow_lru.cap-new config.max_flows) h;
    bounded = rw (flow_lru.iter-new config.max_flows) (omega arith);
    distinct = rw (flow_lru.iter-new config.max_flows) tt;
  }

  after-IsTableFor :
      (n : ℕ) (e : Eng) (frames : List Frame)
      → IsValid flow_lru e.flows
      → IsTableFor flow_lru n e.flows
      → IsTableFor flow_lru n (run e frames).flows
  unfolding run
  after-IsTableFor n e [] v h = h
  after-IsTableFor n e (frame ∷ frames) v h =
      after-IsTableFor n (Engine.process f flow_lru source_lru e frame).0 frames
        (process-IsValid f flow_lru source_lru e frame v)
        (process-IsTableFor f flow_lru source_lru n e frame v h)

  new-IsTableFor :
      (config : EngineConfig)
      → IsTableFor flow_lru config.max_flows (Engine.new f flow_lru source_lru config).flows
  unfolding Engine.new Table.new
  new-IsTableFor config = record {
    room = flow_lru.cap-new config.max_flows;
    ends = rw (flow_lru.iter-new config.max_flows) tt;
  }

  -- Whatever frames a new engine takes, in whatever order of time, its flow table never holds more
  -- flows than its configuration allows, if that is at least one; it holds no key twice; and it never
  -- holds both a key and the key with the ends swapped, unless the two ends are the same.
  pub run-IsSingle :
      (config : EngineConfig) (frames : List Frame)
      → 0 < config.max_flows
      → IsSingle config.max_flows
          (Table.iter flow_lru (run (Engine.new f flow_lru source_lru config) frames).flows)
  unfolding Table.iter
  run-IsSingle config frames h =
      let e = Engine.new f flow_lru source_lru config in
      let v = after-IsValid e frames (new-IsValid config h) in
      let d =
        after-IsTableFor config.max_flows e frames (new-IsValid config h) (new-IsTableFor config) in
      record {
        bounded = omega (arith, v.bounded, d.room);
        distinct = v.distinct;
        one_direction = λ key s t there back.
            InEnds-single (flow_lru.iter (run e frames).flows.flows) key s t d.ends there back;
      }

  new-IsTimely :
      (config : EngineConfig) → IsTimely flow_lru 0 (Engine.new f flow_lru source_lru config).flows
  unfolding Engine.new Table.new
  new-IsTimely config = record {
    seen = rw (flow_lru.iter-new config.max_flows) tt;
    ordered = rw (flow_lru.iter-new config.max_flows) tt;
  }

  after-IsTimely :
      (e : Eng) (frames : List Frame)
      → IsValid flow_lru e.flows
      → IsTimely flow_lru e.last_ts_us e.flows
      → InOrder e.last_ts_us frames
      → IsTimely flow_lru (run e frames).last_ts_us (run e frames).flows
  unfolding run
  after-IsTimely e [] v h order = h
  after-IsTimely e (frame ∷ frames) v h order =
      let e' = (Engine.process f flow_lru source_lru e frame).0 in
      let (clock, timely) = process-IsTimely f flow_lru source_lru e frame v h order.0 in
      after-IsTimely e' frames (process-IsValid f flow_lru source_lru e frame v) (rw clock timely)
        (rw clock order.1)

  -- A new engine that takes frames whose times do not go back holds its flows in the order of their
  -- last packets, none of them later than its clock.
  pub run-IsTimely :
      (config : EngineConfig) (frames : List Frame)
      → 0 < config.max_flows
      → InOrder 0 frames
      → let e = run (Engine.new f flow_lru source_lru config) frames in
        IsTimely flow_lru e.last_ts_us e.flows
  unfolding Engine.new
  run-IsTimely config frames h order =
      after-IsTimely (Engine.new f flow_lru source_lru config) frames (new-IsValid config h)
        (new-IsTimely config) order

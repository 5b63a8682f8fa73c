-- ===== src/Cli/Main/Counting.antt =====
-- core-rs/core/src/engine.rs and synth.rs: the engine counts the frames of synthetic traffic as IPv4.
use netmon_polyglot.Cli.Main.{frame_of}
use netmon_polyglot.Engine
use netmon_polyglot.Engine.{Engine, EngineConfig}
use netmon_polyglot.Engine.Accounting.{counters-admit, counters-digest}
use netmon_polyglot.Engine.Run
use netmon_polyglot.Float.{Float}
use netmon_polyglot.Flow.{FlowKey-discrete, FlowStats}
use netmon_polyglot.Lru.{LruCache}
use netmon_polyglot.Net.{IpAddr-discrete, is_ipv4}
use netmon_polyglot.Packet
use netmon_polyglot.Packet.{Packet}
use netmon_polyglot.Packet.Header.{Frame, LinkType}
use netmon_polyglot.ParseError.{ParseError}
use netmon_polyglot.Pcap.Files.{all_shown}
use netmon_polyglot.Prelude.{◌+◌, ◌<◌, ◌≡◌, ◌∙◌, ap, length, map, arith, ℕ, List, [], ◌∷◌, refl}
use netmon_polyglot.Prelude.Outcome.{Outcome, ok, err, panic, diverge}
use netmon_polyglot.Prelude.Words.{u64_mod, add64}
use netmon_polyglot.Rules.Compiled.{SourceState}
use netmon_polyglot.Synth.Generated.{AreTraffic}
use netmon_polyglot.Synth.Produced.{IsTraffic}
use netmon_polyglot.Synth.Reading.{packet_of}

module _ (f : Float) (flow_lru : LruCache FlowStats FlowKey-discrete)
    (source_lru : LruCache SourceState IpAddr-discrete) where
  abbrev Eng : Type 0
  Eng = Engine f flow_lru source_lru

  config-admit :
      (e : Eng) (frame : Frame) → (Engine.admit f flow_lru source_lru e frame).config ≡ e.config
  unfolding Engine.admit
  config-admit e frame = ground arith

  config-digest :
      (e : Eng) (r : Outcome ParseError Packet)
      → (Engine.digest f flow_lru source_lru e r).config ≡ e.config
  unfolding Engine.digest Engine.track_flow Engine.apply_rules
  config-digest e (ok p) = ground arith
  config-digest e (err x) = refl
  config-digest e panic = refl
  config-digest e diverge = refl

  config-process :
      (e : Eng) (frame : Frame) → (Engine.process f flow_lru source_lru e frame).0.config ≡ e.config
  unfolding Engine.process
  config-process e frame =
      let e' = Engine.admit f flow_lru source_lru e frame in
      config-digest e' (Packet.parse e'.config.link frame) ∙ config-admit e frame

  ipv4-count :
      (c : Engine.Counters) (t : Packet.Transport) (proto : ℕ) (src dst : List ℕ) (app : Packet.App)
      (ts_us wire_len : ℕ)
      → c.ipv4 + 1 < u64_mod
      → (Engine.count c (packet_of proto src dst t app ts_us wire_len)).ipv4 ≡ c.ipv4 + 1
  unfolding Engine.count Engine.count_family Engine.count_fragment Engine.count_transport
      Engine.count_app is_ipv4 add64
  ipv4-count c t proto src dst app ts_us wire_len room = ground arith

  ipv4-process :
      (e : Eng) (frame : Frame)
      → e.config.link ≡ LinkType.ethernet
      → IsTraffic frame.bytes
      → e.counters.ipv4 + 1 < u64_mod
      → (Engine.process f flow_lru source_lru e frame).0.counters.ipv4 ≡ e.counters.ipv4 + 1
  unfolding Engine.process
  ipv4-process e frame link t room =
      let e' = Engine.admit f flow_lru source_lru e frame in
      let p = packet_of t.proto t.src t.dst t.transport t.app frame.ts_us frame.wire_len in
      let at_link : e'.config.link ≡ LinkType.ethernet =
        ap (λ (c : EngineConfig). c.link) (config-admit e frame) ∙ link in
      let parsed : Packet.parse e'.config.link frame ≡ ok p =
        rw at_link (t.read frame.ts_us frame.wire_len) in
      let same : e'.counters.ipv4 ≡ e.counters.ipv4 =
        ap (λ (c : Engine.Counters). c.ipv4) (counters-admit f flow_lru source_lru e frame) in
      rw parsed (
        ap (λ (c : Engine.Counters). c.ipv4) (counters-digest f flow_lru source_lru e' p)
        ∙ ipv4-count e'.counters t.transport t.proto t.src t.dst t.app frame.ts_us frame.wire_len
            (omega (arith, same))
        ∙ omega (arith, same))

  -- An engine on Ethernet counts each frame of the traffic as IPv4.
  pub ipv4-run :
      (now : ℕ) (records : List (ℕ × List ℕ)) (e : Eng)
      → AreTraffic now records
      → e.config.link ≡ LinkType.ethernet
      → e.counters.ipv4 + length records < u64_mod
      → (Run.run f flow_lru source_lru e (map frame_of (all_shown records))).counters.ipv4
        ≡ e.counters.ipv4 + length records
  unfolding Run.run
  ipv4-run now [] e traffic link room = omega arith
  ipv4-run now (r ∷ records) e traffic link room =
      let frame : Frame = record { ts_us = r.0; wire_len = length r.1; bytes = r.1 } in
      let e' = (Engine.process f flow_lru source_lru e frame).0 in
      let one : e'.counters.ipv4 ≡ e.counters.ipv4 + 1 =
        ipv4-process e frame link traffic.2 (omega arith) in
      let link' : e'.config.link ≡ LinkType.ethernet =
        ap (λ (c : EngineConfig). c.link) (config-process e frame) ∙ link in
      ipv4-run r.0 records e' traffic.3 link' (omega (arith, one)) ∙ omega (arith, one)

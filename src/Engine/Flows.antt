-- ===== src/Engine/Flows.antt =====
-- core-rs/core/src/engine.rs: the engine keeps the flow table valid and in the order of time.
use netmon_polyglot.ParseError.{ParseError}
use netmon_polyglot.Prelude.{
  ◌∙◌, Option-cases, ◌≤◌, refl, leb, Bool-cases, true, ℕ, arith, inr, inl, max, ◌≡◌,
}
use netmon_polyglot.Engine.{leb, FlowUpdate, ParseError, max, Engine, flow_update}
use mathlib.Core.Path.{subst}
use netmon_polyglot.Engine
use netmon_polyglot.Flow.Table
use netmon_polyglot.Flow.Table.Contents.{IsValid, update-IsValid}
use netmon_polyglot.Flow.Table.Order.{
  IsTimely-mono, expire-IsValid, IsTimely, update-IsTimely, expire-IsTimely,
}
use netmon_polyglot.Flow.Key.{le_endpoint-canonical}
use netmon_polyglot.Flow.Table.Ends.{IsTableFor, update-IsTableFor, expire-IsTableFor}
use netmon_polyglot.Flow.{le_endpoint, FlowUpdate, FlowStats, FlowKey-discrete, FlowTable}
use netmon_polyglot.Float.{Float}
use netmon_polyglot.Lru.{LruCache}
use netmon_polyglot.Net.{IpAddr-discrete}
use netmon_polyglot.Packet.{Packet, ports}
use netmon_polyglot.Packet
use netmon_polyglot.Packet.Header.{Frame, IpHeader}
use netmon_polyglot.Packet.Shape.{parse-IsShaped}
use netmon_polyglot.Prelude.Outcome.{Outcome, ok, err, panic, diverge}
use netmon_polyglot.Rules.Compiled.{SourceState}

le_endpoint-flow_update :
    (p : Packet) (ip : IpHeader)
    → le_endpoint (flow_update p ip).key.a (flow_update p ip).key.b ≡ true
unfolding flow_update
le_endpoint-flow_update p ip =
    let (sport, dport) = ports p.transport in
    le_endpoint-canonical (record { addr = ip.src; port = sport })
      (record { addr = ip.dst; port = dport }) ip.proto

module _ (f : Float) (flow_lru : LruCache FlowStats FlowKey-discrete)
    (source_lru : LruCache SourceState IpAddr-discrete) where
  abbrev Eng : Type 0
  Eng = Engine f flow_lru source_lru

  -- The table after the clock went on: as before, or without its idle flows.
  admit_cases :
      (P : FlowTable flow_lru → Type 0) (e : Eng) (frame : Frame)
      → P e.flows
      → P (Table.expire flow_lru e.flows (max e.last_ts_us frame.ts_us)).0
      → P (Engine.admit f flow_lru source_lru e frame).flows
  unfolding Engine.admit
  admit_cases P e frame stays expires =
      elim (Bool-cases (leb e.next_expiry_us (max e.last_ts_us frame.ts_us))) [
        | inl due ↦ rw (due, Engine.admit) expires
        | inr early ↦ rw (early, Engine.admit) stays
      ]

  last_ts-admit :
      (e : Eng) (frame : Frame)
      → (Engine.admit f flow_lru source_lru e frame).last_ts_us ≡ max e.last_ts_us frame.ts_us
  unfolding Engine.admit
  last_ts-admit e frame = ground arith

  flows-apply_rules :
      (e : Eng) (p : Packet) → (Engine.apply_rules f flow_lru source_lru e p).flows ≡ e.flows
  unfolding Engine.apply_rules
  flows-apply_rules e p = ground arith

  track_cases :
      (P : FlowTable flow_lru → Type 0) (e : Eng) (p : Packet)
      → P e.flows
      → ((u : FlowUpdate)
          → u.ts_us ≡ p.ts_us
          → le_endpoint u.key.a u.key.b ≡ true
          → P (Table.update flow_lru e.flows u).0)
      → P (Engine.track_flow f flow_lru source_lru e p).flows
  unfolding Engine.track_flow flow_update
  track_cases P e p stays updates = elim (Option-cases p.ip) [
    | inl no_ip ↦ rw (no_ip, Engine.track_flow) stays
    | inr (ip, has_ip) ↦ elim (Bool-cases (Engine.is_later_fragment p.transport)) [
      | inl later ↦ rw (has_ip, Engine.track_flow, later) stays
      | inr first ↦
          rw (has_ip, Engine.track_flow, first)
            (updates (flow_update p ip) refl (le_endpoint-flow_update p ip))
    ]
  ]

  -- The table after the packet: as before, or updated at the packet's time.
  digest_cases :
      (P : FlowTable flow_lru → Type 0) (e : Eng) (r : Outcome ParseError Packet)
      → P e.flows
      → ((p : Packet) (u : FlowUpdate)
          → r ≡ ok p
          → u.ts_us ≡ p.ts_us
          → le_endpoint u.key.a u.key.b ≡ true
          → P (Table.update flow_lru e.flows u).0)
      → P (Engine.digest f flow_lru source_lru e r).flows
  unfolding Engine.digest
  digest_cases P e (ok p) stays updates =
      rw
        (flows-apply_rules
          (Engine.track_flow f flow_lru source_lru
            (record e { counters = Engine.count e.counters p }) p)
          p)
        (track_cases P (record e { counters = Engine.count e.counters p }) p stays
          (λ u same le. updates p u refl same le))
  digest_cases P e (err x) stays updates = stays
  digest_cases P e panic stays updates = stays
  digest_cases P e diverge stays updates = stays

  -- `process` keeps the flow table valid, whatever the frame and its time.
  pub process-IsValid :
      (e : Eng) (frame : Frame)
      → IsValid flow_lru e.flows
      → IsValid flow_lru (Engine.process f flow_lru source_lru e frame).0.flows
  unfolding Engine.process
  process-IsValid e frame v =
      let e' = Engine.admit f flow_lru source_lru e frame in
      let v' : IsValid flow_lru e'.flows =
        admit_cases (IsValid flow_lru) e frame v
          (expire-IsValid flow_lru e.flows (max e.last_ts_us frame.ts_us) v) in
      digest_cases (IsValid flow_lru) e' (Packet.parse e'.config.link frame) v'
        λ p u _ _ _. update-IsValid flow_lru e'.flows u v'

  -- `process` keeps the room of the table and the order of the ends of its keys.
  pub process-IsTableFor :
      (n : ℕ) (e : Eng) (frame : Frame)
      → IsValid flow_lru e.flows
      → IsTableFor flow_lru n e.flows
      → IsTableFor flow_lru n (Engine.process f flow_lru source_lru e frame).0.flows
  unfolding Engine.process
  process-IsTableFor n e frame v h =
      let e' = Engine.admit f flow_lru source_lru e frame in
      let now = max e.last_ts_us frame.ts_us in
      let v' : IsValid flow_lru e'.flows =
        admit_cases (IsValid flow_lru) e frame v (expire-IsValid flow_lru e.flows now v) in
      let h' : IsTableFor flow_lru n e'.flows =
        admit_cases (IsTableFor flow_lru n) e frame h
          (expire-IsTableFor flow_lru n e.flows now h) in
      digest_cases (IsTableFor flow_lru n) e' (Packet.parse e'.config.link frame) h'
        λ p u _ _ le. update-IsTableFor flow_lru n e'.flows u v' le h'

  last_ts-digest :
      (e : Eng) (r : Outcome ParseError Packet)
      → (Engine.digest f flow_lru source_lru e r).last_ts_us ≡ e.last_ts_us
  unfolding Engine.digest Engine.track_flow Engine.apply_rules
  last_ts-digest e (ok p) = ground arith
  last_ts-digest e (err x) = refl
  last_ts-digest e panic = refl
  last_ts-digest e diverge = refl

  -- While the times of the frames do not go back, `process` keeps the flows in the order of their
  -- last packets, none of them later than the engine's clock, which shows the frame's time.
  pub process-IsTimely :
      (e : Eng) (frame : Frame)
      → IsValid flow_lru e.flows
      → IsTimely flow_lru e.last_ts_us e.flows
      → e.last_ts_us ≤ frame.ts_us
      → let e' = (Engine.process f flow_lru source_lru e frame).0 in
        (e'.last_ts_us ≡ frame.ts_us) × IsTimely flow_lru frame.ts_us e'.flows
  unfolding Engine.process
  process-IsTimely e frame v h le =
      let e' = Engine.admit f flow_lru source_lru e frame in
      let r = Packet.parse e'.config.link frame in
      let clock : max e.last_ts_us frame.ts_us ≡ frame.ts_us = omega arith in
      let v' : IsValid flow_lru e'.flows =
        admit_cases (IsValid flow_lru) e frame v
          (expire-IsValid flow_lru e.flows (max e.last_ts_us frame.ts_us) v) in
      let h' : IsTimely flow_lru e.last_ts_us e'.flows =
        admit_cases (IsTimely flow_lru e.last_ts_us) e frame h
          (expire-IsTimely flow_lru e.flows (max e.last_ts_us frame.ts_us) h) in
      (
        last_ts-digest e' r ∙ last_ts-admit e frame ∙ clock,
        digest_cases (IsTimely flow_lru frame.ts_us) e' r (IsTimely-mono flow_lru e'.flows le h')
            λ p u parsed same _.
              let at : u.ts_us ≡ frame.ts_us =
                same ∙ (parse-IsShaped e'.config.link frame {p = p} parsed).same_ts in
              subst (λ t. IsTimely flow_lru t (Table.update flow_lru e'.flows u).0) at
                (update-IsTimely flow_lru e'.flows u v' h' (omega arith)),
      )

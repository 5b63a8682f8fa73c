-- ===== src/Ffi/Api/Codes.antt =====
-- core-rs/core-ffi/src/lib.rs: what `core_feed_packet` answers.
use mathlib.Core.Path.{sym, subst}
use netmon_polyglot.Prelude.Words.{u64_mod}
use netmon_polyglot.Ffi.Api.{named, Option}
use netmon_polyglot.Packet.Header.{Frame}
use netmon_polyglot.Prelude.{
  take, ◌==◌, sym, max, Bool-cases, inr, inl, ap, ◌+◌, arith, ◌∙◌, ◌<◌, List, Option, ◌≡◌, ℕ, ◌∷◌,
  refl, some, none, [],
}
use netmon_polyglot.Ffi.Api
use netmon_polyglot.Ffi.Core
use netmon_polyglot.Ffi.Core.{NcCore}
use netmon_polyglot.Ffi.Core.Reports
use netmon_polyglot.Ffi.Sniffer.{SnifferLib}
use netmon_polyglot.Ffi.Types
use netmon_polyglot.Ffi.Types.{NcStatus, NcConfig, NcStats, NcFlow, CoreError, ErrorText}
use netmon_polyglot.Float.{Float}
use netmon_polyglot.Flow.{FlowKey-discrete, FlowStats}
use netmon_polyglot.Lru.{LruCache}
use netmon_polyglot.Net.{IpAddr-discrete}
use netmon_polyglot.Rules.Compiled.{SourceState}
use netmon_polyglot.Alert.{Alert}
use netmon_polyglot.Prelude.Int.{ℤ, pos, negsuc}
use netmon_polyglot.Prelude.Outcome.{Returns, panic, diverge, ok, err, Outcome}
use netmon_polyglot.Ffi.Api.Calls
use netmon_polyglot.Packet.Totality.{parse-Returns}
use netmon_polyglot.Engine
use netmon_polyglot.Engine.{Engine}
use netmon_polyglot.Engine.Accounting
use netmon_polyglot.Ffi.Shared
use netmon_polyglot.Ffi.Shared.{Shared}

module _ {f : Float} {flow_lru : LruCache FlowStats FlowKey-discrete}
    {source_lru : LruCache SourceState IpAddr-discrete} where
  open f use {F64}

  engine-push_alert :
      (s : Shared f flow_lru source_lru) (a : Alert F64) → (Shared.push_alert s a).engine ≡ s.engine
  unfolding Shared.push_alert Shared.make_room
  engine-push_alert s a = ground arith

  engine-push_alerts :
      (s : Shared f flow_lru source_lru) (alerts : List (Alert F64))
      → (Shared.push_alerts s alerts).engine ≡ s.engine
  unfolding Shared.push_alerts
  engine-push_alerts s [] = refl
  engine-push_alerts s (a ∷ alerts) =
      engine-push_alerts (Shared.push_alert s a) alerts ∙ engine-push_alert s a

  deliver_lem :
      {E P : Type 0} (s : Shared f flow_lru source_lru) (r : Outcome E P)
      → Returns r
      → ((Shared.deliver s r).1 ≡ ok tt)
        × ((Shared.deliver s r).0.engine ≡ record (s.engine) { alerts = [] })
  unfolding Shared.deliver Engine.drain_alerts
  deliver_lem s (ok p) h = (refl, engine-push_alerts _ s.engine.alerts)
  deliver_lem s (err e) h = (refl, engine-push_alerts _ s.engine.alerts)
  deliver_lem s panic h = absurd h
  deliver_lem s diverge h = absurd h

  process-Returns :
      (e : Engine f flow_lru source_lru) (frame : Frame)
      → Returns (Engine.process f flow_lru source_lru e frame).1
  unfolding Engine.process
  process-Returns e frame = parse-Returns _ frame

  ingest_lem :
      (s : Shared f flow_lru source_lru) (ts_us wire_len : ℕ) (bytes : List ℕ)
      → s.engine.counters.packets + 1 < u64_mod
      → let r = Shared.ingest s ts_us wire_len bytes in
        (r.1 ≡ ok tt)
        × (r.0.engine.counters.packets ≡ s.engine.counters.packets + 1)
        × (r.0.engine.alerts ≡ [])
  unfolding Shared.ingest
  ingest_lem s ts_us wire_len bytes room =
      let frame : Frame = record { ts_us = ts_us; wire_len = wire_len; bytes = bytes } in
      let p = Engine.process f flow_lru source_lru s.engine frame in
      let d = deliver_lem (record s { engine = p.0 }) p.1 (process-Returns s.engine frame) in
      (
        d.0,
        ap (λ (e : Engine f flow_lru source_lru). e.counters.packets) d.1
            ∙ Accounting.packets-process f flow_lru source_lru s.engine frame room,
        ap (λ (e : Engine f flow_lru source_lru). e.alerts) d.1,
      )

no_bytes :
    (memory : Option (List ℕ)) (caplen : ℕ)
    → 0 < caplen
    → memory ≡ none
    → Calls.packet_bytes memory caplen ≡ err (Api.null_arg "data")
unfolding Calls.packet_bytes
no_bytes memory caplen long null = ground (arith, null)

zero_bytes :
    (memory : Option (List ℕ)) (caplen : ℕ)
    → caplen ≡ 0
    → (bs : List ℕ) × (Calls.packet_bytes memory caplen ≡ ok bs)
unfolding Calls.packet_bytes
zero_bytes memory caplen zero_long = ([], ground (arith, zero_long))

some_bytes :
    (memory : Option (List ℕ)) (caplen : ℕ) (bytes : List ℕ)
    → memory ≡ some bytes
    → (bs : List ℕ) × (Calls.packet_bytes memory caplen ≡ ok bs)
unfolding Calls.packet_bytes
some_bytes memory caplen bytes at = elim (Bool-cases (caplen == 0)) [
  | inl zero_long ↦ ([], ground (arith, zero_long))
  | inr long ↦ (take caplen bytes, ground (arith, long, at))
]

module _ {f : Float} {flow_lru : LruCache FlowStats FlowKey-discrete}
    {source_lru : LruCache SourceState IpAddr-discrete} {lib : SnifferLib} where
  open f use {F64}
  open lib use {World}

  -- The frame is in the engine, and its alerts are in the queue.
  pub record IsFed (w : World) (c : NcCore f flow_lru source_lru lib)
      (r : (World × Option (NcCore f flow_lru source_lru lib)) × Option (Unit {0}) × Option ℤ)
      : Type 0 where
    pub core : NcCore f flow_lru source_lru lib
    pub after : r ≡ ((w, some core), none, some (pos 0))
    pub counted : core.shared.engine.counters.packets ≡ c.shared.engine.counters.packets + 1
    pub drained : core.shared.engine.alerts ≡ []
    pub no_error : core.last_error ≡ c.last_error

  fed :
      (w : World) (c : NcCore f flow_lru source_lru lib) (ts_us wire_len : ℕ) (bytes : List ℕ)
      → c.shared.engine.counters.packets + 1 < u64_mod
      → IsFed w c
          (Api.guarded w (some c) (λ w' c'. Calls.feed_bytes w' c' ts_us wire_len (ok bytes)))
  unfolding Api.guarded Api.conclude Calls.feed_bytes Core.feed Calls.ok_code Types.status_code
  fed w c ts_us wire_len bytes room =
      let i = ingest_lem c.shared ts_us wire_len bytes room in
      let r = Shared.ingest c.shared ts_us wire_len bytes in
      record {
        core = record c { shared = r.0 };
        after = rw i.0 refl;
        counted = i.1;
        drained = i.2;
        no_error = refl;
      }

  -- The call with a core: data that is null, with a length, is refused by its code and its message;
  -- otherwise the code is that of success.
  pub record Feeds (w : World) (c : NcCore f flow_lru source_lru lib) (memory : Option (List ℕ))
      (caplen : ℕ)
      (r : (World × Option (NcCore f flow_lru source_lru lib)) × Option (Unit {0}) × Option ℤ)
      : Type 0 where
    pub refused :
        0 < caplen
        → memory ≡ none
        → r ≡ ((w, some (record c { last_error = named "data" " is null" })), none, some (negsuc 0))
    pub given_bytes : (bytes : List ℕ) → memory ≡ some bytes → IsFed w c r
    pub empty : caplen ≡ 0 → IsFed w c r

  -- While the 64-bit counter of packets is not full: whatever the frame holds, `core_feed_packet`
  -- answers 0, counts it and leaves no alert in the engine, and the last error stays; only data that
  -- is null and has a length is refused, with the code for a null argument, which the last error
  -- explains. The code of a panic is never given.
  pub core_feed_packet-Feeds :
      (w : World) (c : NcCore f flow_lru source_lru lib) (ts_us : ℕ) (memory : Option (List ℕ))
      (caplen wire_len : ℕ)
      → c.shared.engine.counters.packets + 1 < u64_mod
      → Feeds w c memory caplen (Calls.core_feed_packet w (some c) ts_us memory caplen wire_len)
  unfolding Calls.core_feed_packet Calls.feed_bytes Api.guarded Api.conclude Types.status_code
      Reports.set_error
  core_feed_packet-Feeds w c ts_us memory caplen wire_len room =
      let feeding = λ (bytes : Outcome CoreError (List ℕ)).
        Api.guarded w (some c)
          (λ w' c'. Calls.feed_bytes w' c' ts_us (max wire_len caplen) bytes) in
      let good = λ (b : (bs : List ℕ) × (Calls.packet_bytes memory caplen ≡ ok bs)).
        subst (λ o. IsFed w c (feeding o)) (sym b.1)
          (fed w c ts_us (max wire_len caplen) b.0 room) in
      record {
        refused = λ long null. ap feeding (no_bytes memory caplen long null);
        given_bytes = λ bytes at. good (some_bytes memory caplen bytes at);
        empty = λ none_long. good (zero_bytes memory caplen none_long);
      }

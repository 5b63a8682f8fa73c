-- ===== src/Cli/Main/Replaying.antt =====
-- core-rs/cli/src/main.rs: the loop of `replay` ends, and does what the engine does on the records.
use netmon_polyglot.Alert.{Alert}
use netmon_polyglot.Cli.Main
use netmon_polyglot.Cli.Main.{CliError, frame_of}
use netmon_polyglot.Engine
use netmon_polyglot.Engine.{Engine}
use netmon_polyglot.Engine.Run
use netmon_polyglot.Float.{Float}
use netmon_polyglot.Flow.{FlowKey-discrete, FlowStats}
use netmon_polyglot.Lru.{LruCache}
use netmon_polyglot.Net.{IpAddr-discrete}
use netmon_polyglot.Packet
use netmon_polyglot.Packet.{Packet}
use netmon_polyglot.Packet.Header.{Frame}
use netmon_polyglot.Packet.Totality
use netmon_polyglot.ParseError.{ParseError}
use netmon_polyglot.Pcap
use netmon_polyglot.Pcap.{PcapReader, RecordHeader}
use netmon_polyglot.Pcap.Files
use netmon_polyglot.Pcap.Progress.{next_record-Returns, next_record-shrinks}
use netmon_polyglot.Prelude.{
  ◌++◌, ◌<◌, ◌≡◌, ◌∙◌, sym, ap, refl, length, map, arith, ℕ, List, Option, [], ◌∷◌, suc, zero, some,
  none,
}
use netmon_polyglot.Prelude.Outcome.{Outcome, ok, err, panic, diverge, Returns, ◌>>=◌, >>=-eq-ok}
use netmon_polyglot.Rules
use netmon_polyglot.Rules.Compiled.{SourceState}
use mathlib.Core.List.{append-nil}

ignored : (r : Outcome ParseError Packet) → Returns r → Main.ignore r ≡ ok tt
unfolding Main.ignore
ignored (ok packet) h = refl
ignored (err e) h = refl
ignored panic h = absurd h
ignored diverge h = absurd h

module _ (f : Float) (flow_lru : LruCache FlowStats FlowKey-discrete)
    (source_lru : LruCache SourceState IpAddr-discrete) where
  open f use {F64}

  abbrev pub Eng : Type 0
  Eng = Engine f flow_lru source_lru

  process_result :
      (e : Eng) (frame : Frame)
      → Main.ignore (Engine.process f flow_lru source_lru e frame).1 ≡ ok tt
  unfolding Engine.process
  process_result e frame =
      let e' = Engine.admit f flow_lru source_lru e frame in
      ignored (Packet.parse e'.config.link frame) (Totality.parse-Returns e'.config.link frame)

  -- With more fuel than there are bytes left, the loop over the records ends: no file, however it is
  -- broken, makes it run for ever, and none makes it panic.
  pub replay_records-Returns :
      (fuel : ℕ) (reader : PcapReader) (e : Eng) (alerts : List (Alert F64))
      → length reader.inner < fuel
      → Returns (Main.replay_records f flow_lru source_lru fuel reader e alerts)
  unfolding Main.replay_records Main.map_err
  replay_records-Returns zero reader e alerts enough = absurd (omega arith)
  replay_records-Returns (suc fuel) reader e alerts enough =
      after (Pcap.next_record reader) refl
        λ reader' e' new smaller. replay_records-Returns fuel reader' e' new smaller
    where
      after :
          (o : Outcome Pcap.PcapError (Option (RecordHeader × List ℕ) × PcapReader))
          → Pcap.next_record reader ≡ o
          → ((reader' : PcapReader) (e' : Eng) (new : List (Alert F64))
              → length reader'.inner < fuel
              → Returns (Main.replay_records f flow_lru source_lru fuel reader' e' new))
          → Returns (Main.replay_records f flow_lru source_lru (suc fuel) reader e alerts)
      after (ok (none, reader')) same ih = rw same tt
      after (ok (some rec, reader')) same ih =
          let smaller = next_record-shrinks reader {x = rec} {r' = reader'} same in
          rw (same, process_result e (frame_of rec)) (ih reader' _ _ (omega arith))
      after (err x) same ih = rw same tt
      after panic same ih = absurd (rw same at (next_record-Returns reader))
      after diverge same ih = absurd (rw same at (next_record-Returns reader))

  abbrev pub with_alerts : Eng → List (Alert F64) → Eng
  with_alerts e alerts = record e { alerts = alerts }

  admit-with_alerts :
      (e : Eng) (frame : Frame) (a : List (Alert F64))
      → Engine.admit f flow_lru source_lru (with_alerts e a) frame
        ≡ with_alerts (Engine.admit f flow_lru source_lru e frame) a
  unfolding Engine.admit
  admit-with_alerts e frame a = ground arith

  alerts-admit :
      (e : Eng) (frame : Frame) → (Engine.admit f flow_lru source_lru e frame).alerts ≡ e.alerts
  unfolding Engine.admit
  alerts-admit e frame = ground arith

  digest-with_alerts :
      (e : Eng) (r : Outcome ParseError Packet) (a : List (Alert F64))
      → e.alerts ≡ []
      → Engine.digest f flow_lru source_lru (with_alerts e a) r
        ≡ with_alerts
            (Engine.digest f flow_lru source_lru e r)
            (a ++ (Engine.digest f flow_lru source_lru e r).alerts)
  unfolding Engine.digest Engine.track_flow Engine.apply_rules Rules.evaluate
  digest-with_alerts e (ok p) a none_yet = ground (arith, append-nil a)
  digest-with_alerts e (err x) a none_yet = ground (arith, append-nil a)
  digest-with_alerts e panic a none_yet = ground (arith, append-nil a)
  digest-with_alerts e diverge a none_yet = ground (arith, append-nil a)

  -- The alerts that an engine holds change nothing but that the new ones stand behind them.
  process-with_alerts :
      (e : Eng) (frame : Frame) (a : List (Alert F64))
      → e.alerts ≡ []
      → (Engine.process f flow_lru source_lru (with_alerts e a) frame).0
        ≡ with_alerts
            (Engine.process f flow_lru source_lru e frame).0
            (a ++ (Engine.process f flow_lru source_lru e frame).0.alerts)
  unfolding Engine.process
  process-with_alerts e frame a none_yet =
      let e' = Engine.admit f flow_lru source_lru e frame in
      rw (admit-with_alerts e frame a) (
        digest-with_alerts e' (Packet.parse e'.config.link frame) a
          (alerts-admit e frame ∙ none_yet))

  -- The loop ends with an engine and alerts that are those of a run over the frames.
  abbrev pub Replays :
      ℕ → PcapReader → Eng → List (Alert F64) → List (RecordHeader × List ℕ) → Type 0
  Replays fuel reader e alerts records =
      (last : Eng) × (all : List (Alert F64)) × (Main.replay_records f flow_lru source_lru fuel
          reader e alerts
        ≡ ok (last, all))
      × (with_alerts last all
          ≡ Run.run f flow_lru source_lru (with_alerts e alerts) (map frame_of records))

  -- Where the reader gives these records and then the end of the file, the loop of `replay`, which takes
  -- the alerts out of the engine after each record, ends with the engine and the alerts that the engine
  -- has when it takes all the frames, one after the other, and keeps its alerts.
  pub replay_records-run :
      (fuel : ℕ) (reader : PcapReader) (e : Eng) (alerts : List (Alert F64))
      (records : List (RecordHeader × List ℕ))
      → e.alerts ≡ []
      → Files.read_all fuel reader ≡ ok records
      → Replays fuel reader e alerts records
  unfolding Main.replay_records Main.map_err Files.read_all Run.run Engine.drain_alerts
  replay_records-run zero reader e alerts records none_yet read = absurd cc
  replay_records-run (suc fuel) reader e alerts records none_yet read =
      let ((next, reader'), same, rest) = >>=-eq-ok (Pcap.next_record reader) _ read in
      after next reader' same rest λ e' new others reads.
        replay_records-run fuel reader' (with_alerts e' []) new others refl reads
    where
      after :
          (next : Option (RecordHeader × List ℕ)) (reader' : PcapReader)
          → Pcap.next_record reader ≡ ok (next, reader')
          → elim next as (λ x. Outcome Pcap.PcapError (List (RecordHeader × List ℕ))) [
            | none ↦ ok []
            | some one ↦ do others ← Files.read_all fuel reader'; ok (one ∷ others)
          ]
            ≡ ok records
          → ((e' : Eng) (new : List (Alert F64)) (others : List (RecordHeader × List ℕ))
              → Files.read_all fuel reader' ≡ ok others
              → Replays fuel reader' (with_alerts e' []) new others)
          → Replays (suc fuel) reader e alerts records
      after none reader' same rest ih = (e, alerts, rw same refl, ground arith)
      after (some rec) reader' same rest ih =
          let (others, reads, whole) = >>=-eq-ok (Files.read_all fuel reader') _ rest in
          let e' = (Engine.process f flow_lru source_lru e (frame_of rec)).0 in
          let listed : rec ∷ others ≡ records = cc in
          let stepped =
            ap (λ x. Run.run f flow_lru source_lru x (map frame_of others))
              (process-with_alerts e (frame_of rec) alerts none_yet) in
          let (last, all, loops, runs) = ih e' (alerts ++ e'.alerts) others reads in
          (
            last,
            all,
            rw (same, process_result e (frame_of rec)) loops,
            runs
                ∙ sym stepped
                ∙ ap (λ l. Run.run f flow_lru source_lru (with_alerts e alerts) (map frame_of l))
                    listed,
          )

-- ===== src/Ffi/Core/Capturing.antt =====
-- core-rs/core-ffi/src/core.rs: the calls that touch the capture, and a library that counts its
-- handles.
pub mod Handles
pub mod Owning
use netmon_polyglot.Packet.Header.{LinkType}
use netmon_polyglot.Alert.{Text}
use netmon_polyglot.Prelude.{
  ◌<◌, ap, List, ◌∙◌, ◌∷◌, [], not, Bool-cases, Option, refl, zero, arith, ◌-◌, ◌≤◌, Option-cases,
  ◌+◌, Bool, ℕ, ◌≡◌, inr, inl, true, some, none,
}
use netmon_polyglot.Ffi.Core.Control
use netmon_polyglot.Ffi.Core.Reports
use netmon_polyglot.Ffi.Sniffer.{Opening, is_zero}
use netmon_polyglot.Engine
use netmon_polyglot.Ffi.Core
use netmon_polyglot.Ffi.Core.{List, LinkType, Option, ℕ, Bool, Text, NcCore}
use netmon_polyglot.Ffi.Shared
use netmon_polyglot.Ffi.Sniffer
use netmon_polyglot.Ffi.Sniffer.{SnifferLib, Sniffer}
use netmon_polyglot.Ffi.Types
use netmon_polyglot.Ffi.Types.{NcStatus, CoreError, literal, given}
use netmon_polyglot.Float.{Float}
use netmon_polyglot.Flow.{FlowKey-discrete, FlowStats}
use netmon_polyglot.Lru.{LruCache}
use netmon_polyglot.Net.{IpAddr-discrete}
use netmon_polyglot.Rules.Compiled.{SourceState}
use netmon_polyglot.Prelude.Outcome.{panic, diverge, ok, err, Outcome}

-- A call of the interface that touches the capture.
pub data Call : Type 0 where
  open_live open_file : Text → Bool → Call
  start stop poll_stats destroy : Call

abbrev pub handles_in : {H : Type 0} → Opening H → ℕ
handles_in o = elim o.raw [ none ↦ 0 | some h ↦ 1 ]

-- The library counts the handles that are open: an open call that succeeds gives a new one, one that
-- fails gives none, `close` ends one if any is open, and no
-- other call opens or closes any.
pub record Counting (lib : SnifferLib) : Type 0 where
  pub live : lib.World → ℕ
  pub live-open_live :
      (w : lib.World) (name : Text) (n : ℕ) (p : Bool)
      → live (lib.open_live w name n p).0 ≡ live w + handles_in (lib.open_live w name n p).1
  pub live-open_file :
      (w : lib.World) (name : Text)
      → live (lib.open_file w name).0 ≡ live w + handles_in (lib.open_file w name).1
  pub code_live :
      (w : lib.World) (name : Text) (n : ℕ) (p : Bool) (h : lib.Handle)
      → (lib.open_live w name n p).1.raw ≡ some h
      → is_zero (lib.open_live w name n p).1.code ≡ true
  pub code_file :
      (w : lib.World) (name : Text) (h : lib.Handle)
      → (lib.open_file w name).1.raw ≡ some h
      → is_zero (lib.open_file w name).1.code ≡ true
  pub live-close : (w : lib.World) (h : lib.Handle) → 0 < live w → live (lib.close w h) + 1 ≡ live w
  pub live-set_callback : (w : lib.World) (h : lib.Handle) → live (lib.set_callback w h).0 ≡ live w
  pub live-set_realtime :
      (w : lib.World) (h : lib.Handle) (b : Bool) → live (lib.set_realtime w h b).0 ≡ live w
  pub live-start : (w : lib.World) (h : lib.Handle) → live (lib.start w h).0 ≡ live w
  pub live-stop : (w : lib.World) (h : lib.Handle) → live (lib.stop w h).0 ≡ live w
  pub live-poll_finished :
      (w : lib.World) (h : lib.Handle) → live (lib.poll_finished w h).0 ≡ live w
  pub live-get_stats : (w : lib.World) (h : lib.Handle) → live (lib.get_stats w h).0 ≡ live w

module _ {lib : SnifferLib} (count : Counting lib) where
  open lib use {World, Handle}
  open count use {live}

  -- The handles that the result of an open call holds.
  abbrev pub held : World × Outcome CoreError (Sniffer lib) → ℕ
  held (w, ok s) = 1
  held (w, r) = 0

  module _ {f : Float} {flow_lru : LruCache FlowStats FlowKey-discrete}
      {source_lru : LruCache SourceState IpAddr-discrete} where
    -- The handle that the core holds.
    abbrev pub owned : NcCore f flow_lru source_lru lib → ℕ
    owned c = elim c.capture [ none ↦ 0 | some s ↦ 1 ]

    -- The core holds each handle that is open.
    abbrev pub IsOwned : World × NcCore f flow_lru source_lru lib → Type 0
    IsOwned (w, c) = live w ≡ owned c

    abbrev pub do_call :
        World × NcCore f flow_lru source_lru lib → Call → World × NcCore f flow_lru source_lru lib
    do_call (w, c) (open_live iface promisc) = (Core.open_live w c iface promisc).0
    do_call (w, c) (open_file path realtime) = (Core.open_file w c path realtime).0
    do_call (w, c) start = (Control.start w c).0
    do_call (w, c) stop = (Control.stop w c).0
    do_call (w, c) poll_stats = (Reports.stats w c).0
    do_call (w, c) destroy = Control.drop_core w c

    abbrev pub do_calls :
        World × NcCore f flow_lru source_lru lib
        → List Call
        → World × NcCore f flow_lru source_lru lib
    do_calls wc [] = wc
    do_calls wc (call ∷ calls) = do_calls (do_call wc call) calls

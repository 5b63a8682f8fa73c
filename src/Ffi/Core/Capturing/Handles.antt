-- ===== src/Ffi/Core/Capturing/Handles.antt =====
-- core-rs/core-ffi/src/core.rs: the handles that opening a capture gives.
use netmon_polyglot.Ffi.Core.Capturing.{Counting, held, handles_in}
use netmon_polyglot.Alert.{Text}
use netmon_polyglot.Prelude.{arith, ◌≤◌, Option-cases, ◌+◌, Bool, ℕ, ◌≡◌, inr, inl, true, some}
use netmon_polyglot.Ffi.Sniffer.{Opening, is_zero}
use netmon_polyglot.Ffi.Core
use netmon_polyglot.Ffi.Core.{List, LinkType, Option, ℕ, Bool, Text, NcCore}
use netmon_polyglot.Ffi.Sniffer
use netmon_polyglot.Ffi.Sniffer.{SnifferLib, Sniffer}
use netmon_polyglot.Ffi.Types.{CoreError}
use netmon_polyglot.Prelude.Outcome.{panic, diverge, ok, err, Outcome}

module _ {lib : SnifferLib} (count : Counting lib) where
  open lib use {World, Handle}
  open count use {live}

  live-opened :
      (w : World) (o : Opening Handle)
      → ((h : Handle) → o.raw ≡ some h → is_zero o.code ≡ true)
      → held count (w, Sniffer.opened {lib = lib} o) ≡ handles_in o
  unfolding Sniffer.opened
  live-opened w o code = elim (Option-cases o.raw) [
    | inl empty ↦ ground (arith, empty)
    | inr (h, at) ↦ ground (arith, at, code h at)
  ]

  pub live-Sniffer_open_live :
      (w : World) (iface : Text) (n : ℕ) (p : Bool)
      → let r = Sniffer.open_live {lib = lib} w iface n p in live r.0 ≡ live w + held count r
  unfolding Sniffer.open_live Sniffer.c_string
  live-Sniffer_open_live w iface n p = ground (
    arith,
    count.live-open_live w iface n p,
    live-opened (lib.open_live w iface n p).0 (lib.open_live w iface n p).1
        (count.code_live w iface n p),
  )

  live-Sniffer_open_file :
      (w : World) (path : Text)
      → let r = Sniffer.open_file {lib = lib} w path in live r.0 ≡ live w + held count r
  unfolding Sniffer.open_file Sniffer.c_string
  live-Sniffer_open_file w path = ground (
    arith,
    count.live-open_file w path,
    live-opened (lib.open_file w path).0 (lib.open_file w path).1 (count.code_file w path),
  )

  pub live-with_realtime :
      (b : Bool) (r : World × Outcome CoreError (Sniffer lib))
      → held count r ≤ live r.0
      → live (Core.with_realtime b r).0 + held count r
        ≡ live r.0 + held count (Core.with_realtime b r)
  unfolding Core.with_realtime Sniffer.set_realtime Sniffer.close
  live-with_realtime b (w, ok s) some_live = ground (
    arith,
    count.live-set_realtime w s.raw b,
    count.live-close (lib.set_realtime w s.raw b).0 s.raw
        (omega (arith, some_live, count.live-set_realtime w s.raw b)),
  )
  live-with_realtime b (w, err e) some_live = omega arith
  live-with_realtime b (w, panic) some_live = omega arith
  live-with_realtime b (w, diverge) some_live = omega arith

  pub paced :
      (w : World) (path : Text) (b : Bool)
      → let r = Core.with_realtime b (Sniffer.open_file {lib = lib} w path) in
        live r.0 ≡ live w + held count r
  paced w path b = omega (
    arith,
    live-Sniffer_open_file w path,
    live-with_realtime b (Sniffer.open_file w path) (omega (arith, live-Sniffer_open_file w path)),
  )

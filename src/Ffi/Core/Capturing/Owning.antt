-- ===== src/Ffi/Core/Capturing/Owning.antt =====
-- core-rs/core-ffi/src/core.rs: the handles that are open, over the calls.
use netmon_polyglot.Ffi.Core.Capturing.{
  Counting, held, IsOwned, Call, do_call, do_calls, open_live, open_file, start, stop, poll_stats,
  destroy,
}
use netmon_polyglot.Ffi.Core.Capturing.Handles.{paced, live-Sniffer_open_live}
use netmon_polyglot.Packet.Header.{LinkType}
use netmon_polyglot.Alert.{Text}
use netmon_polyglot.Prelude.{
  List, ◌∙◌, ◌∷◌, [], Bool-cases, Option, refl, arith, Option-cases, ◌+◌, Bool, ◌≡◌, inr, inl, some,
  none,
}
use netmon_polyglot.Ffi.Core.Control
use netmon_polyglot.Ffi.Core.Reports
use netmon_polyglot.Ffi.Sniffer.{Opening, is_zero}
use netmon_polyglot.Ffi.Core
use netmon_polyglot.Ffi.Core.{List, LinkType, Option, ℕ, Bool, Text, NcCore}
use netmon_polyglot.Ffi.Sniffer
use netmon_polyglot.Ffi.Sniffer.{SnifferLib, Sniffer}
use netmon_polyglot.Ffi.Types.{CoreError}
use netmon_polyglot.Float.{Float}
use netmon_polyglot.Flow.{FlowKey-discrete, FlowStats}
use netmon_polyglot.Lru.{LruCache}
use netmon_polyglot.Net.{IpAddr-discrete}
use netmon_polyglot.Rules.Compiled.{SourceState}
use netmon_polyglot.Prelude.Outcome.{panic, diverge, ok, err, Outcome}

module _ {lib : SnifferLib} (count : Counting lib) where
  open lib use {World, Handle}
  open count use {live}

  module _ {f : Float} {flow_lru : LruCache FlowStats FlowKey-discrete}
      {source_lru : LruCache SourceState IpAddr-discrete} where
    attach-IsOwned :
        (w : World) (c : NcCore f flow_lru source_lru lib) (s : Sniffer lib)
        → live w ≡ 1
        → c.capture ≡ none
        → IsOwned count (Core.attach w c s).0
    unfolding Core.attach Core.attached Sniffer.set_callback Sniffer.close
    attach-IsOwned w c s one empty = ground (
      arith,
      one,
      empty,
      count.live-set_callback w s.raw,
      count.live-close (lib.set_callback w s.raw).0 s.raw
          (omega (arith, one, count.live-set_callback w s.raw)),
    )

    adopt_link-IsOwned :
        (w : World) (c : NcCore f flow_lru source_lru lib) (s : Sniffer lib)
        (link : Option LinkType)
        → live w ≡ 1
        → c.capture ≡ none
        → IsOwned count (Core.adopt_link w c s link).0
    unfolding Core.adopt_link Sniffer.close
    adopt_link-IsOwned w c s none one empty =
        ground (arith, one, empty, count.live-close w s.raw (omega (arith, one)))
    adopt_link-IsOwned w c s (some link) one empty = attach-IsOwned w _ s one empty

    adopt_opened-IsOwned :
        (r : World × Outcome CoreError (Sniffer lib)) (c : NcCore f flow_lru source_lru lib)
        → live r.0 ≡ held count r
        → c.capture ≡ none
        → IsOwned count (Core.adopt_opened r c).0
    unfolding Core.adopt_opened Core.adopt
    adopt_opened-IsOwned (w, ok s) c one empty = adopt_link-IsOwned w c s _ one empty
    adopt_opened-IsOwned (w, err e) c gone empty = ground (arith, gone, empty)
    adopt_opened-IsOwned (w, panic) c gone empty = ground (arith, gone, empty)
    adopt_opened-IsOwned (w, diverge) c gone empty = ground (arith, gone, empty)

    live-close_capture :
        (w : World) (c : NcCore f flow_lru source_lru lib)
        → IsOwned count (w, c)
        → live (Sniffer.close w c.capture) ≡ 0
    unfolding Sniffer.close
    live-close_capture w c own = elim (Option-cases c.capture) [
      | inl empty ↦ ground (arith, own, empty)
      | inr (s, at) ↦ ground (arith, own, at, count.live-close w s.raw (ground (arith, own, at)))
    ]

    install-IsOwned :
        (w : World) (c : NcCore f flow_lru source_lru lib)
        (open_it : World → World × Outcome CoreError (Sniffer lib))
        → ((w' : World) → live (open_it w').0 ≡ live w' + held count (open_it w'))
        → IsOwned count (w, c)
        → IsOwned count (Core.install w c open_it).0
    unfolding Core.install
    install-IsOwned w c open_it counted own = elim (Bool-cases (Core.is_capturing c)) [
      | inl busy ↦ rw busy own
      | inr idle ↦ rw idle (
          adopt_opened-IsOwned (open_it (Sniffer.close w c.capture)) (record c { capture = none })
            (omega (arith, counted (Sniffer.close w c.capture), live-close_capture w c own)) refl)
    ]

    open_live-IsOwned :
        (w : World) (c : NcCore f flow_lru source_lru lib) (iface : Text) (promisc : Bool)
        → IsOwned count (w, c)
        → IsOwned count (Core.open_live w c iface promisc).0
    unfolding Core.open_live
    open_live-IsOwned w c iface promisc own =
        install-IsOwned w c _ (λ w'. live-Sniffer_open_live count w' iface c.snaplen promisc) own

    open_file-IsOwned :
        (w : World) (c : NcCore f flow_lru source_lru lib) (path : Text) (b : Bool)
        → IsOwned count (w, c)
        → IsOwned count (Core.open_file w c path b).0
    unfolding Core.open_file
    open_file-IsOwned w c path b own = install-IsOwned w c _ (λ w'. paced count w' path b) own

    start-IsOwned :
        (w : World) (c : NcCore f flow_lru source_lru lib)
        → IsOwned count (w, c)
        → IsOwned count (Control.start w c).0
    unfolding Control.start Sniffer.start
    start-IsOwned w c own = elim (Option-cases c.capture) [
      | inl empty ↦ ground (arith, own, empty)
      | inr (s, at) ↦ ground (arith, own, at, count.live-start w s.raw)
    ]

    stop-IsOwned :
        (w : World) (c : NcCore f flow_lru source_lru lib)
        → IsOwned count (w, c)
        → IsOwned count (Control.stop w c).0
    unfolding Control.stop Sniffer.stop
    stop-IsOwned w c own = elim (Option-cases c.capture) [
      | inl empty ↦ ground (arith, own, empty)
      | inr (s, at) ↦ ground (arith, own, at, count.live-stop w s.raw)
    ]

    capture_state-IsOwned :
        (w : World) (c : NcCore f flow_lru source_lru lib) (s : Sniffer lib)
        → IsOwned count (w, c)
        → IsOwned count (Reports.capture_state w c s).0
    unfolding Reports.capture_state Sniffer.finished
    capture_state-IsOwned w c s own = ground (arith, own, count.live-poll_finished w s.raw)

    stats-IsOwned :
        (w : World) (c : NcCore f flow_lru source_lru lib)
        → IsOwned count (w, c)
        → IsOwned count (Reports.stats w c).0
    unfolding Reports.stats Sniffer.stats
    stats-IsOwned w c own = elim (Option-cases c.capture) [
      | inl empty ↦ ground (arith, own, empty)
      | inr (s, at) ↦ ground (
        arith,
        own,
        at,
        capture_state-IsOwned (lib.get_stats w s.raw).0 c s (count.live-get_stats w s.raw ∙ own),
      )
    ]

    destroy-IsOwned :
        (w : World) (c : NcCore f flow_lru source_lru lib)
        → IsOwned count (w, c)
        → IsOwned count (Control.drop_core w c)
    unfolding Control.drop_core
    destroy-IsOwned w c own = live-close_capture w c own

    do_call-IsOwned :
        (wc : World × NcCore f flow_lru source_lru lib) (call : Call)
        → IsOwned count wc
        → IsOwned count (do_call count wc call)
    do_call-IsOwned (w, c) (open_live iface promisc) own = open_live-IsOwned w c iface promisc own
    do_call-IsOwned (w, c) (open_file path realtime) own = open_file-IsOwned w c path realtime own
    do_call-IsOwned (w, c) start own = start-IsOwned w c own
    do_call-IsOwned (w, c) stop own = stop-IsOwned w c own
    do_call-IsOwned (w, c) poll_stats own = stats-IsOwned w c own
    do_call-IsOwned (w, c) destroy own = destroy-IsOwned w c own

    -- With a library that counts its handles: if the core holds each open handle, it does so after any
    -- sequence of calls, those that fail included. So no handle leaks, and there is never more than one.
    pub do_calls-IsOwned :
        (wc : World × NcCore f flow_lru source_lru lib) (calls : List Call)
        → IsOwned count wc
        → IsOwned count (do_calls count wc calls)
    do_calls-IsOwned wc [] own = own
    do_calls-IsOwned wc (call ∷ calls) own =
        do_calls-IsOwned (do_call count wc call) calls (do_call-IsOwned wc call own)

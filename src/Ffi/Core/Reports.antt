-- ===== src/Ffi/Core/Reports.antt =====
-- core-rs/core-ffi/src/core.rs: what the user interface polls.
use netmon_polyglot.Alert.{Alert}
use netmon_polyglot.Prelude.{length, List, Option, ℕ, if◌then◌else◌, ◌∷◌, some, none, []}
use netmon_polyglot.Ffi.Analytics
use netmon_polyglot.Link
use netmon_polyglot.Link.{LinkState}
use netmon_polyglot.Flow.Table
use netmon_polyglot.Flow.Table.Top
use netmon_polyglot.Ffi.Types.{NcStats, NcFlow, NcCaptureState, NcAnalyticsState, ErrorText}
use netmon_polyglot.Ffi.Core.{ℕ, List, Option, NcCore}
use netmon_polyglot.Ffi.Shared
use netmon_polyglot.Ffi.Sniffer
use netmon_polyglot.Ffi.Sniffer.{SnifferLib, Sniffer}
use netmon_polyglot.Ffi.Types
use netmon_polyglot.Ffi.Types.{NcStatus, CoreError, literal, given}
use netmon_polyglot.Float.{Float}
use netmon_polyglot.Flow.{FlowKey, FlowKey-discrete, FlowStats}
use netmon_polyglot.Lru.{LruCache}
use netmon_polyglot.Net.{IpAddr-discrete}
use netmon_polyglot.Rules.Compiled.{alert, SourceState}
use netmon_polyglot.Prelude.Outcome.{panic, diverge, ok, err, Outcome}

-- `NcAnalyticsState` of the link's state
unfoldable pub analytics_state : LinkState → NcAnalyticsState
analytics_state LinkState.connected = NcAnalyticsState.connected
analytics_state LinkState.connecting = NcAnalyticsState.connecting
analytics_state LinkState.disconnected = NcAnalyticsState.connecting

module _ {F : Type 0} where
  unfoldable pub with_analytics : NcStats → Option (Analytics.Analytics F) → NcStats
  unfolding analytics_state
  with_analytics out none = out
  with_analytics out (some a) = record out {
    analytics_state = Types.analytics_code (analytics_state (Link.state a.link));
    analytics_sent = a.link.counters.sent;
    analytics_dropped = a.link.counters.dropped;
  }

-- The slots, of which the first are overwritten.
unfoldable pub fill : {A : Type 0} → List A → List A → List A
fill [] xs = []
fill (slot ∷ slots) [] = slot ∷ slots
fill (slot ∷ slots) (x ∷ xs) = x ∷ fill slots xs

unfoldable pub nc_flows : List (FlowKey × FlowStats) → List NcFlow
nc_flows [] = []
nc_flows ((key, stats) ∷ flows) = Types.nc_flow key stats ∷ nc_flows flows

-- `.map(|st| st.dropped).unwrap_or(0)`
unfoldable pub dropped_of : Outcome CoreError ℕ → ℕ
dropped_of (ok n) = n
dropped_of r = 0

module _ {f : Float} {flow_lru : LruCache FlowStats FlowKey-discrete}
    {source_lru : LruCache SourceState IpAddr-discrete} {lib : SnifferLib} where
  open f use {F64}
  open lib use {World}

  -- `capture_state`; the message of a failed capture is kept as the last error.
  unfoldable pub capture_state :
      World
      → NcCore f flow_lru source_lru lib
      → Sniffer lib
      → (World × NcCore f flow_lru source_lru lib) × NcCaptureState
  capture_state w c s =
      if s.running
      then (let (w', done) = Sniffer.finished w s in
          elim done [
            | none ↦ ((w', c), NcCaptureState.running)
            | some r ↦ elim r [
              | ok u ↦ ((w', c), NcCaptureState.finished)
              | err e ↦ ((w', record c { last_error = e.message }), NcCaptureState.failed)
              | panic ↦ ((w', c), NcCaptureState.failed)
              | diverge ↦ ((w', c), NcCaptureState.failed)
            ]
          ])
      else ((w, c), NcCaptureState.idle)

  unfoldable pub engine_stats : NcCore f flow_lru source_lru lib → NcStats
  engine_stats c =
      let e = c.shared.engine in
      record (Types.from_counters e.counters) {
        rules_loaded = elim e.rules [ none ↦ 0 | some rules ↦ length rules ];
        active_flows = Table.len flow_lru e.flows;
        evicted_flows = e.flows.evicted;
        expired_flows = e.flows.expired;
        last_ts_us = e.last_ts_us;
        alerts_total = c.shared.alerts_total;
        alerts_dropped = c.shared.alerts_dropped;
      }

  unfoldable pub stats :
      World
      → NcCore f flow_lru source_lru lib
      → (World × NcCore f flow_lru source_lru lib) × NcStats
  unfolding engine_stats with_analytics capture_state dropped_of
  stats w c =
      let out = with_analytics (engine_stats c) c.analytics in
      elim c.capture [
        | none ↦ ((w, c), out)
        | some s ↦
            let (w', dropped) = Sniffer.stats w s in
            let (wc, state) = capture_state w' c s in
            (
              wc,
              record out {
                capture_dropped = dropped_of dropped;
                capture_state = Types.capture_code state;
              },
            )
      ]

  -- The slots, and how many were written.
  unfoldable pub top_flows : NcCore f flow_lru source_lru lib → List NcFlow → List NcFlow × ℕ
  unfolding fill nc_flows
  top_flows c out =
      let top = Top.top_by_bytes flow_lru c.shared.engine.flows (length out) in
      (fill out (nc_flows top), length top)

  unfoldable pub pop_alert :
      NcCore f flow_lru source_lru lib → NcCore f flow_lru source_lru lib × Option (Alert F64)
  pop_alert c = let (s, alert) = Shared.pop_alert c.shared in (record c { shared = s }, alert)

  unfoldable pub set_error :
      NcCore f flow_lru source_lru lib → ErrorText → NcCore f flow_lru source_lru lib
  set_error c message = record c { last_error = message }

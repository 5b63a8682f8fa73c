-- ===== src/Ffi/Api/Calls.antt =====
-- core-rs/core-ffi/src/lib.rs: the exported functions that take a core.
use netmon_polyglot.Ffi.Api.{Bool, Option}
use netmon_polyglot.Prelude.{
  take, if◌then◌else◌, ◌==◌, max, not, List, min, ℕ, Bool, Option, some, none, [],
}
use netmon_polyglot.Ffi.Api
use netmon_polyglot.Ffi.Core
use netmon_polyglot.Ffi.Core.{NcCore}
use netmon_polyglot.Ffi.Core.Control
use netmon_polyglot.Ffi.Sniffer.{SnifferLib}
use netmon_polyglot.Ffi.Types
use netmon_polyglot.Ffi.Types.{NcStatus, NcConfig, NcStats, NcFlow, CoreError, ErrorText}
use netmon_polyglot.Float.{Float}
use netmon_polyglot.Flow.{FlowKey-discrete, FlowStats}
use netmon_polyglot.Lru.{LruCache}
use netmon_polyglot.Net.{IpAddr-discrete}
use netmon_polyglot.Rules.Compiled.{SourceState}
use netmon_polyglot.Rules.Spec.{RuleError, Yaml}
use netmon_polyglot.Alert.{Text}
use netmon_polyglot.Prelude.Int.{ℤ, pos}
use netmon_polyglot.Prelude.Outcome.{panic, diverge, ok, err, Outcome, ◌>>=◌, ◌>>◌}

-- `i32::try_from(n).unwrap_or(i32::MAX)`
unfoldable pub to_i32 : ℕ → ℤ
to_i32 n = pos (min n 0x7fff_ffff)

-- `ok()` after a call that gives nothing.
unfoldable pub ok_code : Outcome CoreError (Unit {0}) → Outcome CoreError ℤ
ok_code r = r >> ok (Types.status_code NcStatus.ok_status)

-- The bytes behind `data`, whose memory is given: none are read when `caplen` is 0.
unfoldable pub packet_bytes : Option (List ℕ) → ℕ → Outcome CoreError (List ℕ)
packet_bytes memory caplen =
    if caplen == 0
    then ok []
    else elim memory [ none ↦ err (Api.null_arg "data") | some bytes ↦ ok (take caplen bytes) ]

module _ {f : Float} {flow_lru : LruCache FlowStats FlowKey-discrete}
    {source_lru : LruCache SourceState IpAddr-discrete} {lib : SnifferLib} where
  open f use {F64}
  open lib use {World}

  -- The core is fed once there are bytes.
  unfoldable pub feed_bytes :
      World
      → NcCore f flow_lru source_lru lib
      → ℕ
      → ℕ
      → Outcome CoreError (List ℕ)
      → (World × NcCore f flow_lru source_lru lib) × Option (Unit {0}) × Outcome CoreError ℤ
  unfolding ok_code
  feed_bytes w c ts_us wire_len (ok bytes) =
      let (c', r) = Core.feed c ts_us bytes wire_len in ((w, c'), none, ok_code r)
  feed_bytes w c ts_us wire_len (err e) = ((w, c), none, err e)
  feed_bytes w c ts_us wire_len panic = ((w, c), none, panic)
  feed_bytes w c ts_us wire_len diverge = ((w, c), none, diverge)

  unfoldable pub core_feed_packet :
      World
      → Option (NcCore f flow_lru source_lru lib)
      → ℕ
      → Option (List ℕ)
      → ℕ
      → ℕ
      → (World × Option (NcCore f flow_lru source_lru lib)) × Option (Unit {0}) × Option ℤ
  unfolding packet_bytes feed_bytes
  core_feed_packet w core ts_us memory caplen wire_len =
      Api.guarded w core
        (λ w' c. feed_bytes w' c ts_us (max wire_len caplen) (packet_bytes memory caplen))

  -- A call with a text: the rest is done with the text, if it is one.
  unfoldable pub with_text :
      World
      → NcCore f flow_lru source_lru lib
      → Outcome CoreError Text
      → (Text → (World × NcCore f flow_lru source_lru lib) × Outcome CoreError (Unit {0}))
      → (World × NcCore f flow_lru source_lru lib) × Option (Unit {0}) × Outcome CoreError ℤ
  unfolding ok_code
  with_text w c (ok text) rest = let (wc, r) = rest text in (wc, none, ok_code r)
  with_text w c (err e) rest = ((w, c), none, err e)
  with_text w c panic rest = ((w, c), none, panic)
  with_text w c diverge rest = ((w, c), none, diverge)

  unfoldable pub core_open_live :
      (Text → Bool)
      → World
      → Option (NcCore f flow_lru source_lru lib)
      → Option Text
      → ℕ
      → (World × Option (NcCore f flow_lru source_lru lib)) × Option (Unit {0}) × Option ℤ
  unfolding with_text
  core_open_live valid w core iface promisc = Api.guarded w core (λ w' c.
      with_text w' c (Api.utf8_arg valid iface "iface")
        (λ name. Core.open_live w' c name (not (promisc == 0))))

  unfoldable pub core_open_file :
      (Text → Bool)
      → World
      → Option (NcCore f flow_lru source_lru lib)
      → Option Text
      → ℕ
      → (World × Option (NcCore f flow_lru source_lru lib)) × Option (Unit {0}) × Option ℤ
  unfolding with_text
  core_open_file valid w core path realtime = Api.guarded w core (λ w' c.
      with_text w' c (Api.utf8_arg valid path "path")
        (λ name. Core.open_file w' c name (not (realtime == 0))))

  -- The loaded rules are counted.
  unfoldable pub load_text :
      (Text → Yaml F64)
      → (RuleError → Text)
      → (Text → Option Text)
      → World
      → NcCore f flow_lru source_lru lib
      → Outcome CoreError Text
      → (World × NcCore f flow_lru source_lru lib) × Option (Unit {0}) × Outcome CoreError ℤ
  unfolding to_i32
  load_text from_str to_text contents w c (ok path) =
      let (c', r) = Control.load_rules from_str to_text (contents path) c in
      ((w, c'), none, r >>= λ active. ok (to_i32 active))
  load_text from_str to_text contents w c (err e) = ((w, c), none, err e)
  load_text from_str to_text contents w c panic = ((w, c), none, panic)
  load_text from_str to_text contents w c diverge = ((w, c), none, diverge)

  -- `contents` is what the file system gives for a path.
  unfoldable pub core_load_rules :
      (Text → Yaml F64)
      → (RuleError → Text)
      → (Text → Option Text)
      → (Text → Bool)
      → World
      → Option (NcCore f flow_lru source_lru lib)
      → Option Text
      → (World × Option (NcCore f flow_lru source_lru lib)) × Option (Unit {0}) × Option ℤ
  unfolding load_text
  core_load_rules from_str to_text contents valid w core path =
      Api.guarded w core
        (λ w' c. load_text from_str to_text contents w' c (Api.utf8_arg valid path "path"))

  -- `link_error` and `thread_error` are what is wrong with a link to an endpoint, and with a thread.
  unfoldable pub core_connect_analytics :
      (Text → Option Text)
      → Option Text
      → (Text → Bool)
      → World
      → Option (NcCore f flow_lru source_lru lib)
      → Option Text
      → (World × Option (NcCore f flow_lru source_lru lib)) × Option (Unit {0}) × Option ℤ
  unfolding with_text
  core_connect_analytics link_error thread_error valid w core endpoint = Api.guarded w core (λ w' c.
      with_text w' c (Api.utf8_arg valid endpoint "endpoint") (λ text.
        let (c', r) = Control.connect_analytics (link_error text) thread_error c in ((w', c'), r)))

  unfoldable pub core_disconnect_analytics :
      World
      → Option (NcCore f flow_lru source_lru lib)
      → (World × Option (NcCore f flow_lru source_lru lib)) × Option (Unit {0}) × Option ℤ
  unfolding ok_code
  core_disconnect_analytics w core =
      Api.guarded w core (λ w' c. ((w', Control.disconnect_analytics c), none, ok_code (ok tt)))

  unfoldable pub core_start :
      World
      → Option (NcCore f flow_lru source_lru lib)
      → (World × Option (NcCore f flow_lru source_lru lib)) × Option (Unit {0}) × Option ℤ
  unfolding ok_code
  core_start w core =
      Api.guarded w core (λ w' c. (let (wc, r) = Control.start w' c in (wc, none, ok_code r)))

  unfoldable pub core_stop :
      World
      → Option (NcCore f flow_lru source_lru lib)
      → (World × Option (NcCore f flow_lru source_lru lib)) × Option (Unit {0}) × Option ℤ
  unfolding ok_code
  core_stop w core =
      Api.guarded w core (λ w' c. (let (wc, r) = Control.stop w' c in (wc, none, ok_code r)))

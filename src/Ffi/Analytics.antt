-- ===== src/Ffi/Analytics.antt =====
-- core-rs/core-ffi/src/analytics.rs: the exporter, which sends what changed in the flow table to the
-- analytics service, and turns the scores that come back into alerts, at most one per host in a while.
-- How an address is printed and read is the standard library's: a parameter.
pub mod Cooldowns
pub mod Orientation
pub mod Exports
use netmon_polyglot.Prelude.Outcome.{ok, err, Outcome}
use netmon_polyglot.Prelude.Words.{add64}
use netmon_polyglot.Rules.Compiled.{SourceState}
use Prim.Native.Nat.{compare}
use netmon_polyglot.Lru.{LruCache}
use netmon_polyglot.Flow.{
  duration_us, count_of, FlowKey-discrete, Direction, Endpoint, FlowStats, FlowKey,
}
use netmon_polyglot.Float.{Float}
use netmon_polyglot.Net.{IpAddr-discrete, IpAddr}
use netmon_polyglot.Prelude.{
  take, ◌-◌, ◌&&◌, length, leb, ltb, Bool, if◌then◌else◌, List, Option, ℕ, ◌∷◌, false, true, some,
  none, [],
}
use netmon_polyglot.Lru.Entries.{lookup, remove}
use netmon_polyglot.Rules.Spec.{Text-discrete}
use netmon_polyglot.Ffi.Types.{NcStatus, CoreError, given}
use netmon_polyglot.Link
use netmon_polyglot.Link.{Link, LinkState, is_connected}
use netmon_polyglot.Engine
use netmon_polyglot.Engine.{Engine}
use netmon_polyglot.Flow.Table
use netmon_polyglot.Flow.{Direction, a_to_b, b_to_a}
use netmon_polyglot.Ffi.Shared
use netmon_polyglot.Ffi.Shared.{Shared}
use netmon_polyglot.Alert.{
  Text, Alert, Message, of_anomaly, AlertSource, Severity, anomaly, high, medium,
}

abbrev pub max_flows_per_batch : ℕ
max_flows_per_batch = 20_000

abbrev pub anomaly_cooldown_us : ℕ
anomaly_cooldown_us = 15_000_000

abbrev pub max_cooldown_hosts : ℕ
max_cooldown_hosts = 10_000

-- `"ml-anomaly"`
abbrev pub anomaly_rule_id : Text
anomaly_rule_id = 109 ∷ 108 ∷ 45 ∷ 97 ∷ 110 ∷ 111 ∷ 109 ∷ 97 ∷ 108 ∷ 121 ∷ []

-- `Display` and `FromStr` of `IpAddr`.
pub record IpText : Type 0 where
  pub show : IpAddr → Text
  pub read : Text → Option IpAddr

-- The messages of contracts/analytics.proto.
pub record FlowFeatures : Type 0 where
  pub src : Text
  pub dst : Text
  pub src_port : ℕ
  pub dst_port : ℕ
  pub proto : ℕ
  pub packets_fwd : ℕ
  pub packets_rev : ℕ
  pub bytes_fwd : ℕ
  pub bytes_rev : ℕ
  pub duration_us : ℕ
  pub tcp_flags : ℕ
  pub last_seen_us : ℕ

pub record FlowBatch : Type 0 where
  pub batch_id : ℕ
  pub window_end_us : ℕ
  pub flows : List FlowFeatures

pub record AnomalyScore (F : Type 0) : Type 0 where
  pub batch_id : ℕ
  pub host : Text
  pub score : F
  pub threshold : F
  pub reason : Text
  pub ts_us : ℕ

-- When the last alert of each host was.
pub record Cooldown : Type 0 where
  pub last_alert_us : List (Text × ℕ)

-- `Some(&last) if ts_us >= last && ts_us - last < ANOMALY_COOLDOWN_US`
unfoldable pub is_cooling : Option ℕ → ℕ → Bool
is_cooling none ts_us = false
is_cooling (some last) ts_us = leb last ts_us && ltb (ts_us - last) anomaly_cooldown_us

-- The map, cleared if it is full.
unfoldable pub cleared_if_full : List (Text × ℕ) → List (Text × ℕ)
cleared_if_full hosts = if leb max_cooldown_hosts (length hosts) then [] else hosts

unfoldable pub admit : Cooldown → Text → ℕ → Cooldown × Bool
unfolding is_cooling cleared_if_full
admit c host ts_us =
    if is_cooling (lookup Text-discrete host c.last_alert_us) ts_us then (c, false) else (
      record {
        last_alert_us = (host, ts_us) ∷ remove Text-discrete host (cleared_if_full c.last_alert_us);
      },
      true,
    )

unfoldable pub client_is_b : FlowKey → FlowStats → Bool
client_is_b key stats =
    if ltb key.a.port key.b.port
    then true
    else if ltb key.b.port key.a.port
    then false
    else ltb stats.packets.ab stats.packets.ba

-- The features with the client's end, the server's end, and their counts.
unfoldable pub oriented :
    IpText → FlowKey → FlowStats → Endpoint → Endpoint → Direction → Direction → FlowFeatures
oriented ip key stats client server fwd rev = record {
  src = ip.show client.addr;
  dst = ip.show server.addr;
  src_port = client.port;
  dst_port = server.port;
  proto = key.proto;
  packets_fwd = count_of stats.packets fwd;
  packets_rev = count_of stats.packets rev;
  bytes_fwd = count_of stats.bytes fwd;
  bytes_rev = count_of stats.bytes rev;
  duration_us = duration_us stats;
  tcp_flags = stats.tcp_flags;
  last_seen_us = stats.last_seen_us;
}

unfoldable pub features : IpText → FlowKey → FlowStats → FlowFeatures
unfolding oriented client_is_b
features ip key stats =
    if client_is_b key stats
    then oriented ip key stats key.b key.a b_to_a a_to_b
    else oriented ip key stats key.a key.b a_to_b b_to_a

-- `.filter(|(_, s)| s.last_seen_us > since)`
unfoldable pub seen_since : ℕ → List (FlowKey × FlowStats) → List (FlowKey × FlowStats)
seen_since since [] = []
seen_since since ((key, stats) ∷ flows) =
    let rest = seen_since since flows in
    if ltb since stats.last_seen_us then (key, stats) ∷ rest else rest

unfoldable pub features_of : IpText → List (FlowKey × FlowStats) → List FlowFeatures
features_of ip [] = []
features_of ip ((key, stats) ∷ flows) = features ip key stats ∷ features_of ip flows

pub record Exporter : Type 0 where
  pub last_export_us : ℕ
  pub batch_id : ℕ
  pub cooldown : Cooldown

abbrev pub new_exporter : Exporter
new_exporter = record { last_export_us = 0; batch_id = 0; cooldown = record { last_alert_us = [] } }

-- The link and the exporter's thread; the thread ends when the stop flag is set.
pub record Analytics (F : Type 0) : Type 0 where
  pub link : Link FlowBatch (AnomalyScore F)
  pub exporter : Exporter

-- `Analytics::start`: what is wrong with the new link, and with the exporter's thread, if anything is.
unfoldable pub start : {F : Type 0} → Option Text → Option Text → Outcome CoreError (Analytics F)
start (some e) thread_error = err (record { status = NcStatus.invalid_arg; message = given e })
start none (some e) = err (record { status = NcStatus.capture; message = given e })
start none none = ok (record { link = Link.start; exporter = new_exporter })

-- The start of the window; 0 when the capture's time went back.
unfoldable pub window_start : Exporter → ℕ → ℕ
window_start x last_ts_us = if ltb last_ts_us x.last_export_us then 0 else x.last_export_us

-- The end of `export`, with the flows that were collected.
unfoldable pub batch_of :
    IpText → Exporter → ℕ → ℕ → List (FlowKey × FlowStats) → Exporter × Option FlowBatch
unfolding features_of
batch_of ip x start window_end [] = (record x { last_export_us = start }, none)
batch_of ip x start window_end (flow ∷ flows) = (
  record x { last_export_us = window_end; batch_id = add64 x.batch_id 1 },
  some (record {
    batch_id = add64 x.batch_id 1;
    window_end_us = window_end;
    flows = features_of ip (flow ∷ flows);
  }),
)

module _ (f : Float) where
  open f use {F64}

  -- `score.score >= score.threshold + HIGH_SEVERITY_MARGIN`
  unfoldable pub anomaly_severity : AnomalyScore F64 → Severity
  anomaly_severity score =
      if f.ge score.score (f.add score.threshold (f.decimal 1 1)) then high else medium

  unfoldable pub to_alert : IpText → AnomalyScore F64 → Alert F64
  unfolding anomaly_severity
  to_alert ip score = record {
    ts_us = score.ts_us;
    source = anomaly;
    severity = anomaly_severity score;
    rule_id = anomaly_rule_id;
    message = of_anomaly score.host score.score score.reason;
    src = ip.read score.host;
    score = score.score;
  }

-- `self.link.offer(…)`, if there is a batch.
unfoldable pub offer_next :
    {S : Type 0} → Link FlowBatch S → LinkState → Option FlowBatch → Link FlowBatch S
offer_next link seen none = link
offer_next link seen (some batch) = (Link.offer_batch link seen batch).0

module _ (ip : IpText) {f : Float} {flow_lru : LruCache FlowStats FlowKey-discrete}
    {source_lru : LruCache SourceState IpAddr-discrete} where
  open f use {F64}

  -- The batch of what was seen since the last export, if anything was.
  unfoldable pub next_batch : Exporter → Engine f flow_lru source_lru → Exporter × Option FlowBatch
  unfolding window_start seen_since batch_of
  next_batch x engine =
      let start = window_start x engine.last_ts_us in
      batch_of ip x start engine.last_ts_us
        (take max_flows_per_batch (seen_since start (Table.iter flow_lru engine.flows)))

  -- `export`; `seen` is the link's state at its start, `then_seen` what `offer` reads.
  unfoldable pub export :
      Exporter
      → Engine f flow_lru source_lru
      → Link FlowBatch (AnomalyScore F64)
      → LinkState
      → LinkState
      → Exporter × Link FlowBatch (AnomalyScore F64)
  unfolding next_batch offer_next
  export x engine link seen then_seen =
      if is_connected seen
      then (let (x', batch) = next_batch x engine in (x', offer_next link then_seen batch))
      else (x, link)

  -- The scores that have come, through the cooldown, into the queue of alerts.
  unfoldable pub push_scores :
      Cooldown
      → Shared f flow_lru source_lru
      → List (AnomalyScore F64)
      → Cooldown × Shared f flow_lru source_lru
  unfolding admit to_alert
  push_scores c s [] = (c, s)
  push_scores c s (score ∷ scores) =
      let (c', admitted) = admit c score.host score.ts_us in
      push_scores c' (if admitted then Shared.push_alert s (to_alert f ip score) else s) scores

  -- A round of the loop in `run`, after `sleep_interval` has returned true.
  unfoldable pub round :
      Exporter
      → Shared f flow_lru source_lru
      → Link FlowBatch (AnomalyScore F64)
      → LinkState
      → LinkState
      → Exporter × Shared f flow_lru source_lru × Link FlowBatch (AnomalyScore F64)
  unfolding export push_scores
  round x s link seen then_seen =
      let (x', link') = export x s.engine link seen then_seen in
      let (link'', scores) = Link.drain link' in
      let (c, s') = push_scores x'.cooldown s scores in (record x' { cooldown = c }, s', link'')

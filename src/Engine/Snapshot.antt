-- ===== src/Engine/Snapshot.antt =====
-- core-rs/core/src/engine.rs: `snapshot`.
use netmon_polyglot.Engine.{Engine, Counters}
use netmon_polyglot.Float.{Float}
use netmon_polyglot.Flow.Table
use netmon_polyglot.Flow.Table.Top
use netmon_polyglot.Flow.{FlowKey, FlowKey-discrete, FlowStats}
use netmon_polyglot.Lru.{LruCache}
use netmon_polyglot.Net.{IpAddr-discrete}
use netmon_polyglot.Prelude.{ℕ, List}
use netmon_polyglot.Rules.Compiled.{SourceState}

pub record Snapshot : Type 0 where
  pub counters : Counters
  pub active_flows : ℕ
  pub evicted_flows : ℕ
  pub expired_flows : ℕ
  pub last_ts_us : ℕ
  pub top_flows : List (FlowKey × FlowStats)

module _ (f : Float) (flow_lru : LruCache FlowStats FlowKey-discrete)
    (source_lru : LruCache SourceState IpAddr-discrete) where
  unfoldable pub snapshot : Engine f flow_lru source_lru → Snapshot
  snapshot e = record {
    counters = e.counters;
    active_flows = Table.len flow_lru e.flows;
    evicted_flows = e.flows.evicted;
    expired_flows = e.flows.expired;
    last_ts_us = e.last_ts_us;
    top_flows = Top.top_by_bytes flow_lru e.flows e.config.top_n;
  }

-- ===== src/Flow/Table.antt =====
-- core-rs/core/src/flow.rs: the operations of `FlowTable`.
pub mod Contents
pub mod Ends
pub mod Expiry
pub mod Order
pub mod Top
use netmon_polyglot.Prelude.{
  ℕ, zero, suc, ◌+◌, ◌≤◌, Bool, true, false, Option, none, some, List, ltb, if◌then◌else◌, ◌==◌,
}
use netmon_polyglot.Prelude.Words.{add64}
use netmon_polyglot.Lru.{LruCache}
use netmon_polyglot.Flow.{
  FlowKey, FlowKey-discrete, FlowStats, FlowUpdate, FlowTable, refreshed, started, is_some,
}

-- `stats.last_seen_us + self.idle_timeout_us > now_us`
unfoldable pub is_live : ℕ → ℕ → FlowStats → Bool
is_live timeout now s = ltb now (add64 s.last_seen_us timeout)

module _ (lru : LruCache FlowStats FlowKey-discrete) where
  open lru use {
    Cache, new as new_cache, len as cache_len, iter as cache_iter, peek, peek_lru, pop_lru, get_mut,
    push,
  }

  unfoldable pub new : ℕ → ℕ → FlowTable lru
  new capacity idle_timeout_us = record {
    flows = new_cache capacity;
    idle_timeout_us = idle_timeout_us;
    evicted = 0;
    expired = 0;
  }

  unfoldable pub update : FlowTable lru → FlowUpdate → FlowTable lru × FlowStats
  unfolding is_some
  update t u = elim (get_mut t.flows u.key) [
    | some (stats, write) ↦ (record t { flows = write (refreshed stats u) }, refreshed stats u)
    | none ↦
        let (gone, flows) = push t.flows u.key (started u) in
        (
          record t {
            flows = flows;
            evicted = if is_some gone then add64 t.evicted 1 else t.evicted;
          },
          started u,
        )
  ]

  -- The loop of `expire`, on fuel: the cache, and the number of flows removed.
  unfoldable pub expire_loop : ℕ → ℕ → ℕ → Cache → ℕ → Cache × ℕ
  expire_loop zero timeout now flows removed = (flows, removed)
  expire_loop (suc fuel) timeout now flows removed = elim (peek_lru flows) [
    | none ↦ (flows, removed)
    | some (key, stats) ↦ elim (is_live timeout now stats) [
      | true ↦ (flows, removed)
      | false ↦ expire_loop fuel timeout now (pop_lru flows) (removed + 1)
    ]
  ]

  -- Each round removes a flow.
  unfoldable pub expire : FlowTable lru → ℕ → FlowTable lru × ℕ
  unfolding expire_loop is_live
  expire t now =
      let (flows, removed) =
        expire_loop (suc (cache_len t.flows)) t.idle_timeout_us now t.flows 0 in
      (record t { flows = flows; expired = add64 t.expired removed }, removed)

  unfoldable pub get : FlowTable lru → FlowKey → Option FlowStats
  get t key = peek t.flows key

  unfoldable pub len : FlowTable lru → ℕ
  len t = cache_len t.flows

  unfoldable pub is_empty : FlowTable lru → Bool
  is_empty t = cache_len t.flows == 0

  unfoldable pub iter : FlowTable lru → List (FlowKey × FlowStats)
  iter t = cache_iter t.flows

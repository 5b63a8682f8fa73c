-- ===== src/Tests/Flows.antt =====
-- The theorems on flow keys and the flow table at a table with one flow.
use netmon_polyglot.Flow.Table.Top.Ranking
use netmon_polyglot.Flow.Table.Top
use netmon_polyglot.Lru.Reference
use netmon_polyglot.Prelude.Words
use netmon_polyglot.Prelude.{arith, ◌≡◌, refl, []}
use netmon_polyglot.Flow
use netmon_polyglot.Flow.Key
use netmon_polyglot.Flow.Table
use netmon_polyglot.Flow.Table.Contents
use netmon_polyglot.Flow.Table.Expiry
use netmon_polyglot.Flow.Table.Order
use netmon_polyglot.Tests.Data.{one_flow, https, other, packet_at, flow_cache, client, server}

canonical-swap_example :
    ((Flow.canonical server client 6).0 ≡ (Flow.canonical client server 6).0)
    × ((Flow.canonical server client 6).1 ≡ Key.opposite (Flow.canonical client server 6).1)
canonical-swap_example = Key.canonical-swap client server 6 (ground arith)

valid : Contents.IsValid flow_cache (one_flow 9)
unfolding one_flow
valid = record { positive = omega arith; bounded = omega arith; distinct = (refl, tt) }

timely : Order.IsTimely flow_cache 9 (one_flow 9)
unfolding one_flow
timely = record { seen = (omega arith, tt); ordered = (tt, tt) }

get-update_example :
    Table.get flow_cache (Table.update flow_cache (one_flow 9) (packet_at other 12)).0 https
    ≡ Table.get flow_cache (one_flow 9) https
unfolding Table.get Flow.FlowKey-discrete Reference.reference native.Mathlib.Decide.ℕ_discrete
    one_flow Contents.evicts
get-update_example = Contents.get-update flow_cache (one_flow 9) (packet_at other 12) https valid

update-Updated_example :
    Contents.Updated flow_cache
      (one_flow 9)
      (packet_at https 12)
      (Table.update flow_cache (one_flow 9) (packet_at https 12)).0
      (Table.update flow_cache (one_flow 9) (packet_at https 12)).1
update-Updated_example = Contents.update-Updated flow_cache (one_flow 9) (packet_at https 12) valid

expire-Expired_example :
    Expiry.Expired flow_cache
      (one_flow 9)
      200
      (Table.expire flow_cache (one_flow 9) 200).0
      (Table.expire flow_cache (one_flow 9) 200).1
expire-Expired_example = Expiry.expire-Expired flow_cache (one_flow 9) 200

-- The flow was idle for longer than 100.
expire-live_only_example : flow_cache.iter (Table.expire flow_cache (one_flow 9) 200).0.flows ≡ []
unfolding one_flow Order.live_only Table.is_live Words.add64
expire-live_only_example =
    Order.expire-live_only flow_cache (one_flow 9) 200 {seen_by = 9} timely (omega arith)

top_by_bytes-IsRanking_example :
    Ranking.IsRanking 1
      (Table.iter flow_cache (one_flow 9))
      (Top.top_by_bytes flow_cache (one_flow 9) 1)
top_by_bytes-IsRanking_example = Ranking.top_by_bytes-IsRanking flow_cache (one_flow 9) valid 1

-- ===== src/Tests/Engines.antt =====
-- The theorems on the engine at a new engine that takes two frames.
use netmon_polyglot.Packet.Header.{Frame}
use netmon_polyglot.Prelude.{List, ◌≡◌, arith, ◌∷◌, []}
use netmon_polyglot.Engine
use netmon_polyglot.Engine.Accounting
use netmon_polyglot.Engine.Run
use netmon_polyglot.Flow.Table
use netmon_polyglot.Flow.Table.Order
use netmon_polyglot.Tests.Data.{wholes, flow_cache, source_cache, syn_frame}

abbrev idle : Engine.Engine wholes flow_cache source_cache
idle = Engine.new wholes flow_cache source_cache Engine.default_config

abbrev after : List Frame → Engine.Engine wholes flow_cache source_cache
after frames = Run.run wholes flow_cache source_cache idle frames

abbrev frames : List Frame
frames = syn_frame 5 ∷ syn_frame 9 ∷ []

run-IsAccounted_example :
    Accounting.IsAccounted (after frames).counters × ((after frames).counters.packets ≡ 2)
run-IsAccounted_example =
    Run.run-IsAccounted wholes flow_cache source_cache Engine.default_config frames (omega arith)

run-IsSingle_example : Run.IsSingle 100_000 (Table.iter flow_cache (after frames).flows)
run-IsSingle_example =
    Run.run-IsSingle wholes flow_cache source_cache Engine.default_config frames (omega arith)

run-IsTimely_example : Order.IsTimely flow_cache (after frames).last_ts_us (after frames).flows
run-IsTimely_example =
    Run.run-IsTimely wholes flow_cache source_cache Engine.default_config frames (omega arith)
      (omega arith, (omega arith, tt))

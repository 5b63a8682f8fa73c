-- ===== src/Tests/Exports.antt =====
-- The theorems on the exporter at an engine that has taken one frame.
use netmon_polyglot.Prelude.Words
use netmon_polyglot.Engine
use netmon_polyglot.Ffi.Analytics
use netmon_polyglot.Ffi.Analytics.{IpText, Cooldown, FlowBatch, Exporter}
use netmon_polyglot.Ffi.Analytics.Cooldowns
use netmon_polyglot.Ffi.Analytics.Exports
use netmon_polyglot.Ffi.Analytics.Orientation
use netmon_polyglot.Flow.Table
use netmon_polyglot.Flow.Table.Order.{SeenBy}
use netmon_polyglot.Flow.{FlowStats}
use netmon_polyglot.Lru.Reference.{reference}
use netmon_polyglot.Prelude.{◌∷◌, [], some, none, refl, ◌≡◌, arith}
use netmon_polyglot.Tests.Data.{wholes, flow_cache, source_cache, one_flow, https}

-- The addresses as their octets.
abbrev octets : IpText
octets = record { show = λ addr. []; read = λ text. none }

abbrev cooldown : Cooldown
cooldown = record { last_alert_us = (97 ∷ [], 5) ∷ [] }

admit-Answers_example :
    Cooldowns.Answers cooldown (97 ∷ []) 9 (Analytics.admit cooldown (97 ∷ []) 9)
admit-Answers_example = Cooldowns.admit-Answers cooldown (97 ∷ []) 9

abbrev one_packet : FlowStats
one_packet = record {
  first_seen_us = 5;
  last_seen_us = 9;
  packets = record { ab = 1; ba = 0 };
  bytes = record { ab = 54; ba = 0 };
  tcp_flags = 2;
}

features-IsOriented_example :
    Orientation.IsOriented octets https one_packet (Analytics.features octets https one_packet)
features-IsOriented_example = Orientation.features-IsOriented octets https one_packet

-- An engine with the flow `https`, seen at 9.
abbrev engine : Engine.Engine wholes flow_cache source_cache
engine = record (Engine.new wholes flow_cache source_cache Engine.default_config) {
  flows = one_flow 9;
  last_ts_us = 9;
}

next_batch-Sends_example :
    Exports.Sends octets Analytics.new_exporter engine
      (Analytics.next_batch octets Analytics.new_exporter engine)
next_batch-Sends_example = Exports.next_batch-Sends octets Analytics.new_exporter engine

abbrev batch : FlowBatch
batch = record {
  batch_id = 1;
  window_end_us = 9;
  flows = Analytics.features octets https one_packet ∷ [];
}

abbrev exported : Exporter
exported = record Analytics.new_exporter { last_export_us = 9; batch_id = 1 }

sent : Analytics.next_batch octets Analytics.new_exporter engine ≡ (exported, some batch)
unfolding Analytics.next_batch Table.iter one_flow reference Words.add64
sent = refl

seen : SeenBy 9 (Table.iter flow_cache engine.flows)
unfolding Table.iter one_flow reference
seen = (omega arith, tt)

next_batch_settles_example : (Analytics.next_batch octets exported engine).1 ≡ none
next_batch_settles_example =
    Exports.next_batch_settles octets Analytics.new_exporter engine exported batch seen sent

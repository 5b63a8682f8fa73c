-- ===== src/Flow.antt =====
-- core-rs/core/src/flow.rs: flow keys, flow statistics and the flow table. The table's cache is the
-- crate `lru`, through its interface.
pub mod Key
pub mod Table
use Prim.Native.Nat.{Ordering, compare}
use native.Mathlib.Decide.{ℕ_discrete}
use netmon_polyglot.Prelude.{
  ℕ, zero, suc, ◌+◌, ◌≤◌, max, bit_or, Bool, true, false, Option, none, some, List, ltb,
  if◌then◌else◌,
}
use netmon_polyglot.Prelude.Words.{add64, sub64}
use netmon_polyglot.Net.{IpAddr, IpAddr-discrete, cmp_addr, then_cmp}
use netmon_polyglot.Lru.{LruCache}

pub record Endpoint : Type 0 where
  pub addr : IpAddr
  pub port : ℕ

pub record FlowKey : Type 0 where
  pub a : Endpoint
  pub b : Endpoint
  pub proto : ℕ

pub data Direction : Type 0 where
  a_to_b b_to_a : Direction

unfoldable pub Endpoint-discrete : Discrete Endpoint
unfolding IpAddr-discrete
Endpoint-discrete = hlevel (IpAddr-discrete, ℕ_discrete)

unfoldable pub FlowKey-discrete : Discrete FlowKey
unfolding Endpoint-discrete
FlowKey-discrete = hlevel (Endpoint-discrete, ℕ_discrete)

-- The derived order of endpoints: the address, then the port.
unfoldable pub cmp_endpoint : Endpoint → Endpoint → Ordering
cmp_endpoint x y = then_cmp (cmp_addr x.addr y.addr) (compare x.port y.port)

-- `src <= dst`
unfoldable pub le_endpoint : Endpoint → Endpoint → Bool
unfolding cmp_endpoint
le_endpoint x y = elim (cmp_endpoint x y) [ Ordering.gt ↦ false | _ ↦ true ]

-- `FlowKey::canonical`
unfoldable pub canonical : Endpoint → Endpoint → ℕ → FlowKey × Direction
canonical src dst proto =
    if le_endpoint src dst
    then (record { a = src; b = dst; proto = proto }, a_to_b)
    else (record { a = dst; b = src; proto = proto }, b_to_a)

-- `[u64; 2]`, indexed by a direction.
pub record Counts : Type 0 where
  pub ab : ℕ
  pub ba : ℕ

abbrev pub zeros : Counts
zeros = record { ab = 0; ba = 0 }

unfoldable pub count_of : Counts → Direction → ℕ
count_of c a_to_b = c.ab
count_of c b_to_a = c.ba

unfoldable pub set_count : Counts → Direction → ℕ → Counts
set_count c a_to_b n = record c { ab = n }
set_count c b_to_a n = record c { ba = n }

-- `counts[dir] += n`
unfoldable pub add_count : Counts → Direction → ℕ → Counts
unfolding count_of set_count
add_count c dir n = set_count c dir (add64 (count_of c dir) n)

pub record FlowStats : Type 0 where
  pub first_seen_us : ℕ
  pub last_seen_us : ℕ
  pub packets : Counts
  pub bytes : Counts
  pub tcp_flags : ℕ

unfoldable pub total_packets : FlowStats → ℕ
total_packets s = add64 s.packets.ab s.packets.ba

unfoldable pub total_bytes : FlowStats → ℕ
total_bytes s = add64 s.bytes.ab s.bytes.ba

unfoldable pub duration_us : FlowStats → ℕ
duration_us s = sub64 s.last_seen_us s.first_seen_us

pub record FlowUpdate : Type 0 where
  pub key : FlowKey
  pub direction : Direction
  pub ts_us : ℕ
  pub bytes : ℕ
  pub tcp_flags : ℕ

-- The statistics of a flow that is there already, after a packet.
unfoldable pub refreshed : FlowStats → FlowUpdate → FlowStats
unfolding add_count
refreshed s u = record s {
  last_seen_us = max s.last_seen_us u.ts_us;
  packets = add_count s.packets u.direction 1;
  bytes = add_count s.bytes u.direction u.bytes;
  tcp_flags = bit_or s.tcp_flags u.tcp_flags;
}

-- The statistics of a new flow.
unfoldable pub started : FlowUpdate → FlowStats
unfolding set_count
started u = record {
  first_seen_us = u.ts_us;
  last_seen_us = u.ts_us;
  packets = set_count zeros u.direction 1;
  bytes = set_count zeros u.direction u.bytes;
  tcp_flags = u.tcp_flags;
}

unfoldable pub is_some {ℓ} : {A : Type ℓ} → Option A → Bool
is_some none = false
is_some (some x) = true

module _ (lru : LruCache FlowStats FlowKey-discrete) where
  open lru use {Cache}

  pub record FlowTable : Type 0 where
    pub flows : Cache
    pub idle_timeout_us : ℕ
    pub evicted : ℕ
    pub expired : ℕ

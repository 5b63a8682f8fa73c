-- ===== src/Engine.antt =====
-- core-rs/core/src/engine.rs: the engine parses a frame, counts it, tracks its flow and evaluates the
-- rules on it. The caches and the floats are parameters.
pub mod Accounting
pub mod Flows
pub mod Run
pub mod Snapshot
use netmon_polyglot.Prelude.Words.{add64}
use netmon_polyglot.Prelude.{
  leb, max, Option, List, ℕ, Bool, if◌then◌else◌, false, true, some, none, [],
}
use netmon_polyglot.Alert.{Alert}
use netmon_polyglot.Float.{Float}
use netmon_polyglot.Flow.{
  Endpoint, FlowKey, FlowKey-discrete, FlowStats, FlowTable, FlowUpdate, canonical,
}
use netmon_polyglot.Flow.Table
use netmon_polyglot.Lru.{LruCache}
use netmon_polyglot.Net.{IpAddr, IpAddr-discrete, is_ipv4}
use netmon_polyglot.Packet.{Packet, Transport, App, ports}
use netmon_polyglot.Packet
use netmon_polyglot.Packet.Header.{LinkType, Frame, IpHeader, is_fragment}
use netmon_polyglot.ParseError.{ParseError}
use netmon_polyglot.Prelude.Outcome.{Outcome, ok, err, panic, diverge}
use netmon_polyglot.Rules
use netmon_polyglot.Rules.Compiled.{SourceState, CompiledRule}

abbrev pub default_max_flows : ℕ
default_max_flows = 100_000

abbrev pub default_flow_idle_timeout_us : ℕ
default_flow_idle_timeout_us = 120_000_000

abbrev pub default_top_n : ℕ
default_top_n = 10

abbrev pub expiry_interval_us : ℕ
expiry_interval_us = 1_000_000

pub record EngineConfig : Type 0 where
  pub link : LinkType
  pub max_flows : ℕ
  pub flow_idle_timeout_us : ℕ
  pub top_n : ℕ

abbrev pub default_config : EngineConfig
default_config = record {
  link = LinkType.ethernet;
  max_flows = default_max_flows;
  flow_idle_timeout_us = default_flow_idle_timeout_us;
  top_n = default_top_n;
}

pub record Counters : Type 0 where
  pub packets : ℕ
  pub bytes : ℕ
  pub ipv4 : ℕ
  pub ipv6 : ℕ
  pub tcp : ℕ
  pub udp : ℕ
  pub icmp : ℕ
  pub other_l4 : ℕ
  pub non_ip : ℕ
  pub fragments : ℕ
  pub dns : ℕ
  pub dns_errors : ℕ
  pub parse_errors : ℕ

abbrev pub no_counts : Counters
no_counts = record {
  packets = 0;
  bytes = 0;
  ipv4 = 0;
  ipv6 = 0;
  tcp = 0;
  udp = 0;
  icmp = 0;
  other_l4 = 0;
  non_ip = 0;
  fragments = 0;
  dns = 0;
  dns_errors = 0;
  parse_errors = 0;
}

unfoldable pub count_transport : Counters → Transport → Counters
count_transport c (Transport.tcp h) = record c { tcp = add64 c.tcp 1 }
count_transport c (Transport.udp h) = record c { udp = add64 c.udp 1 }
count_transport c (Transport.icmp h) = record c { icmp = add64 c.icmp 1 }
count_transport c (Transport.other proto) = record c { other_l4 = add64 c.other_l4 1 }
count_transport c Transport.none = c
count_transport c Transport.later_fragment = c

unfoldable pub count_app : Counters → App → Counters
count_app c (App.dns info) = record c { dns = add64 c.dns 1 }
count_app c (App.dns_error e) = record c { dns_errors = add64 c.dns_errors 1 }
count_app c App.none = c

unfoldable pub count_family : Counters → IpHeader → Counters
count_family c ip =
    if is_ipv4 ip.src
    then record c { ipv4 = add64 c.ipv4 1 }
    else record c { ipv6 = add64 c.ipv6 1 }

unfoldable pub count_fragment : Counters → IpHeader → Counters
count_fragment c ip = if is_fragment ip then record c { fragments = add64 c.fragments 1 } else c

-- `Engine::count`
unfoldable pub count : Counters → Packet → Counters
unfolding count_transport count_app count_family count_fragment
count c p = elim p.ip [
  | none ↦ record c { non_ip = add64 c.non_ip 1 }
  | some ip ↦ count_app (count_transport (count_fragment (count_family c ip) ip) p.transport) p.app
]

unfoldable pub flags_of : Transport → ℕ
flags_of (Transport.tcp h) = h.flags
flags_of transport = 0

-- The update of the flow table for a packet, if it belongs to a flow.
unfoldable pub flow_update : Packet → IpHeader → FlowUpdate
unfolding flags_of
flow_update p ip =
    let (sport, dport) = ports p.transport in
    let (key, direction) =
      canonical (record { addr = ip.src; port = sport }) (record { addr = ip.dst; port = dport })
        ip.proto in
    record {
      key = key;
      direction = direction;
      ts_us = p.ts_us;
      bytes = p.wire_len;
      tcp_flags = flags_of p.transport;
    }

unfoldable pub is_later_fragment : Transport → Bool
is_later_fragment Transport.later_fragment = true
is_later_fragment transport = false

module _ (f : Float) (flow_lru : LruCache FlowStats FlowKey-discrete)
    (source_lru : LruCache SourceState IpAddr-discrete) where
  open f use {F64}

  pub record Engine : Type 0 where
    pub config : EngineConfig
    pub flows : FlowTable flow_lru
    pub counters : Counters
    pub last_ts_us : ℕ
    pub next_expiry_us : ℕ
    pub rules : Option (List (CompiledRule f source_lru))
    pub alerts : List (Alert F64)

  unfoldable pub new : EngineConfig → Engine
  new config = record {
    config = config;
    flows = Table.new flow_lru config.max_flows config.flow_idle_timeout_us;
    counters = no_counts;
    last_ts_us = 0;
    next_expiry_us = 0;
    rules = none;
    alerts = [];
  }

  -- `with_rules` gives `some`
  unfoldable pub set_rules : Engine → Option (List (CompiledRule f source_lru)) → Engine
  set_rules e rules = record e { rules = rules }

  unfoldable pub drain_alerts : Engine → Engine × List (Alert F64)
  drain_alerts e = (record e { alerts = [] }, e.alerts)

  unfoldable pub advance_clock : Engine → ℕ → Engine
  advance_clock e ts_us =
      let last = max e.last_ts_us ts_us in
      if leb e.next_expiry_us last
      then record e {
        last_ts_us = last;
        flows = (Table.expire flow_lru e.flows last).0;
        next_expiry_us = add64 last expiry_interval_us;
      }
      else record e { last_ts_us = last }

  unfoldable pub track_flow : Engine → Packet → Engine
  unfolding flow_update is_later_fragment
  track_flow e p = elim p.ip [
    | none ↦ e
    | some ip ↦
        if is_later_fragment p.transport
        then e
        else record e { flows = (Table.update flow_lru e.flows (flow_update p ip)).0 }
  ]

  unfoldable pub apply_rules : Engine → Packet → Engine
  apply_rules e p = elim e.rules [
    | none ↦ e
    | some rules ↦
        let (rules', alerts) = Rules.evaluate f source_lru rules p e.alerts in
        record e { rules = some rules'; alerts = alerts }
  ]

  -- The frame is counted, and time goes on, before it is parsed.
  unfoldable pub admit : Engine → Frame → Engine
  unfolding advance_clock
  admit e frame =
      advance_clock
        (record e {
          counters = record (e.counters) {
            packets = add64 e.counters.packets 1;
            bytes = add64 e.counters.bytes frame.wire_len;
          };
        })
        frame.ts_us

  -- The part of `process` behind the parser.
  unfoldable pub digest : Engine → Outcome ParseError Packet → Engine
  unfolding count track_flow apply_rules
  digest e (ok p) = apply_rules (track_flow (record e { counters = count e.counters p }) p) p
  digest e (err x) = record e {
    counters = record (e.counters) { parse_errors = add64 e.counters.parse_errors 1 };
  }
  digest e panic = e
  digest e diverge = e

  unfoldable pub process : Engine → Frame → Engine × Outcome ParseError Packet
  unfolding admit digest
  process e frame =
      let e' = admit e frame in let r = Packet.parse e'.config.link frame in (digest e' r, r)

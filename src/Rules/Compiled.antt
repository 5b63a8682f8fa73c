-- ===== src/Rules/Compiled.antt =====
-- core-rs/core/src/rules/engine.rs: a compiled rule, with a tracker for each source. The table of
-- sources is the crate `lru`, through its interface.
pub mod Firing
use netmon_polyglot.Prelude.Words.{saturating_add64}
use native.Mathlib.Decide.{ℕ_discrete}
use netmon_polyglot.Prelude.{
  ◌||◌, ◌&&◌, length, if◌then◌else◌, leb, ltb, ℕ, List, Bool, String, Option, ◌∷◌, false, some,
  none, [],
}
use netmon_polyglot.Prelude
use netmon_polyglot.Alert.{of_rule, Alert, AlertSource, Text}
use netmon_polyglot.Float.{Float}
use netmon_polyglot.Lru.{LruCache}
use netmon_polyglot.Net.{IpAddr, IpAddr-discrete}
use netmon_polyglot.Packet.{Packet, Transport, App}
use netmon_polyglot.Packet.Tcp.{is_syn_only}
use netmon_polyglot.Packet.Dns.{DnsInfo}
use netmon_polyglot.Rules.Entropy.{split, shannon_entropy}
use netmon_polyglot.Rules.Spec.{RuleKind, RuleSpec}
use netmon_polyglot.Rules.Window
use netmon_polyglot.Rules.Window.{DistinctWindow, CountWindow, add, add_tick}

abbrev pub max_tracked_sources : ℕ
max_tracked_sources = 10_000

abbrev pub label_separator : ℕ
label_separator = b'.'

pub data Tracker : Type 0 where
  ports : DistinctWindow ℕ → Tracker
  hosts : DistinctWindow IpAddr → Tracker
  count : CountWindow → Tracker

pub data Event : Type 0 where
  port : ℕ → Event
  host : IpAddr → Event
  tick : Event

pub record SourceState : Type 0 where
  pub tracker : Tracker
  pub last_fired_us : Option ℕ

unfoldable pub new_tracker : RuleKind → Tracker
new_tracker RuleKind.port_scan = ports Window.new
new_tracker RuleKind.host_sweep = hosts Window.new
new_tracker RuleKind.dns_tunnel = count (record { events = [] })
new_tracker RuleKind.packet_rate = count (record { events = [] })

unfoldable pub fresh : RuleKind → SourceState
unfolding new_tracker
fresh kind = record { tracker = new_tracker kind; last_fired_us = none }

-- The `match` on the tracker and the event; `none` is the arm that returns.
unfoldable pub record_event : Tracker → Event → ℕ → ℕ → Option (Tracker × ℕ)
record_event (ports w) (port p) ts window =
    let (w', n) = add ℕ_discrete w ts p window in some (ports w', n)
record_event (hosts w) (host h) ts window =
    let (w', n) = add IpAddr-discrete w ts h window in some (hosts w', n)
record_event (count w) tick ts window = let (w', n) = add_tick w ts window in some (count w', n)
record_event tracker event ts window = none

-- A bare SYN probes its destination port.
unfoldable pub probe : Transport → Option Event
probe (Transport.tcp h) = if is_syn_only h then some (port h.dst_port) else none
probe transport = none

-- `state.last_fired_us.is_some_and(|last| ts < last.saturating_add(cooldown))`
unfoldable pub is_cooling : Option ℕ → ℕ → ℕ → Bool
is_cooling none cooldown ts = false
is_cooling (some last) cooldown ts = ltb ts (saturating_add64 last cooldown)

unfoldable pub what : RuleKind → String
what RuleKind.port_scan = "distinct ports probed"
what RuleKind.host_sweep = "distinct hosts contacted"
what RuleKind.dns_tunnel = "high-entropy dns queries"
what RuleKind.packet_rate = "packets"

module _ (f : Float) (lru : LruCache SourceState IpAddr-discrete) where
  open f use {F64, decimal, of_ℕ, mul, div, ge, to_u64}
  open lru use {Cache, new as new_cache, get_mut, get_or_insert_mut}

  pub record CompiledRule : Type 0 where
    pub spec : RuleSpec F64
    pub window_us : ℕ
    pub cooldown_us : ℕ
    pub sources : Cache

  unfoldable pub compile : RuleSpec F64 → CompiledRule
  compile spec = record {
    spec = spec;
    window_us = to_u64 (mul spec.window_secs (decimal 1_000_000 0));
    cooldown_us = to_u64 (mul spec.cooldown_secs (decimal 1_000_000 0));
    sources = new_cache max_tracked_sources;
  }

  -- A label that is long and has much entropy.
  unfoldable pub has_tunnel_label : RuleSpec F64 → List Text → Bool
  has_tunnel_label spec [] = false
  has_tunnel_label spec (label ∷ labels) =
      (leb spec.min_label_len (length label) && ge (shannon_entropy f label) spec.min_entropy)
      || has_tunnel_label spec labels

  unfoldable pub is_tunnel_query : RuleSpec F64 → DnsInfo → Bool
  unfolding has_tunnel_label
  is_tunnel_query spec info = if info.is_response then false else elim info.question [
    | none ↦ false
    | some q ↦ has_tunnel_label spec (split label_separator q.name)
  ]

  unfoldable pub is_tunnel_like : RuleSpec F64 → App → Bool
  unfolding is_tunnel_query
  is_tunnel_like spec App.none = false
  is_tunnel_like spec (App.dns info) = is_tunnel_query spec info
  is_tunnel_like spec (App.dns_error e) = false

  -- The event that a packet is for a rule, if it is one.
  unfoldable pub event_of : RuleKind → RuleSpec F64 → Packet → IpAddr → Option Event
  unfolding probe is_tunnel_like
  event_of RuleKind.port_scan spec packet dst = probe packet.transport
  event_of RuleKind.host_sweep spec packet dst = some (host dst)
  event_of RuleKind.packet_rate spec packet dst = some tick
  event_of RuleKind.dns_tunnel spec packet dst =
      if is_tunnel_like spec packet.app then some tick else none

  -- The part of `observe` behind the event.
  unfoldable pub track : CompiledRule → ℕ → IpAddr → Event → CompiledRule × Option ℕ
  unfolding record_event fresh
  track rule ts src event =
      let (state, write) = get_or_insert_mut rule.sources src (fresh rule.spec.kind) in
      elim (record_event state.tracker event ts rule.window_us) [
        | none ↦ (record rule { sources = write state }, none)
        | some (tracker, n) ↦
            (record rule { sources = write (record state { tracker = tracker }) }, some n)
      ]

  unfoldable pub observe : CompiledRule → Packet → IpAddr → IpAddr → CompiledRule × Option ℕ
  unfolding event_of track
  observe rule packet src dst = elim (event_of rule.spec.kind rule.spec packet dst) [
    | none ↦ (rule, none)
    | some event ↦ track rule packet.ts_us src event
  ]

  unfoldable pub alert : CompiledRule → ℕ → IpAddr → ℕ → Alert F64
  unfolding what
  alert rule ts src observed = record {
    ts_us = ts;
    source = AlertSource.rule;
    severity = rule.spec.severity;
    rule_id = rule.spec.id;
    message = of_rule (record {
      src = src;
      observed = observed;
      what = what rule.spec.kind;
      window_secs = rule.spec.window_secs;
    });
    src = some src;
    score = div (of_ℕ observed) (of_ℕ rule.spec.threshold);
  }

  -- The part of `evaluate` behind the threshold.
  unfoldable pub fire : CompiledRule → ℕ → IpAddr → ℕ → CompiledRule × Option (Alert F64)
  unfolding is_cooling alert
  fire rule ts src observed = elim (get_mut rule.sources src) [
    | none ↦ (rule, none)
    | some (state, write) ↦
        if is_cooling state.last_fired_us rule.cooldown_us ts
        then (record rule { sources = write state }, none)
        else (
          record rule { sources = write (record state { last_fired_us = some ts }) },
          some (alert rule ts src observed),
        )
  ]

  -- The part of `evaluate` behind `observe`.
  unfoldable pub judge : CompiledRule × Option ℕ → ℕ → IpAddr → CompiledRule × Option (Alert F64)
  unfolding fire
  judge (rule, none) ts src = (rule, none)
  judge (rule, some observed) ts src =
      if ltb observed rule.spec.threshold then (rule, none) else fire rule ts src observed

  unfoldable pub evaluate : CompiledRule → Packet → CompiledRule × Option (Alert F64)
  unfolding observe judge
  evaluate rule packet = elim packet.ip [
    | none ↦ (rule, none)
    | some ip ↦ judge (observe rule packet ip.src ip.dst) packet.ts_us ip.src
  ]

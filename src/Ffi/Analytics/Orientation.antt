-- ===== src/Ffi/Analytics/Orientation.antt =====
-- core-rs/core-ffi/src/analytics.rs: from whose side a flow is described.
use netmon_polyglot.Prelude.{refl, Bool-cases, inl, inr, arith, ◌⊎◌, ◌≢◌, ◌+◌, ◌≡◌, ◌≤◌}
use netmon_polyglot.Ffi.Analytics
use netmon_polyglot.Prelude.Words.{sub64}
use netmon_polyglot.Ffi.Analytics.{duration_us, count_of, FlowFeatures, IpText}
use netmon_polyglot.Flow
use netmon_polyglot.Flow.{count_of, Endpoint, FlowKey, FlowStats, Counts}

-- The same flow with the ends the other way round.
abbrev pub mirror_counts : Counts → Counts
mirror_counts c = record { ab = c.ba; ba = c.ab }

abbrev pub mirror_key : FlowKey → FlowKey
mirror_key key = record { a = key.b; b = key.a; proto = key.proto }

abbrev pub mirror_stats : FlowStats → FlowStats
mirror_stats s = record {
  first_seen_us = s.first_seen_us;
  last_seen_us = s.last_seen_us;
  packets = mirror_counts s.packets;
  bytes = mirror_counts s.bytes;
  tcp_flags = s.tcp_flags;
}

-- The features of a flow from one of its ends to the other: the packets and bytes that the first end
-- has sent go forward, those that the second end has sent come back.
abbrev pub view :
    IpText → FlowKey → FlowStats → Endpoint → Endpoint → Counts → Counts → FlowFeatures
view ip key stats src dst packets bytes = record {
  src = ip.show src.addr;
  dst = ip.show dst.addr;
  src_port = src.port;
  dst_port = dst.port;
  proto = key.proto;
  packets_fwd = packets.ab;
  packets_rev = packets.ba;
  bytes_fwd = bytes.ab;
  bytes_rev = bytes.ba;
  duration_us = sub64 stats.last_seen_us stats.first_seen_us;
  tcp_flags = stats.tcp_flags;
  last_seen_us = stats.last_seen_us;
}

-- The features are those from one of the ends; the source has the higher port, or has sent no less;
-- nothing of the traffic is lost; and which end the key holds first does not matter.
pub record IsOriented (ip : IpText) (key : FlowKey) (stats : FlowStats) (x : FlowFeatures)
    : Type 0 where
  pub side :
      (x ≡ view ip key stats key.a key.b stats.packets stats.bytes)
      ⊎ (x
          ≡ view ip key stats key.b key.a (mirror_counts stats.packets) (mirror_counts stats.bytes))
  pub higher : x.dst_port ≤ x.src_port
  pub sender : x.src_port ≡ x.dst_port → x.packets_rev ≤ x.packets_fwd
  pub packets : x.packets_fwd + x.packets_rev ≡ stats.packets.ab + stats.packets.ba
  pub bytes : x.bytes_fwd + x.bytes_rev ≡ stats.bytes.ab + stats.bytes.ba
  pub mirrored :
      (key.a.port ≢ key.b.port) ⊎ (stats.packets.ab ≢ stats.packets.ba)
      → Analytics.features ip (mirror_key key) (mirror_stats stats) ≡ x

-- The features of a flow are given from the side of one of its ends: its address and port are the
-- source, the other's the destination, and what it has sent goes forward. It is the end with the higher
-- port, or, when the ports are the same, one that has sent no fewer packets than the other. The packets
-- and bytes of both directions are in them; and a flow whose ends stand the other way round has the same features, unless
-- both the ports and the packets are the same.
pub features-IsOriented :
    (ip : IpText) (key : FlowKey) (stats : FlowStats)
    → IsOriented ip key stats (Analytics.features ip key stats)
unfolding Analytics.features Analytics.oriented Analytics.client_is_b Flow.count_of Flow.duration_us
features-IsOriented ip key stats = record {
  side = elim (Bool-cases (Analytics.client_is_b key stats)) [
    | inl b ↦ inr (rw b refl)
    | inr a ↦ inl (rw a refl)
  ];
  higher = ground arith;
  sender = λ same. ground (arith, same);
  packets = ground arith;
  bytes = ground arith;
  mirrored = λ h. ground (arith, h);
}

-- ===== src/Engine/Accounting.antt =====
-- core-rs/core/src/engine.rs: the counters account for every frame.
use netmon_polyglot.ParseError.{ParseError}
use netmon_polyglot.Prelude.Outcome.{ok, Returns, Outcome}
use netmon_polyglot.Net.{IpAddr-discrete}
use netmon_polyglot.Rules.Compiled.{SourceState}
use netmon_polyglot.Flow.{FlowKey-discrete, FlowStats}
use netmon_polyglot.Lru.{LruCache}
use netmon_polyglot.Float.{Float}
use netmon_polyglot.Prelude.Words.{u64_mod, add64}
use netmon_polyglot.Prelude.{
  ap, ◌∙◌, ℕ, Option-cases, refl, inr, inl, ◌||◌, arith, not, ◌≤◌, ◌<◌, ◌+◌, ◌≡◌, true,
}
use netmon_polyglot.Engine
use netmon_polyglot.Packet.Totality
use netmon_polyglot.Prelude.Outcome.{ok, err, panic, diverge}
use netmon_polyglot.Engine.{
  ℕ, err, Frame, ok, ParseError, Outcome, Engine, IpAddr-discrete, SourceState, FlowKey-discrete,
  FlowStats, LruCache, Float, count, add64, Counters, count_transport, count_app, count_family,
  count_fragment,
}
use netmon_polyglot.Packet.{Packet, Transport, App}
use netmon_polyglot.Packet
use netmon_polyglot.Packet.Shape.{is_consistent, parse-IsShaped}
use netmon_polyglot.Packet.Header.{Frame, IpHeader}

-- Every frame is counted once by what became of it, and the counts of the parts stay below those of
-- the wholes.
pub record IsAccounted (c : Counters) : Type 0 where
  pub frames : c.packets ≡ c.non_ip + c.ipv4 + c.ipv6 + c.parse_errors
  pub transports : c.tcp + c.udp + c.icmp + c.other_l4 ≤ c.ipv4 + c.ipv6
  pub fragmented : c.fragments ≤ c.ipv4 + c.ipv6
  pub queries : c.dns + c.dns_errors ≤ c.udp

-- A frame has been counted, and not yet what became of it.
record IsPending (c : Counters) : Type 0 where
  pub frames : c.packets ≡ c.non_ip + c.ipv4 + c.ipv6 + c.parse_errors + 1
  pub small : c.packets < u64_mod
  pub transports : c.tcp + c.udp + c.icmp + c.other_l4 ≤ c.ipv4 + c.ipv6
  pub fragmented : c.fragments ≤ c.ipv4 + c.ipv6
  pub queries : c.dns + c.dns_errors ≤ c.udp

-- `count` on a packet with an IP header: the family and the fragment first.
family_counts :
    (c : Counters) (ip : IpHeader)
    → IsPending c
    → let d = count_fragment (count_family c ip) ip in
      (d.packets ≡ d.non_ip + d.ipv4 + d.ipv6 + d.parse_errors)
      × (d.packets < u64_mod)
      × (d.tcp + d.udp + d.icmp + d.other_l4 + 1 ≤ d.ipv4 + d.ipv6)
      × (d.fragments ≤ d.ipv4 + d.ipv6)
      × (d.dns + d.dns_errors ≤ d.udp)
unfolding count_fragment count_family add64
family_counts c ip v = ground arith

transport_counts :
    (c : Counters) (t : Transport) (a : App)
    → (c.packets ≡ c.non_ip + c.ipv4 + c.ipv6 + c.parse_errors)
      × (c.packets < u64_mod)
      × (c.tcp + c.udp + c.icmp + c.other_l4 + 1 ≤ c.ipv4 + c.ipv6)
      × (c.fragments ≤ c.ipv4 + c.ipv6)
      × (c.dns + c.dns_errors ≤ c.udp)
    → (not (Packet.Shape.has_app a) || Packet.Shape.is_udp t) ≡ true
    → IsAccounted (count_app (count_transport c t) a)
unfolding count_app count_transport add64 Packet.Shape.has_app Packet.Shape.is_udp
transport_counts c t a v h = ground arith

count-IsAccounted :
    (c : Counters) (p : Packet) → IsPending c → is_consistent p ≡ true → IsAccounted (count c p)
unfolding count is_consistent
count-IsAccounted c p v h = elim (Option-cases p.ip) [
  | inl no_ip ↦ rw (no_ip, count) (no_ip_counts c v)
  | inr (ip, has_ip) ↦
      rw (has_ip, count)
        (transport_counts (count_fragment (count_family c ip) ip) p.transport p.app
          (family_counts c ip v) (ground arith))
]
  where
    no_ip_counts :
        (c : Counters) → IsPending c → IsAccounted (record c { non_ip = add64 c.non_ip 1 })
    no_ip_counts c v = unfold add64 in ground arith

module _ (f : Float) (flow_lru : LruCache FlowStats FlowKey-discrete)
    (source_lru : LruCache SourceState IpAddr-discrete) where
  pub counters-admit :
      (e : Engine f flow_lru source_lru) (frame : Frame)
      → (Engine.admit f flow_lru source_lru e frame).counters ≡ record (e.counters) {
        packets = add64 e.counters.packets 1;
        bytes = add64 e.counters.bytes frame.wire_len;
      }
  unfolding Engine.admit
  counters-admit e frame = ground arith

  pub counters-digest :
      (e : Engine f flow_lru source_lru) (p : Packet)
      → (Engine.digest f flow_lru source_lru e (ok p)).counters ≡ count e.counters p
  unfolding Engine.digest Engine.track_flow Engine.apply_rules
  counters-digest e p = ground arith

  digest-IsAccounted :
      (e : Engine f flow_lru source_lru) (r : Outcome ParseError Packet)
      → IsPending e.counters
      → Returns r
      → ((p : Packet) → r ≡ ok p → is_consistent p ≡ true)
      → IsAccounted (Engine.digest f flow_lru source_lru e r).counters
  digest-IsAccounted e (ok p) v h shaped =
      rw (counters-digest e p) (count-IsAccounted e.counters p v (shaped p refl))
  digest-IsAccounted e (err x) v h shaped = unfold Engine.digest add64 in ground arith
  digest-IsAccounted e panic v h shaped = absurd h
  digest-IsAccounted e diverge v h shaped = absurd h

  -- Until the 64-bit counter of packets is full, `process` keeps the counters accounted: every frame
  -- is counted exactly once as not IP, IPv4, IPv6 or a parse error.
  pub process-IsAccounted :
      (e : Engine f flow_lru source_lru) (frame : Frame)
      → IsAccounted e.counters
      → e.counters.packets + 1 < u64_mod
      → IsAccounted (Engine.process f flow_lru source_lru e frame).0.counters
  unfolding Engine.process
  process-IsAccounted e frame v room =
      let e' = Engine.admit f flow_lru source_lru e frame in
      digest-IsAccounted e' (Packet.parse e'.config.link frame)
        (rw (counters-admit e frame) (pending v room)) (Totality.parse-Returns e'.config.link frame)
        λ p parsed. (parse-IsShaped e'.config.link frame {p = p} parsed).consistent
    where
      pending :
          {c : Counters} {bytes : ℕ}
          → IsAccounted c
          → c.packets + 1 < u64_mod
          → IsPending (record c { packets = add64 c.packets 1; bytes = bytes })
      pending {c} {bytes} v room = unfold add64 in ground arith

  packets-count : (c : Counters) (p : Packet) → (count c p).packets ≡ c.packets
  unfolding count count_fragment count_family count_transport count_app
  packets-count c p = ground arith

  packets-digest :
      (e : Engine f flow_lru source_lru) (r : Outcome ParseError Packet)
      → (Engine.digest f flow_lru source_lru e r).counters.packets ≡ e.counters.packets
  packets-digest e (ok p) = rw (counters-digest e p) (packets-count e.counters p)
  packets-digest e (err x) = unfold Engine.digest in refl
  packets-digest e panic = unfold Engine.digest in refl
  packets-digest e diverge = unfold Engine.digest in refl

  pub packets-process :
      (e : Engine f flow_lru source_lru) (frame : Frame)
      → e.counters.packets + 1 < u64_mod
      → (Engine.process f flow_lru source_lru e frame).0.counters.packets ≡ e.counters.packets + 1
  unfolding Engine.process add64
  packets-process e frame room =
      let e' = Engine.admit f flow_lru source_lru e frame in
      packets-digest e' (Packet.parse e'.config.link frame)
      ∙ ap (λ (c : Counters). c.packets) (counters-admit e frame)
      ∙ omega arith

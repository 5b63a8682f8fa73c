-- ===== src/Synth/Produced.antt =====
-- core-rs/core/src/synth.rs: every packet that the generator draws is a frame that the parser reads.
use netmon_polyglot.Packet
use netmon_polyglot.Packet.{Packet, Transport}
use netmon_polyglot.Packet.Header.{LinkType}
use netmon_polyglot.Prelude.Outcome.{Outcome, ok}
use netmon_polyglot.Prelude.{
  length, ◌+◌, ◌≤◌, ◌<◌, ◌≡◌, ◌≢◌, refl, arith, ℕ, List, [], ◌∷◌, suc, zero,
}
use netmon_polyglot.Synth
use netmon_polyglot.Synth.{SocketAddr, Rng}
use netmon_polyglot.Synth.Hosts
use netmon_polyglot.Synth.Traffic
use netmon_polyglot.Synth.Labels.{AreLabels, NoDot, joined}
use netmon_polyglot.Synth.Queries
use netmon_polyglot.Synth.Reading.{packet_of, ReadsAs, tcp_segment-ReadsAs, icmp_echo-ReadsAs}
use netmon_polyglot.Synth.Headers.{octets}

-- A short frame of an IPv4 packet, which the parser reads with no error.
pub record IsTraffic (bytes : List ℕ) : Type 0 where
  pub proto : ℕ
  pub src : List ℕ
  pub dst : List ℕ
  pub transport : Transport
  pub app : Packet.App
  pub short : length bytes ≤ 1_500
  pub read :
      (ts_us wire_len : ℕ)
      → Packet.parse LinkType.ethernet
          (record { ts_us = ts_us; wire_len = wire_len; bytes = bytes })
        ≡ ok (packet_of proto src dst transport app ts_us wire_len)

module _ {E : Type 0} where
  -- A frame of the traffic comes, with what else is given.
  abbrev pub Makes : {A : Type 0} → Outcome E (A × List ℕ) → Type 0
  Makes {A} drawn = (a : A) × (bytes : List ℕ) × (drawn ≡ ok (a, bytes)) × IsTraffic bytes

  ReadsAs-IsTraffic :
      (built : Outcome E (List ℕ)) (len proto : ℕ) (src dst : List ℕ) (transport : Transport)
      (app : Packet.App)
      → ReadsAs built len (packet_of proto src dst transport app)
      → len ≤ 1_500
      → (bytes : List ℕ) × (built ≡ ok bytes) × IsTraffic bytes
  ReadsAs-IsTraffic built len proto src dst transport app (bytes, made, sized, read) small = (
    bytes,
    made,
    record {
      proto = proto;
      src = src;
      dst = dst;
      transport = transport;
      app = app;
      short = omega arith;
      read = read;
    },
  )

  pub segment-IsTraffic :
      (s0 s1 s2 s3 d0 d1 d2 d3 sport dport flags payload_len : ℕ)
      → sport < 65_536
      → dport < 65_536
      → payload_len ≤ 1_400
      → (bytes : List ℕ) × (Synth.tcp_segment {E = E}
            (record { ip = octets s0 s1 s2 s3; port = sport })
            (record { ip = octets d0 d1 d2 d3; port = dport })
            flags
            payload_len
          ≡ ok bytes)
        × IsTraffic bytes
  segment-IsTraffic s0 s1 s2 s3 d0 d1 d2 d3 sport dport flags payload_len h k fits =
      ReadsAs-IsTraffic _ (54 + payload_len) 6 (octets s0 s1 s2 s3) (octets d0 d1 d2 d3) _ _
        (tcp_segment-ReadsAs s0 s1 s2 s3 d0 d1 d2 d3 sport dport flags payload_len h k
          (omega arith))
        (omega arith)

  pub query-IsTraffic :
      (s0 s1 s2 s3 sport id qtype : ℕ) (label : List ℕ) (labels : List (List ℕ))
      → AreLabels (label ∷ labels)
      → length (joined (label ∷ labels)) ≤ 253
      → sport < 65_536
      → id < 65_536
      → qtype < 65_536
      → (bytes : List ℕ) × (Synth.dns_query {E = E}
            (record { ip = octets s0 s1 s2 s3; port = sport })
            Hosts.resolver
            id
            (joined (label ∷ labels))
            qtype
          ≡ ok bytes)
        × IsTraffic bytes
  query-IsTraffic s0 s1 s2 s3 sport id qtype label labels h room h_port small_id small =
      ReadsAs-IsTraffic _ (60 + length (joined (label ∷ labels))) 17 (octets s0 s1 s2 s3)
        (octets 10 0 0 1) _ _
        (Queries.dns_query-ReadsAs id qtype label labels h room s0 s1 s2 s3 10 0 0 1 sport h_port
          small_id small)
        (omega arith)

  pub echo-IsTraffic :
      (s0 s1 s2 s3 seq : ℕ)
      → (bytes : List ℕ) × (Synth.icmp_echo {E = E} (octets s0 s1 s2 s3) (octets 10 0 0 1) seq
          ≡ ok bytes)
        × IsTraffic bytes
  echo-IsTraffic s0 s1 s2 s3 seq =
      ReadsAs-IsTraffic _ 42 1 (octets s0 s1 s2 s3) (octets 10 0 0 1) _ _
        (icmp_echo-ReadsAs s0 s1 s2 s3 10 0 0 1 seq) (omega arith)

  -- Each domain of the list is made of labels.
  pub domain-labels :
      (i : ℕ)
      → i < 5
      → (label : List ℕ) × (labels : List (List ℕ)) × (Traffic.index {E = E} Hosts.domains i
          ≡ ok (joined (label ∷ labels)))
        × AreLabels (label ∷ labels)
        × (length (joined (label ∷ labels)) ≤ 253)
  unfolding Traffic.index
  domain-labels zero h = (
    (101 ∷ 120 ∷ 97 ∷ 109 ∷ 112 ∷ 108 ∷ 101 ∷ []),
    (99 ∷ 111 ∷ 109 ∷ []) ∷ [],
    refl,
    omega arith,
    omega arith,
  )
  domain-labels (suc zero) h = (
    (103 ∷ 105 ∷ 116 ∷ 104 ∷ 117 ∷ 98 ∷ []),
    (99 ∷ 111 ∷ 109 ∷ []) ∷ [],
    refl,
    omega arith,
    omega arith,
  )
  domain-labels (suc (suc zero)) h = (
    (97 ∷ 112 ∷ 105 ∷ []),
    (103 ∷ 105 ∷ 116 ∷ 104 ∷ 117 ∷ 98 ∷ []) ∷ (99 ∷ 111 ∷ 109 ∷ []) ∷ [],
    refl,
    omega arith,
    omega arith,
  )
  domain-labels (suc (suc (suc zero))) h = (
    (99 ∷ 114 ∷ 97 ∷ 116 ∷ 101 ∷ 115 ∷ []),
    (105 ∷ 111 ∷ []) ∷ [],
    refl,
    omega arith,
    omega arith,
  )
  domain-labels (suc (suc (suc (suc zero)))) h = (
    (110 ∷ 117 ∷ 103 ∷ 101 ∷ 116 ∷ []),
    (111 ∷ 114 ∷ 103 ∷ []) ∷ [],
    refl,
    omega arith,
    omega arith,
  )
  domain-labels (suc (suc (suc (suc (suc i))))) h = absurd (omega arith)

  pub index-NoDot :
      (xs : List ℕ) (i : ℕ)
      → NoDot xs
      → i < length xs
      → (c : ℕ) × (Traffic.index {E = E} xs i ≡ ok c) × (c ≢ 46)
  unfolding Traffic.index
  index-NoDot [] i h lt = absurd (omega arith)
  index-NoDot (x ∷ xs) zero h lt = (x, refl, h.0)
  index-NoDot (x ∷ xs) (suc i) h lt = index-NoDot xs i h.1 (omega arith)

pub below-lt : (rng : Rng) (bound : ℕ) → 0 < bound → (Synth.below rng bound).1 < bound
unfolding Synth.below
below-lt rng bound h = grind arith

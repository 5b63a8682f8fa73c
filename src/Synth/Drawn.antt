-- ===== src/Synth/Drawn.antt =====
-- core-rs/core/src/synth.rs: each kind of packet, drawn with any state of the generator of random
-- numbers, is a frame that the parser reads.
use netmon_polyglot.Prelude.Outcome.{ok}
use netmon_polyglot.Prelude.{
  length, length-append, leb, ◌==◌, Bool-cases, inl, inr, ◌+◌, ◌*◌, ◌%◌, ◌/◌, ◌≤◌, ◌<◌, ◌≡◌, refl,
  arith, ℕ, List, [], ◌∷◌, suc, zero,
}
use netmon_polyglot.Synth
use netmon_polyglot.Synth.{SocketAddr, Rng}
use netmon_polyglot.Synth.Hosts
use netmon_polyglot.Synth.Traffic
use netmon_polyglot.Synth.Labels.{NoDot, joined}
use netmon_polyglot.Synth.Headers.{octets}
use netmon_polyglot.Synth.Produced.{
  Makes, segment-IsTraffic, query-IsTraffic, echo-IsTraffic, domain-labels, index-NoDot, below-lt,
}

module _ {E : Type 0} where
  server-octets :
      (i : ℕ)
      → i < 4
      → (a b c d port : ℕ) × (Traffic.index {E = E} Hosts.servers i
          ≡ ok (record { ip = octets a b c d; port = port }))
        × (port < 65_536)
  unfolding Traffic.index
  server-octets zero h = (_, _, _, _, _, refl, omega arith)
  server-octets (suc zero) h = (_, _, _, _, _, refl, omega arith)
  server-octets (suc (suc zero)) h = (_, _, _, _, _, refl, omega arith)
  server-octets (suc (suc (suc zero))) h = (_, _, _, _, _, refl, omega arith)
  server-octets (suc (suc (suc (suc i)))) h = absurd (omega arith)

  web_packet-Makes :
      (rng : Rng) (client_idx a b c d : ℕ)
      → Makes (Traffic.web_packet {E = E} rng client_idx (octets a b c d))
  unfolding Traffic.web_packet
  web_packet-Makes rng client_idx a b c d =
      let (rng1, server_idx) = Synth.below rng 4 in
      let (s0, s1, s2, s3, port, found, low) =
        server-octets server_idx (below-lt rng 4 (omega arith)) in
      let (rng2, payload) = Synth.below rng1 1_400 in
      let (rng3, way) = Synth.below rng2 2 in
      let client_port = Traffic.as_u16 (49_152 + Traffic.as_u16 (client_idx * 4 + server_idx)) in
      let small : client_port < 65_536 = omega arith in
      let room : payload ≤ 1_400 = omega (arith, below-lt rng1 1_400 (omega arith)) in
      elim (Bool-cases (way == 0)) [
        | inl out ↦
            let (bytes, built, t) =
              segment-IsTraffic {E = E} a b c d s0 s1 s2 s3 client_port port 0x18 payload small low
                room in
            (rng3, bytes, rw (found, out) (rw built refl), t)
        | inr back ↦
            let (bytes, built, t) =
              segment-IsTraffic {E = E} s0 s1 s2 s3 a b c d port client_port 0x18 payload low small
                room in
            (rng3, bytes, rw (found, back) (rw built refl), t)
      ]

  lookup_packet-Makes :
      (rng : Rng) (i client_idx a b c d : ℕ)
      → Makes (Traffic.lookup_packet {E = E} rng i client_idx (octets a b c d))
  unfolding Traffic.lookup_packet
  lookup_packet-Makes rng i client_idx a b c d =
      let (rng1, n) = Synth.below rng 5 in
      let (label, labels, found, h, room) =
        domain-labels {E = E} n (below-lt rng 5 (omega arith)) in
      let port = Traffic.as_u16 (49_152 + Traffic.as_u16 client_idx) in
      let (bytes, built, t) =
        query-IsTraffic {E = E} a b c d port (Traffic.as_u16 i) 1 label labels h room (omega arith)
          (omega arith) (omega arith) in
      (rng1, bytes, rw found (rw built refl), t)

  pub background_packet-Makes :
      (rng : Rng) (i : ℕ) → Makes (Traffic.background_packet {E = E} rng i)
  unfolding Traffic.background_packet
  background_packet-Makes rng i =
      let (rng1, client_idx) = Synth.below rng 50 in
      let (rng2, roll) = Synth.below rng1 100 in
      let d = Traffic.as_u8 (10 + Traffic.as_u8 client_idx) in
      elim (Bool-cases (leb roll 69)) [
        | inl web ↦ rw web (web_packet-Makes rng2 client_idx 10 0 0 d)
        | inr not_web ↦ rw not_web (elim (Bool-cases (leb roll 89)) [
          | inl dns ↦ rw dns (lookup_packet-Makes rng2 i client_idx 10 0 0 d)
          | inr not_dns ↦
              let (bytes, built, t) = echo-IsTraffic {E = E} 10 0 0 d (Traffic.as_u16 i) in
              (rng2, bytes, rw not_dns (rw built refl), t)
        ])
      ]

  pub flood_syn-Makes : (rng : Rng) → Makes (Traffic.flood_syn {E = E} rng)
  unfolding Traffic.flood_syn
  flood_syn-Makes rng =
      let (rng1, n) = Synth.next_u64 rng in
      let (rng2, p) = Synth.below rng1 1_024 in
      let port = Traffic.as_u16 (49_152 + Traffic.as_u16 p) in
      let (bytes, built, t) =
        segment-IsTraffic {E = E} 172 (n / 65_536 % 256) (n / 256 % 256) (n % 256) 10 0 0 5 port 80
          2 0 (omega arith) (omega arith) (omega arith) in
      (rng2, bytes, rw built refl, t)

  draw_label-NoDot :
      (rounds : ℕ) (rng : Rng)
      → (rng' : Rng) × (label : List ℕ) × (Traffic.draw_label {E = E} rounds rng ≡ ok (rng', label))
        × (length label ≡ rounds)
        × NoDot label
  unfolding Traffic.draw_label
  draw_label-NoDot zero rng = (rng, [], refl, refl, tt)
  draw_label-NoDot (suc rounds) rng =
      let (rng1, i) = Synth.below rng 32 in
      let (c, found, plain) =
        index-NoDot {E = E} Hosts.base32 i (omega arith) (below-lt rng 32 (omega arith)) in
      let (rng2, label, drawn, sized, no_dot) = draw_label-NoDot rounds rng1 in
      (rng2, c ∷ label, rw (found, drawn) refl, omega arith, (plain, no_dot))

  pub tunnel_query-Makes : (rng : Rng) (i : ℕ) → Makes (Traffic.tunnel_query {E = E} rng i)
  unfolding Traffic.tunnel_query
  tunnel_query-Makes rng i =
      let (rng1, label, drawn, sized, no_dot) = draw_label-NoDot 48 rng in
      let labels : List (List ℕ) =
        (116 ∷ [])
        ∷ (101 ∷ 120 ∷ 102 ∷ 105 ∷ 108 ∷ 45 ∷ 101 ∷ 120 ∷ 97 ∷ 109 ∷ 112 ∷ 108 ∷ 101 ∷ [])
        ∷ (110 ∷ 101 ∷ 116 ∷ [])
        ∷ [] in
      let room : length (joined (label ∷ labels)) ≤ 253 =
        omega (arith, length-append label (46 ∷ joined labels)) in
      let (bytes, built, t) =
        query-IsTraffic {E = E} 10 0 0 77 53_001 (Traffic.as_u16 i) 16 label labels
          (omega arith, omega arith, no_dot, omega arith) room (omega arith) (omega arith)
          (omega arith) in
      (rng1, bytes, rw drawn (rw built refl), t)

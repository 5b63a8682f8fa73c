-- ===== src/Synth/Reading.antt =====
-- core-rs/core/src/synth.rs and packet: the parser reads the frames of synthetic traffic.
use netmon_polyglot.Synth.Headers.{
  octets, ip_header, frame_bytes, ethernet_ipv4-frame_bytes, parse-headers, segment, segment_parsed,
  datagram, datagram_parsed,
}
use netmon_polyglot.Prelude.{
  ◌∙◌, length-replicate, ◌++◌, ◌<◌, arith, ◌+◌, ◌≡◌, ◌≤◌, length, List, ℕ, ◌∷◌, refl, false, some,
}
use netmon_polyglot.Packet
use netmon_polyglot.Packet.{Packet, Transport}
use netmon_polyglot.Packet.Header.{LinkType}
use netmon_polyglot.Packet.Icmp
use netmon_polyglot.Prelude.Outcome.{Outcome, ok}
use netmon_polyglot.Synth
use netmon_polyglot.Synth.{SocketAddr}

-- What the parser makes of a frame with this transport.
abbrev pub packet_of : ℕ → List ℕ → List ℕ → Transport → Packet.App → ℕ → ℕ → Packet
packet_of proto src dst transport app ts_us wire_len = record {
  ts_us = ts_us;
  wire_len = wire_len;
  ethertype = some 0x0800;
  ip = some (ip_header proto src dst);
  transport = transport;
  app = app;
}

-- The frame is built, with the given length, and the parser makes the packet of it, for every time
-- and length on the wire.
abbrev pub ReadsAs : {E : Type 0} → Outcome E (List ℕ) → ℕ → (ℕ → ℕ → Packet) → Type 0
ReadsAs built len p =
    (bytes : List ℕ) × (built ≡ ok bytes)
    × (length bytes ≡ len)
    × ((ts_us wire_len : ℕ)
        → Packet.parse LinkType.ethernet
            (record { ts_us = ts_us; wire_len = wire_len; bytes = bytes })
          ≡ ok (p ts_us wire_len))

module _ (s0 s1 s2 s3 d0 d1 d2 d3 : ℕ) {E : Type 0} where
  -- A TCP segment of the synthetic traffic with up to 65495 bytes of data is built with the length of its
  -- headers and its data, and the parser reads back the addresses, the ports and the flags that it was
  -- made of.
  pub tcp_segment-ReadsAs :
      (sport dport flags payload_len : ℕ)
      → sport < 65_536
      → dport < 65_536
      → payload_len ≤ 65_495
      → ReadsAs {E = E}
          (Synth.tcp_segment
            (record { ip = octets s0 s1 s2 s3; port = sport })
            (record { ip = octets d0 d1 d2 d3; port = dport })
            flags
            payload_len)
          (54 + payload_len)
          (packet_of 6
            (octets s0 s1 s2 s3)
            (octets d0 d1 d2 d3)
            (Transport.tcp (record {
              src_port = sport;
              dst_port = dport;
              seq = 0;
              ack = 0;
              flags = flags;
              window = 64_240;
            }))
            Packet.App.none)
  unfolding Synth.tcp_segment Packet.parse_transport Packet.parse_tcp
  tcp_segment-ReadsAs sport dport flags payload_len h k fits =
      let l4 = segment sport dport flags payload_len in
      let room : length l4 ≤ 65_515 = omega (arith, length-replicate {A = ℕ} (4 + payload_len) 0) in
      (
        frame_bytes s0 s1 s2 s3 d0 d1 d2 d3 6 l4,
        ethernet_ipv4-frame_bytes s0 s1 s2 s3 d0 d1 d2 d3 6 l4 room,
        omega (arith, length-replicate {A = ℕ} (4 + payload_len) 0),
        λ ts_us wire_len.
            parse-headers s0 s1 s2 s3 d0 d1 d2 d3 6 l4 room _ ts_us wire_len
            ∙ rw (segment_parsed sport dport flags payload_len h k) refl,
      )

  -- An echo request is read as one.
  pub icmp_echo-ReadsAs :
      (seq : ℕ)
      → ReadsAs {E = E} (Synth.icmp_echo (octets s0 s1 s2 s3) (octets d0 d1 d2 d3) seq) 42 (
          packet_of 1
            (octets s0 s1 s2 s3)
            (octets d0 d1 d2 d3)
            (Transport.icmp (record { icmp_type = 8; code = 0; v6 = false }))
            Packet.App.none)
  unfolding Synth.icmp_echo Packet.parse_transport Packet.parse_icmp
  icmp_echo-ReadsAs seq =
      let checksum = Synth.internet_checksum (8 ∷ 0 ∷ 0 ∷ 0 ∷ 0 ∷ 0 ∷ Synth.to_be_bytes seq) in
      let l4 = 8 ∷ 0 ∷ Synth.to_be_bytes checksum ++ 0 ∷ 0 ∷ Synth.to_be_bytes seq in
      let room : length l4 ≤ 65_515 = omega arith in
      (
        frame_bytes s0 s1 s2 s3 d0 d1 d2 d3 1 l4,
        ethernet_ipv4-frame_bytes s0 s1 s2 s3 d0 d1 d2 d3 1 l4 room,
        omega arith,
        λ ts_us wire_len.
            parse-headers s0 s1 s2 s3 d0 d1 d2 d3 1 l4 room _ ts_us wire_len
            ∙ rw (Icmp.parse_icmp_lem l4 false) refl,
      )

  -- A UDP datagram is read as what it was made of, but for its payload, which goes to the DNS parser
  -- if a port is 53.
  pub udp_datagram-parse_app :
      (sport dport : ℕ) (payload : List ℕ) (p : ℕ → ℕ → Packet)
      → sport < 65_536
      → dport < 65_536
      → length payload ≤ 65_507
      → ((ts_us wire_len : ℕ)
          → Packet.parse_app
              (packet_of 17
                (octets s0 s1 s2 s3)
                (octets d0 d1 d2 d3)
                (Transport.udp
                  (record { src_port = sport; dst_port = dport; len = 8 + length payload }))
                Packet.App.none
                ts_us
                wire_len)
              payload
            ≡ ok (p ts_us wire_len))
      → ReadsAs {E = E}
          (Synth.udp_datagram
            (record { ip = octets s0 s1 s2 s3; port = sport })
            (record { ip = octets d0 d1 d2 d3; port = dport })
            payload)
          (42 + length payload)
          p
  unfolding Synth.udp_datagram Packet.parse_transport Packet.parse_udp
  udp_datagram-parse_app sport dport payload p h k fits app =
      let l4 = datagram sport dport payload in
      let room : length l4 ≤ 65_515 = omega arith in
      let built = ethernet_ipv4-frame_bytes s0 s1 s2 s3 d0 d1 d2 d3 17 l4 room {E = E} in
      (
        frame_bytes s0 s1 s2 s3 d0 d1 d2 d3 17 l4,
        ground (arith, built),
        omega arith,
        λ ts_us wire_len.
            parse-headers s0 s1 s2 s3 d0 d1 d2 d3 17 l4 room _ ts_us wire_len
            ∙ rw (datagram_parsed sport dport payload h k fits) (app ts_us wire_len),
      )

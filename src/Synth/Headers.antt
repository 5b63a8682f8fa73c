-- ===== src/Synth/Headers.antt =====
-- core-rs/core/src/synth.rs and packet: the headers of synthetic frames, as the
-- parser reads them.
use netmon_polyglot.Prelude.{
  replicate, ◌++◌, ◌<◌, take_all, arith, ◌+◌, drop, ◌≡◌, ◌≤◌, ◌%◌, ◌/◌, length, List, ℕ, ◌∷◌, refl,
  false, some, [],
}
use netmon_polyglot.Packet
use netmon_polyglot.Packet.{Packet, Transport}
use netmon_polyglot.Packet.Header.{LinkType, Frame, IpHeader}
use netmon_polyglot.Packet.Ethernet
use netmon_polyglot.Packet.Ipv4
use netmon_polyglot.Packet.Tcp
use netmon_polyglot.Packet.Udp
use netmon_polyglot.Net.{v4}
use netmon_polyglot.Prelude.Outcome.{ok}
use netmon_polyglot.Synth
use netmon_polyglot.Synth.{SocketAddr}

-- An address of four bytes.
abbrev pub octets : ℕ → ℕ → ℕ → ℕ → List ℕ
octets a b c d = a ∷ b ∷ c ∷ d ∷ []

-- The 34 bytes before the payload, for a checksum.
abbrev pub headers : ℕ → ℕ → ℕ → ℕ → ℕ → ℕ → ℕ → ℕ → ℕ → ℕ → ℕ → List ℕ → List ℕ
headers total proto checksum s0 s1 s2 s3 d0 d1 d2 d3 l4 =
    2
    ∷ 0
    ∷ 0
    ∷ 0
    ∷ 0
    ∷ 2
    ∷ 2
    ∷ 0
    ∷ 0
    ∷ 0
    ∷ 0
    ∷ 1
    ∷ 8
    ∷ 0
    ∷ 0x45
    ∷ 0
    ∷ total / 256 % 256
    ∷ total % 256
    ∷ 0
    ∷ 0
    ∷ 0
    ∷ 0
    ∷ 64
    ∷ proto
    ∷ checksum / 256 % 256
    ∷ checksum % 256
    ∷ s0
    ∷ s1
    ∷ s2
    ∷ s3
    ∷ d0
    ∷ d1
    ∷ d2
    ∷ d3
    ∷ l4

abbrev pub ip_header : ℕ → List ℕ → List ℕ → IpHeader
ip_header proto src dst = record {
  src = v4 src;
  dst = v4 dst;
  proto = proto;
  ttl = 64;
  more_fragments = false;
  fragment_offset = 0;
}

-- What the checksum is taken of.
abbrev checksum_of : ℕ → ℕ → List ℕ → List ℕ → ℕ
checksum_of total proto src dst =
    Synth.internet_checksum (
      (0x45 ∷ 0 ∷ Synth.to_be_bytes total ++ 0 ∷ 0 ∷ 0 ∷ 0 ∷ 64 ∷ proto ∷ []) ++ 0 ∷ 0 ∷ src ++ dst)

module _ (s0 s1 s2 s3 d0 d1 d2 d3 proto : ℕ) (l4 : List ℕ) where
  abbrev pub frame_bytes : List ℕ
  frame_bytes =
      headers (20 + length l4) proto
        (checksum_of (20 + length l4) proto (octets s0 s1 s2 s3) (octets d0 d1 d2 d3)) s0 s1 s2 s3
        d0 d1 d2 d3 l4

module _ (s0 s1 s2 s3 d0 d1 d2 d3 proto : ℕ) (l4 : List ℕ) (fits : length l4 ≤ 65_515) where
  pub ethernet_ipv4-frame_bytes :
      {E : Type 0}
      → Synth.ethernet_ipv4 {E = E} (octets s0 s1 s2 s3) (octets d0 d1 d2 d3) proto l4
        ≡ ok (frame_bytes s0 s1 s2 s3 d0 d1 d2 d3 proto l4)
  unfolding Synth.ethernet_ipv4
  ethernet_ipv4-frame_bytes = ground arith

  module _ (checksum : ℕ) where
    abbrev bytes : List ℕ
    bytes = headers (20 + length l4) proto checksum s0 s1 s2 s3 d0 d1 d2 d3 l4

    link-headers : Packet.parse_link LinkType.ethernet bytes ≡ ok (some 0x0800, drop 14 bytes)
    unfolding Packet.parse_link Ethernet.is_tag
    link-headers = rw (Ethernet.parse_ethernet_lem bytes) (ground arith)

    ipv4-headers :
        Ipv4.parse (drop 14 bytes)
        ≡ ok (ip_header proto (octets s0 s1 s2 s3) (octets d0 d1 d2 d3), l4)
    ipv4-headers =
        rw (Ipv4.parse_ipv4_lem (drop 14 bytes)) (ground (arith, take_all (length l4) l4))

    pub parse-headers :
        (ts_us wire_len : ℕ)
        → let ip = ip_header proto (octets s0 s1 s2 s3) (octets d0 d1 d2 d3) in
          let frame : Frame = record { ts_us = ts_us; wire_len = wire_len; bytes = bytes } in
          Packet.parse LinkType.ethernet frame
          ≡ Packet.parse_transport (record (Packet.bare frame (some 0x0800)) { ip = some ip }) ip l4
    unfolding Packet.parse Packet.ip_version Packet.parse_version Packet.parse_ip
    parse-headers ts_us wire_len = rw (link-headers, ipv4-headers) refl

-- Of the segment: its header, with no options and no data but zeros.
abbrev pub segment : ℕ → ℕ → ℕ → ℕ → List ℕ
segment sport dport flags payload_len =
    Synth.to_be_bytes sport
    ++ Synth.to_be_bytes dport
    ++ replicate 8 0
    ++ 0x50 ∷ flags ∷ Synth.to_be_bytes 64_240
    ++ replicate (4 + payload_len) 0

pub segment_parsed :
    (sport dport flags payload_len : ℕ)
    → sport < 65_536
    → dport < 65_536
    → Tcp.parse (segment sport dport flags payload_len)
      ≡ ok (
        record {
          src_port = sport;
          dst_port = dport;
          seq = 0;
          ack = 0;
          flags = flags;
          window = 64_240;
        },
        replicate payload_len 0,
      )
segment_parsed sport dport flags payload_len h k =
    rw (Tcp.parse_tcp_lem (segment sport dport flags payload_len)) (ground arith)

-- Of the datagram.
abbrev pub datagram : ℕ → ℕ → List ℕ → List ℕ
datagram sport dport payload =
    Synth.to_be_bytes sport
    ++ Synth.to_be_bytes dport
    ++ Synth.to_be_bytes (8 + length payload)
    ++ 0 ∷ 0 ∷ payload

pub datagram_parsed :
    (sport dport : ℕ) (payload : List ℕ)
    → sport < 65_536
    → dport < 65_536
    → length payload ≤ 65_507
    → Udp.parse (datagram sport dport payload)
      ≡ ok (record { src_port = sport; dst_port = dport; len = 8 + length payload }, payload)
unfolding Udp.payload_end
datagram_parsed sport dport payload h k fits =
    rw (Udp.parse_udp_lem (datagram sport dport payload))
      (ground (arith, take_all (length payload) payload))

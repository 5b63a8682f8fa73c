-- ===== src/Packet.antt =====
-- core-rs/core/src/packet/mod.rs: a parsed packet and `parse`, from the link layer up.
pub mod Bytes
pub mod Header
pub mod Tcp
pub mod Udp
pub mod Icmp
pub mod Ipv4
pub mod Ethernet
pub mod Ipv6
pub mod Dns
pub mod Totality
pub mod Shape
use mathlib.Core.Option.{Option}
use netmon_polyglot.Prelude.{
  ℕ, ◌/◌, Bool, true, false, not, ◌&&◌, ◌||◌, List, [], ◌∷◌, ◌==◌, if◌then◌else◌,
}
use netmon_polyglot.Prelude.Outcome.{ok, err, panic, diverge, ◌>>=◌, ◌>>◌}
use netmon_polyglot.ParseError.{Layer, ParseError, malformed}
use Bytes.{Parsed, need, at, slice_from}
use Header.{LinkType, Frame, IpHeader}
use Tcp.{TcpHeader}
use Udp.{UdpHeader}
use Icmp.{IcmpHeader}
use Dns.{DnsInfo}

abbrev pub proto_icmp : ℕ
proto_icmp = 1

abbrev pub proto_tcp : ℕ
proto_tcp = 6

abbrev pub proto_udp : ℕ
proto_udp = 17

abbrev pub proto_icmpv6 : ℕ
proto_icmpv6 = 58

abbrev pub null_header_len : ℕ
null_header_len = 4

pub data Transport : Type 0 where
  none : Transport
  tcp : TcpHeader → Transport
  udp : UdpHeader → Transport
  icmp : IcmpHeader → Transport
  later_fragment : Transport
  other : ℕ → Transport

-- `Transport::ports`
unfoldable pub ports : Transport → ℕ × ℕ
ports none = (0, 0)
ports (tcp h) = (h.src_port, h.dst_port)
ports (udp h) = (h.src_port, h.dst_port)
ports (icmp h) = (0, 0)
ports later_fragment = (0, 0)
ports (other proto) = (0, 0)

pub data App : Type 0 where
  none : App
  dns : DnsInfo → App
  dns_error : ParseError → App

pub record Packet : Type 0 where
  pub ts_us : ℕ
  pub wire_len : ℕ
  pub ethertype : Option ℕ
  pub ip : Option IpHeader
  pub transport : Transport
  pub app : App

-- The ethertype, if the link has one, and what follows the link header.
unfoldable pub parse_link : LinkType → List ℕ → Parsed (Option ℕ × List ℕ)
parse_link LinkType.ethernet bytes = do
  (eth, rest) ← Ethernet.parse bytes
  ok (Option.some eth.ethertype, rest)
parse_link LinkType.null bytes = do
  need bytes null_header_len Layer.link
  rest ← slice_from bytes null_header_len
  ok (Option.none, rest)
parse_link LinkType.raw bytes = ok (Option.none, bytes)

-- The version of IP; `none` is the arm that returns the packet as it is.
unfoldable pub ip_version : Option ℕ → List ℕ → Parsed (Option ℕ)
ip_version (Option.some ethertype) l3 = ok (
    if ethertype == Ethernet.ethertype_ipv4
    then Option.some 4
    else if ethertype == Ethernet.ethertype_ipv6
    then Option.some 6
    else Option.none)
ip_version Option.none l3 = do need l3 1 Layer.link; b ← at l3 0; ok (Option.some (b / 16))

unfoldable pub parse_ip : ℕ → List ℕ → Parsed (IpHeader × List ℕ)
parse_ip version l3 =
    if version == 4
    then Ipv4.parse l3
    else if version == 6
    then Ipv6.parse l3
    else err (malformed Layer.link "unknown ip version")

-- The DNS part: an error of the DNS parser is recorded in the packet.
unfoldable pub record_dns : Packet → Parsed DnsInfo → Parsed Packet
record_dns packet (ok info) = ok (record packet { app = dns info })
record_dns packet (err e) = ok (record packet { app = dns_error e })
record_dns packet panic = panic
record_dns packet diverge = diverge

unfoldable pub is_empty : List ℕ → Bool
is_empty [] = true
is_empty (b ∷ bytes) = false

unfoldable pub parse_app : Packet → List ℕ → Parsed Packet
unfolding record_dns ports is_empty
parse_app packet payload =
    let (sport, dport) = ports packet.transport in
    if (sport == Dns.port || dport == Dns.port) && not (is_empty payload)
    then record_dns packet (Dns.parse payload)
    else ok packet

unfoldable pub parse_tcp : Packet → List ℕ → Parsed Packet
parse_tcp packet l4 = do (h, _) ← Tcp.parse l4; ok (record packet { transport = tcp h })

unfoldable pub parse_udp : Packet → List ℕ → Parsed Packet
unfolding parse_app
parse_udp packet l4 = do
  (h, payload) ← Udp.parse l4
  parse_app (record packet { transport = udp h }) payload

unfoldable pub parse_icmp : Packet → List ℕ → Bool → Parsed Packet
parse_icmp packet l4 v6 = do h ← Icmp.parse l4 v6; ok (record packet { transport = icmp h })

-- The part of `parse` behind the IP header.
unfoldable pub parse_transport : Packet → IpHeader → List ℕ → Parsed Packet
unfolding parse_tcp parse_udp parse_icmp
parse_transport packet ip l4 =
    if not (ip.fragment_offset == 0)
    then ok (record packet { transport = later_fragment })
    else if ip.proto == proto_tcp
    then parse_tcp packet l4
    else if ip.proto == proto_udp
    then parse_udp packet l4
    else if ip.proto == proto_icmp || ip.proto == proto_icmpv6
    then parse_icmp packet l4 (ip.proto == proto_icmpv6)
    else ok (record packet { transport = other ip.proto })

-- What is known of a frame before its IP header.
abbrev pub bare : Frame → Option ℕ → Packet
bare frame ethertype = record {
  ts_us = frame.ts_us;
  wire_len = frame.wire_len;
  ethertype = ethertype;
  ip = Option.none;
  transport = none;
  app = none;
}

-- The part of `parse` behind the version of IP.
unfoldable pub parse_version : Packet → List ℕ → Option ℕ → Parsed Packet
unfolding parse_ip parse_transport
parse_version packet l3 Option.none = ok packet
parse_version packet l3 (Option.some version) = do
  (ip, l4) ← parse_ip version l3
  parse_transport (record packet { ip = Option.some ip }) ip l4

unfoldable pub parse : LinkType → Frame → Parsed Packet
unfolding parse_link ip_version parse_version
parse link frame = do
  (ethertype, l3) ← parse_link link frame.bytes
  version ← ip_version ethertype l3
  parse_version (bare frame ethertype) l3 version

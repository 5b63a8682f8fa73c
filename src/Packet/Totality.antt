-- ===== src/Packet/Totality.antt =====
-- core-rs/core/src/packet: on every input the parsers return, with a packet or with an error.
use netmon_polyglot.Prelude.{◌==◌, ℕ, ◌+◌, Bool, List, arith, Option, none, some}
use netmon_polyglot.Prelude.Outcome.{ok, err, panic, diverge, Returns, Returns->>=}
use netmon_polyglot.ParseError.{Layer}
use netmon_polyglot.Packet.Bytes.{
  Parsed, need_enough, need_short, at-byte, be16-word16, slice_from-drop,
}
use netmon_polyglot.Packet
use netmon_polyglot.Packet.{Packet}
use netmon_polyglot.Packet.Header.{LinkType, Frame, IpHeader}
use netmon_polyglot.Packet.Tcp
use netmon_polyglot.Packet.Udp
use netmon_polyglot.Packet.Icmp
use netmon_polyglot.Packet.Ipv4
use netmon_polyglot.Packet.Ipv6.Walk
use netmon_polyglot.Packet.Ethernet
use netmon_polyglot.Packet.Dns
use netmon_polyglot.Packet.Dns.Names

tcp-Returns : (buf : List ℕ) → Returns (Tcp.parse buf)
tcp-Returns buf = rw (Tcp.parse_tcp_lem buf) (ground arith)

udp-Returns : (buf : List ℕ) → Returns (Udp.parse buf)
udp-Returns buf = rw (Udp.parse_udp_lem buf) (ground arith)

icmp-Returns : (buf : List ℕ) (v6 : Bool) → Returns (Icmp.parse buf v6)
icmp-Returns buf v6 = rw (Icmp.parse_icmp_lem buf v6) (ground arith)

ipv4-Returns : (buf : List ℕ) → Returns (Ipv4.parse buf)
ipv4-Returns buf = rw (Ipv4.parse_ipv4_lem buf) (ground arith)

ethernet-Returns : (buf : List ℕ) → Returns (Ethernet.parse buf)
ethernet-Returns buf = rw (Ethernet.parse_ethernet_lem buf) (ground arith)

question-Returns : (msg : List ℕ) → Returns (Dns.first_question msg)
unfolding Dns.first_question
question-Returns msg =
    Returns->>= (Dns.read_name msg Dns.header_len) _ (Names.read_name-Returns msg Dns.header_len)
      λ r e. ground (
        arith,
        need_enough msg (r.1 + 2) Layer.dns,
        need_short msg (r.1 + 2) Layer.dns,
        be16-word16 msg r.1,
      )

pub dns-Returns : (msg : List ℕ) → Returns (Dns.parse msg)
unfolding Dns.parse Dns.read_question
dns-Returns msg = ground (
  arith,
  need_enough msg 12 Layer.dns,
  need_short msg 12 Layer.dns,
  be16-word16 msg 0,
  be16-word16 msg 4,
  be16-word16 msg 6,
  at-byte msg 2,
  at-byte msg 3,
  question-Returns msg,
)

link-Returns : (link : LinkType) (bytes : List ℕ) → Returns (Packet.parse_link link bytes)
unfolding Packet.parse_link
link-Returns LinkType.ethernet bytes =
    Returns->>= (Ethernet.parse bytes) _ (ethernet-Returns bytes) λ r e. tt
link-Returns LinkType.null bytes =
    ground (
      arith,
      need_enough bytes 4 Layer.link,
      need_short bytes 4 Layer.link,
      slice_from-drop bytes 4,
    )
link-Returns LinkType.raw bytes = tt

version-Returns : (ethertype : Option ℕ) (l3 : List ℕ) → Returns (Packet.ip_version ethertype l3)
unfolding Packet.ip_version
version-Returns (some ethertype) l3 = tt
version-Returns none l3 =
    ground (arith, need_enough l3 1 Layer.link, need_short l3 1 Layer.link, at-byte l3 0)

ip-Returns : (version : ℕ) (l3 : List ℕ) → Returns (Packet.parse_ip version l3)
unfolding Packet.parse_ip
ip-Returns version l3 = ground (arith, ipv4-Returns l3, Walk.parse_ipv6-Returns l3)

record_dns-Returns :
    (packet : Packet) (r : Parsed Dns.DnsInfo) → Returns r → Returns (Packet.record_dns packet r)
unfolding Packet.record_dns
record_dns-Returns packet (ok info) h = tt
record_dns-Returns packet (err e) h = tt
record_dns-Returns packet panic h = h
record_dns-Returns packet diverge h = h

app-Returns : (packet : Packet) (payload : List ℕ) → Returns (Packet.parse_app packet payload)
unfolding Packet.parse_app
app-Returns packet payload =
    ground (arith, record_dns-Returns packet (Dns.parse payload) (dns-Returns payload))

udp_packet-Returns : (packet : Packet) (l4 : List ℕ) → Returns (Packet.parse_udp packet l4)
unfolding Packet.parse_udp
udp_packet-Returns packet l4 =
    Returns->>= (Udp.parse l4) _ (udp-Returns l4)
      λ r _. app-Returns (record packet { transport = Packet.udp r.0 }) r.1

transport-Returns :
    (packet : Packet) (ip : IpHeader) (l4 : List ℕ) → Returns (Packet.parse_transport packet ip l4)
unfolding Packet.parse_transport Packet.parse_tcp Packet.parse_icmp
transport-Returns packet ip l4 = ground (
  arith,
  tcp-Returns l4,
  udp_packet-Returns packet l4,
  icmp-Returns l4 (ip.proto == Packet.proto_icmpv6),
)

after_version :
    (packet : Packet) (l3 : List ℕ) (version : Option ℕ)
    → Returns (Packet.parse_version packet l3 version)
unfolding Packet.parse_version
after_version packet l3 none = tt
after_version packet l3 (some version) =
    Returns->>= (Packet.parse_ip version l3) _ (ip-Returns version l3)
      λ r _. transport-Returns (record packet { ip = some r.0 }) r.0 r.1

-- On every link type and every frame the parser returns a packet or an error: no index or slice is
-- out of range, and no loop runs for ever.
pub parse-Returns : (link : LinkType) (frame : Frame) → Returns (Packet.parse link frame)
unfolding Packet.parse
parse-Returns link frame =
    Returns->>= (Packet.parse_link link frame.bytes) _ (link-Returns link frame.bytes) λ l _.
      Returns->>= (Packet.ip_version l.0 l.1) _ (version-Returns l.0 l.1)
        λ v _. after_version (Packet.bare frame l.0) l.1 v

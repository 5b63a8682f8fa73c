-- ===== src/Tests/Packets.antt =====
-- The theorems on the parsers at concrete frames and messages.
use netmon_polyglot.Packet.Bytes
use netmon_polyglot.Prelude.Outcome.{ok, Returns}
use netmon_polyglot.Prelude.{◌++◌, ℕ, ◌≡◌, List, ◌≤◌, ◌∷◌, refl, false, []}
use netmon_polyglot.Packet
use netmon_polyglot.Packet.Header.{LinkType}
use netmon_polyglot.Packet.Totality
use netmon_polyglot.Packet.Tcp
use netmon_polyglot.Packet.Icmp
use netmon_polyglot.Packet.Ipv4
use netmon_polyglot.Packet.Ipv6
use netmon_polyglot.Packet.Ipv6.Walk
use netmon_polyglot.Packet.Ethernet
use netmon_polyglot.Packet.Dns
use netmon_polyglot.Packet.Dns.Names
use netmon_polyglot.Tests.Data.{syn_frame, syn_packet}

parse-Returns_example : Returns (Packet.parse LinkType.ethernet (syn_frame 5))
parse-Returns_example = Totality.parse-Returns LinkType.ethernet (syn_frame 5)

syn_frame_parses : Packet.parse LinkType.ethernet (syn_frame 5) ≡ ok (syn_packet 5)
unfolding Packet.parse Packet.parse_link Packet.ip_version Packet.parse_ip Packet.parse_transport
    Packet.parse_tcp Ethernet.parse Ipv4.parse Tcp.parse Bytes.need Bytes.slice Bytes.be16 Bytes.at
    Ethernet.is_tag Bytes.slice_from Bytes.be32
syn_frame_parses = refl

parse_icmp_lem_example :
    Icmp.parse (8 ∷ 0 ∷ 1 ∷ 2 ∷ []) false ≡ ok (record { icmp_type = 8; code = 0; v6 = false })
parse_icmp_lem_example = Icmp.parse_icmp_lem (8 ∷ 0 ∷ 1 ∷ 2 ∷ []) false

abbrev zeros16 : List ℕ
zeros16 = 0 ∷ 0 ∷ 0 ∷ 0 ∷ 0 ∷ 0 ∷ 0 ∷ 0 ∷ 0 ∷ 0 ∷ 0 ∷ 0 ∷ 0 ∷ 0 ∷ 0 ∷ 1 ∷ []

-- A fragment header, then two bytes of UDP; the packet holds two more bytes than it declares.
abbrev ipv6_packet : List ℕ
ipv6_packet =
    0x60 ∷ 0 ∷ 0 ∷ 0 ∷ 0 ∷ 10 ∷ 44 ∷ 64 ∷ zeros16
    ++ zeros16
    ++ 17 ∷ 0 ∷ 0 ∷ 9 ∷ 0 ∷ 0 ∷ 0 ∷ 1 ∷ 7 ∷ 8 ∷ 99 ∷ 99 ∷ []

parse_ipv6_lem_example :
    Ipv6.parse ipv6_packet ≡ Ipv6.walk 8 (Walk.trimmed ipv6_packet) (Walk.header_at ipv6_packet) 40
parse_ipv6_lem_example = Walk.parse_ipv6_lem ipv6_packet

-- "A.b", with the label "b" behind a pointer to it.
abbrev message : List ℕ
message = 1 ∷ 98 ∷ 0 ∷ 1 ∷ 65 ∷ 0xc0 ∷ 0 ∷ []

name_read : Dns.read_name message 3 ≡ ok (97 ∷ 46 ∷ 98 ∷ [], 7)
unfolding Dns.read_name Dns.read_labels Dns.round Dns.literal Dns.pointer Dns.push_label
    Dns.get_range Dns.printable_lower Dns.is_ascii_graphic Dns.to_ascii_lowercase
name_read = refl

read_name-All_example : (3 ≤ Dns.max_name_len) × Names.All Names.IsNameChar (97 ∷ 46 ∷ 98 ∷ [])
read_name-All_example = Names.read_name-All message 3 {name = 97 ∷ 46 ∷ 98 ∷ []} {end = 7} name_read

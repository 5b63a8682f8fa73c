-- ===== src/Packet/Shape.antt =====
-- core-rs/core/src/packet/mod.rs: which parts of a parsed packet can stand together.
use netmon_polyglot.Packet.Udp.{UdpHeader}
use netmon_polyglot.Flow.{is_some}
use netmon_polyglot.Prelude.{
  ◌==◌, Option, not, ◌&&◌, ◌||◌, List, Bool, arith, false, true, some, none, ℕ, ◌≡◌, refl,
}
use netmon_polyglot.Prelude.Outcome.{ok, err, panic, diverge, >>=-eq-ok}
use netmon_polyglot.Packet
use netmon_polyglot.Packet.{Option, not, UdpHeader, Bool, List, Packet, Transport, App}
use netmon_polyglot.Packet.Header.{LinkType, Frame, IpHeader}
use netmon_polyglot.Packet.Tcp
use netmon_polyglot.Packet.Udp
use netmon_polyglot.Packet.Icmp
use netmon_polyglot.Packet.Dns

unfoldable pub is_udp : Transport → Bool
is_udp (Transport.udp h) = true
is_udp transport = false

unfoldable pub is_none : Transport → Bool
is_none Transport.none = true
is_none transport = false

unfoldable pub has_app : App → Bool
has_app App.none = false
has_app app = true

-- Only a packet with an IP header has a transport, and only a UDP datagram carries DNS.
unfoldable pub is_consistent : Packet → Bool
unfolding is_udp is_none has_app is_some
is_consistent p =
    (is_some p.ip || is_none p.transport) && (not (has_app p.app) || is_udp p.transport)

-- The packet is consistent, with the frame's time and length.
pub record IsShaped (ts_us wire_len : ℕ) (p : Packet) : Type 0 where
  pub same_ts : p.ts_us ≡ ts_us
  pub same_len : p.wire_len ≡ wire_len
  pub consistent : is_consistent p ≡ true

module _ (q : Packet) (ip : IpHeader) (has_ip : q.ip ≡ some ip) (no_app : q.app ≡ App.none) where
  record_dns-IsShaped :
      (r : Packet.Parsed Dns.DnsInfo) {p : Packet}
      → is_udp q.transport ≡ true
      → Packet.record_dns q r ≡ ok p
      → IsShaped q.ts_us q.wire_len p
  unfolding Packet.record_dns is_consistent
  record_dns-IsShaped (ok info) u e = record {
    same_ts = ground arith;
    same_len = ground arith;
    consistent = ground arith;
  }
  record_dns-IsShaped (err x) u e = record {
    same_ts = ground arith;
    same_len = ground arith;
    consistent = ground arith;
  }
  record_dns-IsShaped panic u e = absurd (ground arith)
  record_dns-IsShaped diverge u e = absurd (ground arith)

  app-IsShaped :
      (payload : List ℕ) {p : Packet}
      → is_udp q.transport ≡ true
      → Packet.parse_app q payload ≡ ok p
      → IsShaped q.ts_us q.wire_len p
  unfolding Packet.parse_app is_consistent
  app-IsShaped payload {p} u e = ground (arith, record_dns-IsShaped (Dns.parse payload) {p = p} u)

module _ (q : Packet) (ip : IpHeader) (has_ip : q.ip ≡ some ip) (no_app : q.app ≡ App.none) where
  tcp-IsShaped :
      (l4 : List ℕ) {p : Packet} → Packet.parse_tcp q l4 ≡ ok p → IsShaped q.ts_us q.wire_len p
  unfolding Packet.parse_tcp is_consistent
  tcp-IsShaped l4 {p} e =
      let (r, _, same) = >>=-eq-ok (Tcp.parse l4) _ e in
      record { same_ts = ground arith; same_len = ground arith; consistent = ground arith }

  icmp-IsShaped :
      (l4 : List ℕ) (v6 : Bool) {p : Packet}
      → Packet.parse_icmp q l4 v6 ≡ ok p
      → IsShaped q.ts_us q.wire_len p
  unfolding Packet.parse_icmp is_consistent
  icmp-IsShaped l4 v6 {p} e =
      let (r, _, same) = >>=-eq-ok (Icmp.parse l4 v6) _ e in
      record { same_ts = ground arith; same_len = ground arith; consistent = ground arith }

  udp-IsShaped :
      (l4 : List ℕ) {p : Packet} → Packet.parse_udp q l4 ≡ ok p → IsShaped q.ts_us q.wire_len p
  unfolding Packet.parse_udp is_udp
  udp-IsShaped l4 {p} e =
      let (r, _, same) = >>=-eq-ok (Udp.parse l4) _ e in
      app-IsShaped (record q { transport = Packet.udp r.0 }) ip has_ip no_app r.1 {p = p} refl same

  transport-IsShaped :
      (l4 : List ℕ) {p : Packet}
      → Packet.parse_transport q ip l4 ≡ ok p
      → IsShaped q.ts_us q.wire_len p
  unfolding Packet.parse_transport is_consistent
  transport-IsShaped l4 {p} e = ground (
    arith,
    tcp-IsShaped l4 {p = p},
    udp-IsShaped l4 {p = p},
    icmp-IsShaped l4 (ip.proto == Packet.proto_icmpv6) {p = p},
  )

version-IsShaped :
    (frame : Frame) (ethertype version : Option ℕ) (l3 : List ℕ) {p : Packet}
    → Packet.parse_version (Packet.bare frame ethertype) l3 version ≡ ok p
    → IsShaped frame.ts_us frame.wire_len p
unfolding Packet.parse_version is_consistent
version-IsShaped frame ethertype none l3 {p} e = record {
  same_ts = ground arith;
  same_len = ground arith;
  consistent = ground arith;
}
version-IsShaped frame ethertype (some v) l3 {p} e =
    let ((ip, l4), _, same) = >>=-eq-ok (Packet.parse_ip v l3) _ e in
    transport-IsShaped (record (Packet.bare frame ethertype) { ip = some ip }) ip refl refl l4
      {p = p} same

-- A parsed packet has the time and the length of its frame; it has a transport only with an IP
-- header, and DNS only in a UDP datagram.
pub parse-IsShaped :
    (link : LinkType) (frame : Frame) {p : Packet}
    → Packet.parse link frame ≡ ok p
    → IsShaped frame.ts_us frame.wire_len p
unfolding Packet.parse
parse-IsShaped link frame {p} e =
    let (l, _, rest) = >>=-eq-ok (Packet.parse_link link frame.bytes) _ e in
    let (v, _, last) = >>=-eq-ok (Packet.ip_version l.0 l.1) _ rest in
    version-IsShaped frame l.0 v l.1 {p = p} last

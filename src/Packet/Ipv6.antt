-- ===== src/Packet/Ipv6.antt =====
-- core-rs/core/src/packet/ipv6.rs
pub mod Walk
use netmon_polyglot.Prelude.{
  ℕ, zero, suc, String, ◌+◌, ◌*◌, ◌/◌, false, not, ◌||◌, Option, none, some, List, ◌==◌,
  if◌then◌else◌, length, min, bit_and,
}
use netmon_polyglot.Prelude.Outcome.{ok, err, reject_if, ◌>>=◌, ◌>>◌}
use netmon_polyglot.ParseError.{Layer, ParseError}
use netmon_polyglot.Net.{IpAddr, v6}
use netmon_polyglot.Packet.Bytes.{Parsed, need, at, be16, slice, slice_from}
use netmon_polyglot.Packet.Header.{IpHeader}

abbrev pub header_len : ℕ
header_len = 40

abbrev pub max_extension_headers : ℕ
max_extension_headers = 8

abbrev pub nh_hop_by_hop : ℕ
nh_hop_by_hop = 0

abbrev pub nh_routing : ℕ
nh_routing = 43

abbrev pub nh_fragment : ℕ
nh_fragment = 44

abbrev pub nh_auth : ℕ
nh_auth = 51

abbrev pub nh_dest_opts : ℕ
nh_dest_opts = 60

abbrev pub fragment_header_len : ℕ
fragment_header_len = 8

abbrev pub malformed : String → ParseError
malformed reason = ParseError.malformed Layer.ipv6 reason

-- `addr_at`
unfoldable pub addr_at : List ℕ → ℕ → Parsed IpAddr
addr_at buf i = do octets ← slice buf i (i + 16); ok (v6 octets)

-- The `match` of the loop: the header with its fragment fields, and the extension's length. `none`
-- is the arm that returns.
unfoldable pub extension : List ℕ → IpHeader → ℕ → Parsed (Option (IpHeader × ℕ))
extension packet header offset =
    if header.proto == nh_hop_by_hop || (header.proto == nh_routing || header.proto == nh_dest_opts)
    then (do
      need packet (offset + 2) Layer.ipv6
      b ← at packet (offset + 1)
      ok (some (header, (b + 1) * 8)))
    else if header.proto == nh_auth
    then (do
      need packet (offset + 2) Layer.ipv6
      b ← at packet (offset + 1)
      ok (some (header, (b + 2) * 4)))
    else if header.proto == nh_fragment
    then (do
      need packet (offset + fragment_header_len) Layer.ipv6
      field ← be16 packet (offset + 2)
      ok (
          some (
            record header {
              fragment_offset = field / 8;
              more_fragments = not (bit_and field 0x0001 == 0);
            },
            fragment_header_len,
          )))
    else ok none

-- The loop, with its remaining rounds.
unfoldable pub walk : ℕ → List ℕ → IpHeader → ℕ → Parsed (IpHeader × List ℕ)
walk zero packet header offset = err (malformed "too many extension headers")
walk (suc rounds) packet header offset = do
  found ← extension packet header offset
  elim found [
    | none ↦ do rest ← slice_from packet offset; ok (header, rest)
    | some (header', ext_len) ↦ do
      need packet (offset + ext_len) Layer.ipv6
      proto ← at packet offset
      walk rounds packet (record header' { proto = proto }) (offset + ext_len)
  ]

unfoldable pub parse : List ℕ → Parsed (IpHeader × List ℕ)
unfolding addr_at walk extension
parse buf = do
  need buf header_len Layer.ipv6
  b0 ← at buf 0
  reject_if (not (b0 / 16 == 6)) (malformed "version is not 6")
  payload_len ← be16 buf 4
  packet ← slice buf 0 (min (header_len + payload_len) (length buf))
  src ← addr_at buf 8
  dst ← addr_at buf 24
  proto ← at buf 6
  ttl ← at buf 7
  walk max_extension_headers packet
      (record {
        src = src;
        dst = dst;
        proto = proto;
        ttl = ttl;
        more_fragments = false;
        fragment_offset = 0;
      })
      header_len

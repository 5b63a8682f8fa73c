-- ===== src/Packet/Ipv6/Walk.antt =====
-- core-rs/core/src/packet/ipv6.rs: the walk over the extension headers against a description of a
-- chain of headers by places in the packet.
use netmon_polyglot.Prelude.{
  ℕ, zero, suc, ◌+◌, ◌-◌, ◌*◌, ◌/◌, ◌≡◌, ◌≤◌, Bool, false, not, ◌||◌, List, arith, ltb, ◌==◌,
  if◌then◌else◌, length, drop, take, min, bit_and, length-take,
}
use netmon_polyglot.Prelude.Outcome.{ok, err, Returns}
use netmon_polyglot.ParseError.{Layer, truncated}
use netmon_polyglot.Packet.Bytes.{
  Parsed, slice, byte, word16, at-byte, be16-word16, need_enough, need_short, slice-take-drop,
  slice_from-drop,
}
use netmon_polyglot.Packet.Header.{IpHeader}
use netmon_polyglot.Net.{v6}
use netmon_polyglot.Packet.Ipv6.{
  malformed, header_len, max_extension_headers, addr_at, parse, extension, walk, nh_hop_by_hop,
  nh_routing, nh_dest_opts, nh_auth, nh_fragment,
}

unfoldable pub is_extension : ℕ → Bool
is_extension proto =
    proto == nh_hop_by_hop
    || (proto == nh_routing
        || (proto == nh_dest_opts || (proto == nh_auth || proto == nh_fragment)))

-- The bytes of an extension header that are read for its length.
unfoldable pub fixed_part : ℕ → ℕ
fixed_part proto = if proto == nh_fragment then 8 else 2

unfoldable pub extension_len : List ℕ → ℕ → ℕ → ℕ
extension_len packet proto offset =
    if proto == nh_fragment
    then 8
    else if proto == nh_auth
    then (byte packet (offset + 1) + 2) * 4
    else (byte packet (offset + 1) + 1) * 8

-- The header behind an extension header: the next protocol, and the fields of a fragment header.
unfoldable pub next_header : List ℕ → IpHeader → ℕ → IpHeader
next_header packet h offset =
    if h.proto == nh_fragment
    then record h {
      proto = byte packet offset;
      fragment_offset = word16 packet (offset + 2) / 8;
      more_fragments = not (bit_and (word16 packet (offset + 2)) 1 == 0);
    }
    else record h { proto = byte packet offset }

-- From an offset within the packet, a round of the walk ends at a header that is no extension, fails
-- when the extension header does not fit in the packet, and else goes on behind it, with the fields
-- of a fragment header noted.
pub walk_step :
    (rounds : ℕ) (packet : List ℕ) (h : IpHeader) (offset : ℕ)
    → offset ≤ length packet
    → walk (suc rounds) packet h offset ≡ (
        if not (is_extension h.proto)
        then ok (h, drop offset packet)
        else if ltb (length packet) (offset + fixed_part h.proto)
        then err (truncated Layer.ipv6 (offset + fixed_part h.proto) (length packet))
        else if ltb (length packet) (offset + extension_len packet h.proto offset)
        then err
            (truncated Layer.ipv6 (offset + extension_len packet h.proto offset) (length packet))
        else walk rounds packet
            (next_header packet h offset)
            (offset + extension_len packet h.proto offset))
unfolding walk extension is_extension fixed_part extension_len next_header
walk_step rounds packet h offset within = ground (
  arith,
  need_enough packet (offset + 2) Layer.ipv6,
  need_short packet (offset + 2) Layer.ipv6,
  need_enough packet (offset + 8) Layer.ipv6,
  need_short packet (offset + 8) Layer.ipv6,
  need_enough packet (offset + (byte packet (offset + 1) + 1) * 8) Layer.ipv6,
  need_short packet (offset + (byte packet (offset + 1) + 1) * 8) Layer.ipv6,
  need_enough packet (offset + (byte packet (offset + 1) + 2) * 4) Layer.ipv6,
  need_short packet (offset + (byte packet (offset + 1) + 2) * 4) Layer.ipv6,
  at-byte packet offset,
  at-byte packet (offset + 1),
  be16-word16 packet (offset + 2),
  slice_from-drop packet offset,
)

-- From within the packet the walk returns.
pub walk-Returns :
    (rounds : ℕ) (packet : List ℕ) (h : IpHeader) (offset : ℕ)
    → offset ≤ length packet
    → Returns (walk rounds packet h offset)
walk-Returns zero packet h offset within = unfold walk in tt
walk-Returns (suc rounds) packet h offset within = rw (walk_step rounds packet h offset within) (
    ground (
      arith,
      walk-Returns rounds packet (next_header packet h offset)
          (offset + extension_len packet h.proto offset),
    ))

-- The fixed header by its places, before the walk.
abbrev pub header_at : List ℕ → IpHeader
header_at buf = record {
  src = v6 (take 16 (drop 8 buf));
  dst = v6 (take 16 (drop 24 buf));
  proto = byte buf 6;
  ttl = byte buf 7;
  more_fragments = false;
  fragment_offset = 0;
}

-- The packet without what the capture holds behind its payload.
abbrev pub trimmed : List ℕ → List ℕ
trimmed buf = take (min (header_len + word16 buf 4) (length buf)) buf

-- `parse` up to the walk, with no access that can fail.
abbrev pub parsed : List ℕ → Parsed (IpHeader × List ℕ)
parsed buf =
    if ltb (length buf) header_len
    then err (truncated Layer.ipv6 header_len (length buf))
    else if not (byte buf 0 / 16 == 6)
    then err (malformed "version is not 6")
    else walk max_extension_headers (trimmed buf) (header_at buf) header_len

slice_prefix : (buf : List ℕ) (n : ℕ) → n ≤ length buf → slice buf 0 n ≡ ok (take n buf)
slice_prefix buf n h = ground (arith, slice-take-drop buf 0 n)

addr_at-v6 :
    (buf : List ℕ) (i : ℕ) → i + 16 ≤ length buf → addr_at buf i ≡ ok (v6 (take 16 (drop i buf)))
unfolding addr_at
addr_at-v6 buf i h =
    let width : i + 16 - i ≡ 16 = omega arith in
    rw (slice-take-drop buf i (i + 16) (omega arith) h, width)

-- A packet is rejected before the walk exactly when it is shorter than 40 bytes or not of version 6;
-- otherwise the walk starts behind the fixed header, with the fields from their places, on the packet
-- without what follows its payload.
pub parse_ipv6_lem : (buf : List ℕ) → parse buf ≡ parsed buf
unfolding parse
parse_ipv6_lem buf = ground (
  arith,
  need_enough buf 40 Layer.ipv6,
  need_short buf 40 Layer.ipv6,
  at-byte buf 0,
  at-byte buf 6,
  at-byte buf 7,
  be16-word16 buf 4,
  slice_prefix buf (min (40 + word16 buf 4) (length buf)),
  addr_at-v6 buf 8,
  addr_at-v6 buf 24,
)

pub parse_ipv6-Returns : (buf : List ℕ) → Returns (parse buf)
parse_ipv6-Returns buf = rw (parse_ipv6_lem buf) (
    ground (
      arith,
      length-take (min (40 + word16 buf 4) (length buf)) buf,
      walk-Returns max_extension_headers (trimmed buf) (header_at buf) header_len,
    ))

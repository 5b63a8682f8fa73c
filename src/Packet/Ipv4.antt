-- ===== src/Packet/Ipv4.antt =====
-- core-rs/core/src/packet/ipv4.rs
use netmon_polyglot.Prelude.{
  ℕ, String, ◌-◌, ◌*◌, ◌/◌, ◌≡◌, not, List, [], ◌∷◌, arith, ltb, ◌==◌, if◌then◌else◌, length, drop,
  take, min, bit_and,
}
use netmon_polyglot.Prelude.Outcome.{ok, err, reject_if, ◌>>=◌, ◌>>◌}
use netmon_polyglot.ParseError.{Layer, ParseError, truncated}
use netmon_polyglot.Net.{v4}
use netmon_polyglot.Packet.Bytes.{
  Parsed, need, at, be16, slice, byte, word16, at-byte, be16-word16, need_enough, need_short,
  slice-take-drop,
}
use netmon_polyglot.Packet.Header.{IpHeader}

abbrev pub min_header_len : ℕ
min_header_len = 20

abbrev pub flag_more_fragments : ℕ
flag_more_fragments = 0x2000

abbrev pub fragment_offset_mask : ℕ
fragment_offset_mask = 0x1fff

abbrev malformed : String → ParseError
malformed reason = ParseError.malformed Layer.ipv4 reason

-- `usize::from(buf[0] & 0x0F) * 4`
abbrev pub header_length : ℕ → ℕ
header_length b = bit_and b 0x0f * 4

unfoldable pub parse : List ℕ → Parsed (IpHeader × List ℕ)
parse buf = do
  need buf min_header_len Layer.ipv4
  b0 ← at buf 0
  reject_if (not (b0 / 16 == 4)) (malformed "version is not 4")
  let header_len = header_length b0
  reject_if (ltb header_len min_header_len) (malformed "header length below 20")
  need buf header_len Layer.ipv4
  total_len ← be16 buf 2
  reject_if (ltb total_len header_len) (malformed "total length smaller than header")
  let payload_end = min total_len (length buf)
  flags_offset ← be16 buf 6
  s0 ← at buf 12
  s1 ← at buf 13
  s2 ← at buf 14
  s3 ← at buf 15
  d0 ← at buf 16
  d1 ← at buf 17
  d2 ← at buf 18
  d3 ← at buf 19
  proto ← at buf 9
  ttl ← at buf 8
  payload ← slice buf header_len payload_end
  ok (
    record {
      src = v4 (s0 ∷ s1 ∷ s2 ∷ s3 ∷ []);
      dst = v4 (d0 ∷ d1 ∷ d2 ∷ d3 ∷ []);
      proto = proto;
      ttl = ttl;
      more_fragments = not (bit_and flags_offset flag_more_fragments == 0);
      fragment_offset = bit_and flags_offset fragment_offset_mask;
    },
    payload,
  )

abbrev pub header_at : List ℕ → IpHeader
header_at buf = record {
  src = v4 (byte buf 12 ∷ byte buf 13 ∷ byte buf 14 ∷ byte buf 15 ∷ []);
  dst = v4 (byte buf 16 ∷ byte buf 17 ∷ byte buf 18 ∷ byte buf 19 ∷ []);
  proto = byte buf 9;
  ttl = byte buf 8;
  more_fragments = not (bit_and (word16 buf 6) flag_more_fragments == 0);
  fragment_offset = bit_and (word16 buf 6) fragment_offset_mask;
}

-- `parse` in one expression, with no access that can fail.
abbrev pub parsed : List ℕ → Parsed (IpHeader × List ℕ)
parsed buf =
    let header_len = header_length (byte buf 0) in
    let total_len = word16 buf 2 in
    if ltb (length buf) min_header_len
    then err (truncated Layer.ipv4 min_header_len (length buf))
    else if not (byte buf 0 / 16 == 4)
    then err (malformed "version is not 4")
    else if ltb header_len min_header_len
    then err (malformed "header length below 20")
    else if ltb (length buf) header_len
    then err (truncated Layer.ipv4 header_len (length buf))
    else if ltb total_len header_len
    then err (malformed "total length smaller than header")
    else ok (header_at buf, take (min total_len (length buf) - header_len) (drop header_len buf))

-- A packet is rejected exactly when it is shorter than 20 bytes, is not of version 4, declares a
-- header below 20 bytes or longer than the buffer, or a total length below the header; otherwise the
-- fields are at their places and the payload ends at the total length, or at the end of the buffer.
pub parse_ipv4_lem : (buf : List ℕ) → parse buf ≡ parsed buf
unfolding parse
parse_ipv4_lem buf = ground (
  arith,
  need_enough buf 20 Layer.ipv4,
  need_short buf 20 Layer.ipv4,
  need_enough buf (header_length (byte buf 0)) Layer.ipv4,
  need_short buf (header_length (byte buf 0)) Layer.ipv4,
  at-byte buf 0,
  at-byte buf 8,
  at-byte buf 9,
  at-byte buf 12,
  at-byte buf 13,
  at-byte buf 14,
  at-byte buf 15,
  at-byte buf 16,
  at-byte buf 17,
  at-byte buf 18,
  at-byte buf 19,
  be16-word16 buf 2,
  be16-word16 buf 6,
  slice-take-drop buf (header_length (byte buf 0)) (min (word16 buf 2) (length buf)),
)

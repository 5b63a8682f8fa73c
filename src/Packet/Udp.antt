-- ===== src/Packet/Udp.antt =====
-- core-rs/core/src/packet/udp.rs
use netmon_polyglot.Prelude.{
  ℕ, ◌-◌, ◌≡◌, not, ◌&&◌, List, arith, ltb, ◌==◌, if◌then◌else◌, length, drop, take, min,
}
use netmon_polyglot.Prelude.Outcome.{ok, err, reject_if, ◌>>=◌, ◌>>◌}
use netmon_polyglot.ParseError.{Layer, truncated, malformed}
use netmon_polyglot.Packet.Bytes.{
  Parsed, need, be16, slice, word16, be16-word16, need_enough, need_short, slice-take-drop,
}

abbrev pub header_len : ℕ
header_len = 8

pub record UdpHeader : Type 0 where
  pub src_port : ℕ
  pub dst_port : ℕ
  pub len : ℕ

-- The end of the datagram: a declared length of 0 takes all that was captured.
unfoldable pub payload_end : List ℕ → ℕ → ℕ
payload_end buf declared = if declared == 0 then length buf else min declared (length buf)

unfoldable pub parse : List ℕ → Parsed (UdpHeader × List ℕ)
unfolding payload_end
parse buf = do
  need buf header_len Layer.udp
  src_port ← be16 buf 0
  dst_port ← be16 buf 2
  declared ← be16 buf 4
  reject_if (not (declared == 0) && ltb declared header_len)
      (malformed Layer.udp "length below header size")
  payload ← slice buf header_len (payload_end buf declared)
  ok (record { src_port = src_port; dst_port = dst_port; len = declared }, payload)

abbrev pub header_at : List ℕ → UdpHeader
header_at buf = record { src_port = word16 buf 0; dst_port = word16 buf 2; len = word16 buf 4 }

-- `parse` in one expression, with no access that can fail.
abbrev pub parsed : List ℕ → Parsed (UdpHeader × List ℕ)
parsed buf =
    let declared = word16 buf 4 in
    if ltb (length buf) header_len
    then err (truncated Layer.udp header_len (length buf))
    else if not (declared == 0) && ltb declared header_len
    then err (malformed Layer.udp "length below header size")
    else ok (header_at buf, take (payload_end buf declared - header_len) (drop header_len buf))

-- A datagram is rejected exactly when it is shorter than 8 bytes or declares a length from 1 to 7;
-- otherwise the fields are at their places, big-endian, and the payload ends at the declared length,
-- or at the end of the buffer when that is 0 or too long.
pub parse_udp_lem : (buf : List ℕ) → parse buf ≡ parsed buf
unfolding parse
parse_udp_lem buf = ground (
  arith,
  need_enough buf 8 Layer.udp,
  need_short buf 8 Layer.udp,
  be16-word16 buf 0,
  be16-word16 buf 2,
  be16-word16 buf 4,
  slice-take-drop buf 8 (payload_end buf (word16 buf 4)),
)

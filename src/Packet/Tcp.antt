-- ===== src/Packet/Tcp.antt =====
-- core-rs/core/src/packet/tcp.rs
use netmon_polyglot.Prelude.{
  ℕ, ◌*◌, ◌/◌, ◌≡◌, Bool, List, arith, ltb, ◌==◌, bit_and, bit_or, if◌then◌else◌, length, drop,
}
use netmon_polyglot.Prelude.Outcome.{ok, err, reject_if, ◌>>=◌, ◌>>◌}
use netmon_polyglot.ParseError.{Layer, truncated, malformed}
use netmon_polyglot.Packet.Bytes.{
  Parsed, at, need, be16, be32, slice_from, byte, word16, word32, at-byte, be16-word16, be32-word32,
  need_enough, need_short, slice_from-drop,
}

abbrev pub min_header_len : ℕ
min_header_len = 20

abbrev pub flag_fin : ℕ
flag_fin = 0x01

abbrev pub flag_syn : ℕ
flag_syn = 0x02

abbrev pub flag_rst : ℕ
flag_rst = 0x04

abbrev pub flag_psh : ℕ
flag_psh = 0x08

abbrev pub flag_ack : ℕ
flag_ack = 0x10

pub record TcpHeader : Type 0 where
  pub src_port : ℕ
  pub dst_port : ℕ
  pub seq : ℕ
  pub ack : ℕ
  pub flags : ℕ
  pub window : ℕ

unfoldable pub is_syn_only : TcpHeader → Bool
is_syn_only h = bit_and h.flags (bit_or flag_syn flag_ack) == flag_syn

-- `usize::from(buf[12] >> 4) * 4`
abbrev pub data_offset : ℕ → ℕ
data_offset b = b / 16 * 4

unfoldable pub parse : List ℕ → Parsed (TcpHeader × List ℕ)
parse buf = do
  need buf min_header_len Layer.tcp
  b ← at buf 12
  let header_len = data_offset b
  reject_if (ltb header_len min_header_len) (malformed Layer.tcp "data offset below 5")
  need buf header_len Layer.tcp
  src_port ← be16 buf 0
  dst_port ← be16 buf 2
  seq ← be32 buf 4
  ack ← be32 buf 8
  flags ← at buf 13
  window ← be16 buf 14
  rest ← slice_from buf header_len
  ok (
    record {
      src_port = src_port;
      dst_port = dst_port;
      seq = seq;
      ack = ack;
      flags = flags;
      window = window;
    },
    rest,
  )

-- The fields by their places in the segment.
abbrev pub header_at : List ℕ → TcpHeader
header_at buf = record {
  src_port = word16 buf 0;
  dst_port = word16 buf 2;
  seq = word32 buf 4;
  ack = word32 buf 8;
  flags = byte buf 13;
  window = word16 buf 14;
}

-- `parse` in one expression, with no access that can fail.
abbrev pub parsed : List ℕ → Parsed (TcpHeader × List ℕ)
parsed buf =
    let header_len = data_offset (byte buf 12) in
    if ltb (length buf) min_header_len
    then err (truncated Layer.tcp min_header_len (length buf))
    else if ltb header_len min_header_len
    then err (malformed Layer.tcp "data offset below 5")
    else if ltb (length buf) header_len
    then err (truncated Layer.tcp header_len (length buf))
    else ok (header_at buf, drop header_len buf)

-- A segment is rejected exactly when it is shorter than 20 bytes, its data offset is below 5, or it
-- is shorter than its own header; otherwise the fields are at their places, big-endian, and the
-- payload is what follows the options.
pub parse_tcp_lem : (buf : List ℕ) → parse buf ≡ parsed buf
unfolding parse
parse_tcp_lem buf = ground (
  arith,
  need_enough buf 20 Layer.tcp,
  need_short buf 20 Layer.tcp,
  need_enough buf (data_offset (byte buf 12)) Layer.tcp,
  need_short buf (data_offset (byte buf 12)) Layer.tcp,
  at-byte buf 12,
  at-byte buf 13,
  be16-word16 buf 0,
  be16-word16 buf 2,
  be32-word32 buf 4,
  be32-word32 buf 8,
  be16-word16 buf 14,
  slice_from-drop buf (data_offset (byte buf 12)),
)

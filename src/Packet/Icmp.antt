-- ===== src/Packet/Icmp.antt =====
-- core-rs/core/src/packet/icmp.rs
use netmon_polyglot.Prelude.{ℕ, ◌≡◌, Bool, List, arith, ltb, if◌then◌else◌, length}
use netmon_polyglot.Prelude.Outcome.{ok, err, ◌>>=◌, ◌>>◌}
use netmon_polyglot.ParseError.{Layer, truncated}
use netmon_polyglot.Packet.Bytes.{Parsed, need, at, byte, at-byte, need_enough, need_short}

abbrev pub header_len : ℕ
header_len = 4

pub record IcmpHeader : Type 0 where
  pub icmp_type : ℕ
  pub code : ℕ
  pub v6 : Bool

unfoldable pub parse : List ℕ → Bool → Parsed IcmpHeader
parse buf v6 = do
  need buf header_len Layer.icmp
  icmp_type ← at buf 0
  code ← at buf 1
  ok (record { icmp_type = icmp_type; code = code; v6 = v6 })

-- `parse` in one expression, with no access that can fail.
abbrev pub parsed : List ℕ → Bool → Parsed IcmpHeader
parsed buf v6 =
    if ltb (length buf) header_len
    then err (truncated Layer.icmp header_len (length buf))
    else ok (record { icmp_type = byte buf 0; code = byte buf 1; v6 = v6 })

-- A message is rejected exactly when it is shorter than 4 bytes; otherwise its type and code are the
-- first two bytes.
pub parse_icmp_lem : (buf : List ℕ) (v6 : Bool) → parse buf v6 ≡ parsed buf v6
unfolding parse
parse_icmp_lem buf v6 =
    ground (
      arith,
      need_enough buf 4 Layer.icmp,
      need_short buf 4 Layer.icmp,
      at-byte buf 0,
      at-byte buf 1,
    )

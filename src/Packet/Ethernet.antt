-- ===== src/Packet/Ethernet.antt =====
-- core-rs/core/src/packet/ethernet.rs
use netmon_polyglot.Prelude.{
  ℕ, zero, suc, ◌+◌, ◌*◌, ◌≡◌, Bool, true, false, not, ◌||◌, List, arith, ltb, ◌==◌, if◌then◌else◌,
  length, drop, take,
}
use netmon_polyglot.Prelude.Outcome.{ok, err, diverge, reject_if, ◌>>=◌, ◌>>◌}
use netmon_polyglot.ParseError.{Layer, truncated, malformed}
use netmon_polyglot.Packet.Bytes.{
  Parsed, need, be16, slice, slice_from, word16, be16-word16, need_enough, need_short,
  slice-take-drop, slice_from-drop,
}

abbrev pub ethertype_ipv4 : ℕ
ethertype_ipv4 = 0x0800

abbrev pub ethertype_ipv6 : ℕ
ethertype_ipv6 = 0x86dd

abbrev pub ethertype_vlan : ℕ
ethertype_vlan = 0x8100

abbrev pub ethertype_qinq : ℕ
ethertype_qinq = 0x88a8

abbrev pub header_len : ℕ
header_len = 14

abbrev pub vlan_tag_len : ℕ
vlan_tag_len = 4

abbrev pub max_vlan_tags : ℕ
max_vlan_tags = 2

abbrev pub mac_len : ℕ
mac_len = 6

pub record EthernetHeader : Type 0 where
  pub dst : List ℕ
  pub src : List ℕ
  pub ethertype : ℕ
  pub vlan_tags : ℕ

unfoldable pub is_tag : ℕ → Bool
is_tag ethertype = ethertype == ethertype_vlan || ethertype == ethertype_qinq

-- The loop over the tags, on fuel: the ethertype, the offset behind it and the number of tags.
unfoldable pub skip_tags : ℕ → List ℕ → ℕ → ℕ → ℕ → Parsed (ℕ × ℕ × ℕ)
skip_tags zero buf ethertype offset vlan_tags = diverge
skip_tags (suc fuel) buf ethertype offset vlan_tags = elim (is_tag ethertype) [
  | false ↦ ok (ethertype, offset, vlan_tags)
  | true ↦ do
    reject_if (vlan_tags == max_vlan_tags) (malformed Layer.link "too many vlan tags")
    need buf (offset + vlan_tag_len) Layer.link
    inner ← be16 buf (offset + 2)
    skip_tags fuel buf inner (offset + vlan_tag_len) (vlan_tags + 1)
]

-- Each round adds a tag, and a third tag is refused.
abbrev tag_fuel : ℕ
tag_fuel = 3

unfoldable pub parse : List ℕ → Parsed (EthernetHeader × List ℕ)
unfolding skip_tags
parse buf = do
  need buf header_len Layer.link
  dst ← slice buf 0 mac_len
  src ← slice buf mac_len 12
  outer ← be16 buf 12
  (ethertype, offset, vlan_tags) ← skip_tags tag_fuel buf outer header_len 0
  rest ← slice_from buf offset
  ok (record { dst = dst; src = src; ethertype = ethertype; vlan_tags = vlan_tags }, rest)

-- The result for a given number of tags.
abbrev pub with_tags : List ℕ → ℕ → ℕ → EthernetHeader × List ℕ
with_tags buf ethertype vlan_tags = (
  record {
    dst = take mac_len buf;
    src = take mac_len (drop mac_len buf);
    ethertype = ethertype;
    vlan_tags = vlan_tags;
  },
  drop (header_len + vlan_tag_len * vlan_tags) buf,
)

-- `parse` in one expression, with no loop and no access that can fail.
abbrev pub parsed : List ℕ → Parsed (EthernetHeader × List ℕ)
parsed buf =
    if ltb (length buf) 14
    then err (truncated Layer.link 14 (length buf))
    else if not (is_tag (word16 buf 12))
    then ok (with_tags buf (word16 buf 12) 0)
    else if ltb (length buf) 18
    then err (truncated Layer.link 18 (length buf))
    else if not (is_tag (word16 buf 16))
    then ok (with_tags buf (word16 buf 16) 1)
    else if ltb (length buf) 22
    then err (truncated Layer.link 22 (length buf))
    else if not (is_tag (word16 buf 20))
    then ok (with_tags buf (word16 buf 20) 2)
    else err (malformed Layer.link "too many vlan tags")

-- The loop over the VLAN tags accepts up to two tags: the ethertype is the first one that is no tag,
-- the payload follows it, and a frame is rejected exactly when it is too short for a header or a tag,
-- or has a third tag.
pub parse_ethernet_lem : (buf : List ℕ) → parse buf ≡ parsed buf
unfolding parse
parse_ethernet_lem buf = ground (
  arith,
  need_enough buf 14 Layer.link,
  need_short buf 14 Layer.link,
  need_enough buf 18 Layer.link,
  need_short buf 18 Layer.link,
  need_enough buf 22 Layer.link,
  need_short buf 22 Layer.link,
  slice-take-drop buf 0 6,
  slice-take-drop buf 6 12,
  be16-word16 buf 12,
  be16-word16 buf 16,
  be16-word16 buf 20,
  slice_from-drop buf 14,
  slice_from-drop buf 18,
  slice_from-drop buf 22,
)

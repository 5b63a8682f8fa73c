-- ===== src/Packet/Header.antt =====
-- core-rs/core/src/packet/mod.rs: the link types, the captured frame and the IP header.
use netmon_polyglot.Prelude.{ℕ, Bool, not, ◌||◌, Option, none, some, List, ◌==◌, if◌then◌else◌}
use netmon_polyglot.Net.{IpAddr}

pub data LinkType : Type 0 where
  null ethernet raw : LinkType

-- `LinkType::from_raw`
unfoldable pub from_raw : ℕ → Option LinkType
from_raw value =
    if value == 0
    then some null
    else if value == 1
    then some ethernet
    else if value == 12 || (value == 14 || value == 101)
    then some raw
    else none

-- `link as u32`
unfoldable pub to_raw : LinkType → ℕ
to_raw null = 0
to_raw ethernet = 1
to_raw raw = 101

pub record Frame : Type 0 where
  pub ts_us : ℕ
  pub wire_len : ℕ
  pub bytes : List ℕ

pub record IpHeader : Type 0 where
  pub src : IpAddr
  pub dst : IpAddr
  pub proto : ℕ
  pub ttl : ℕ
  pub more_fragments : Bool
  pub fragment_offset : ℕ

unfoldable pub is_fragment : IpHeader → Bool
is_fragment h = h.more_fragments || not (h.fragment_offset == 0)

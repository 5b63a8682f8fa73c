-- ===== src/Synth/Scenarios.antt =====
-- core-rs/core/src/synth.rs: the scenarios and their names.
use netmon_polyglot.Prelude.{
  ◌&&◌, ◌==◌, if◌then◌else◌, Option, Bool, ◌∷◌, false, true, some, none, [],
}
use netmon_polyglot.Alert.{Text}

pub data Scenario : Type 0 where
  mixed port_scan dns_tunnel flood : Scenario

-- `==` of texts
unfoldable pub text_is : Text → Text → Bool
text_is [] [] = true
text_is (a ∷ x) (b ∷ y) = a == b && text_is x y
text_is x y = false

-- `"mixed"`
abbrev pub mixed_name : Text
mixed_name = 109 ∷ 105 ∷ 120 ∷ 101 ∷ 100 ∷ []

-- `"portscan"`
abbrev pub portscan_name : Text
portscan_name = 112 ∷ 111 ∷ 114 ∷ 116 ∷ 115 ∷ 99 ∷ 97 ∷ 110 ∷ []

-- `"dnstunnel"`
abbrev pub dnstunnel_name : Text
dnstunnel_name = 100 ∷ 110 ∷ 115 ∷ 116 ∷ 117 ∷ 110 ∷ 110 ∷ 101 ∷ 108 ∷ []

-- `"flood"`
abbrev pub flood_name : Text
flood_name = 102 ∷ 108 ∷ 111 ∷ 111 ∷ 100 ∷ []

-- `Scenario::from_name`
unfoldable pub from_name : Text → Option Scenario
from_name name =
    if text_is name mixed_name
    then some mixed
    else if text_is name portscan_name
    then some port_scan
    else if text_is name dnstunnel_name
    then some dns_tunnel
    else if text_is name flood_name
    then some flood
    else none

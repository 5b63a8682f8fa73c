-- ===== src/ParseError.antt =====
-- core-rs/core/src/error.rs: the protocol layers and the errors of the packet parsers.
use netmon_polyglot.Prelude.{ℕ, String}

pub data Layer : Type 0 where
  link ipv4 ipv6 tcp udp icmp dns : Layer

pub data ParseError : Type 0 where
  truncated : Layer → ℕ → ℕ → ParseError
  malformed : Layer → String → ParseError

-- `ParseError::layer`
unfoldable pub layer : ParseError → Layer
layer (truncated l needed available) = l
layer (malformed l reason) = l

-- The name that `Display` writes.
unfoldable pub layer_name : Layer → String
layer_name link = "link"
layer_name ipv4 = "ipv4"
layer_name ipv6 = "ipv6"
layer_name tcp = "tcp"
layer_name udp = "udp"
layer_name icmp = "icmp"
layer_name dns = "dns"

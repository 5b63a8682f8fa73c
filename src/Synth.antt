-- ===== src/Synth.antt =====
-- core-rs/core/src/synth.rs: the frames of synthetic traffic, and the generator of its random numbers.
-- A `u16` that is too small for a length is a panic.
pub mod Scenarios
pub mod Hosts
pub mod Traffic
pub mod Headers
pub mod Reading
pub mod Labels
pub mod Names
pub mod Queries
pub mod Produced
pub mod Drawn
pub mod Generated
pub mod Captures
use netmon_polyglot.Alert.{Text}
use netmon_polyglot.Prelude.{
  ◌^◌, ◌<◌, ◌≤◌, arith, bit_xor, leb, ◌-◌, length, ltb, ◌==◌, ◌/◌, ◌*◌, ◌+◌, replicate, ◌++◌, ◌%◌,
  if◌then◌else◌, ℕ, List, ◌∷◌, suc, zero, [], max,
}
use netmon_polyglot.Prelude.Words.{u64_mod}
use netmon_polyglot.Prelude.Outcome.{ok, panic, Outcome, ◌>>=◌}
use netmon_polyglot.Rules.Entropy.{split}

-- An address and a port.
pub record SocketAddr : Type 0 where
  pub ip : List ℕ
  pub port : ℕ

-- `to_be_bytes` of a `u16`
abbrev pub to_be_bytes : ℕ → List ℕ
to_be_bytes n = n / 256 % 256 ∷ n % 256 ∷ []

-- The sum of the pairs of bytes, as words; a last byte alone is the high one.
unfoldable pub sum_words : List ℕ → ℕ
sum_words [] = 0
sum_words (a ∷ []) = a * 256
sum_words (a ∷ b ∷ bytes) = a * 256 + b + sum_words bytes

-- The loop that adds the carries.
unfoldable pub fold_carries : ℕ → ℕ → ℕ
fold_carries zero sum = sum
fold_carries (suc fuel) sum =
    let rest = fold_carries fuel (sum % 0x1_0000 + sum / 0x1_0000) in
    if ltb 0xffff sum then rest else sum

-- Two rounds are enough for a `u32`.
fold_carries-le : (sum : ℕ) → sum < 2 ^ 32 → fold_carries 2 sum ≤ 0xffff
unfolding fold_carries
fold_carries-le sum small = ground (arith, small)

unfoldable pub internet_checksum : List ℕ → ℕ
unfolding sum_words fold_carries
internet_checksum bytes = 0xffff - fold_carries 2 (sum_words bytes)

-- No error is ever returned, so its type is any.
module _ {E : Type 0} where
  -- The header up to the checksum, and what comes behind it.
  unfoldable pub ethernet_ipv4 : List ℕ → List ℕ → ℕ → List ℕ → Outcome E (List ℕ)
  unfolding internet_checksum
  ethernet_ipv4 src dst proto l4 =
      let total_len = 20 + length l4 in
      let front = 0x45 ∷ 0 ∷ to_be_bytes total_len ++ 0 ∷ 0 ∷ 0 ∷ 0 ∷ 64 ∷ proto ∷ [] in
      let checksum = internet_checksum (front ++ 0 ∷ 0 ∷ src ++ dst) in
      if leb total_len 0xffff
      then ok (
          (2 ∷ 0 ∷ 0 ∷ 0 ∷ 0 ∷ 2 ∷ 2 ∷ 0 ∷ 0 ∷ 0 ∷ 0 ∷ 1 ∷ 8 ∷ 0 ∷ front)
          ++ to_be_bytes checksum
          ++ src
          ++ dst
          ++ l4)
      else panic

  unfoldable pub tcp_segment : SocketAddr → SocketAddr → ℕ → ℕ → Outcome E (List ℕ)
  unfolding ethernet_ipv4
  tcp_segment src dst flags payload_len = ethernet_ipv4 src.ip dst.ip 6 (
      to_be_bytes src.port
      ++ to_be_bytes dst.port
      ++ replicate 8 0
      ++ 0x50 ∷ flags ∷ to_be_bytes 64_240
      ++ replicate (4 + payload_len) 0)

  unfoldable pub udp_datagram : SocketAddr → SocketAddr → List ℕ → Outcome E (List ℕ)
  unfolding ethernet_ipv4
  udp_datagram src dst payload =
      let len = 8 + length payload in
      if leb len 0xffff
      then ethernet_ipv4 src.ip dst.ip 17
          (to_be_bytes src.port ++ to_be_bytes dst.port ++ to_be_bytes len ++ 0 ∷ 0 ∷ payload)
      else panic

  unfoldable pub icmp_echo : List ℕ → List ℕ → ℕ → Outcome E (List ℕ)
  unfolding ethernet_ipv4 internet_checksum
  icmp_echo src dst seq =
      let checksum = internet_checksum (8 ∷ 0 ∷ 0 ∷ 0 ∷ 0 ∷ 0 ∷ to_be_bytes seq) in
      ethernet_ipv4 src dst 1 (8 ∷ 0 ∷ to_be_bytes checksum ++ 0 ∷ 0 ∷ to_be_bytes seq)

  -- The labels that are not empty, each behind its length in a byte.
  unfoldable pub label_bytes : List Text → Outcome E (List ℕ)
  label_bytes [] = ok []
  label_bytes (label ∷ labels) =
      let rest = label_bytes labels in
      if length label == 0
      then rest
      else if leb (length label) 255
      then (rest >>= λ bytes. ok (length label ∷ label ++ bytes))
      else panic

  unfoldable pub dns_query_payload : ℕ → Text → ℕ → Outcome E (List ℕ)
  unfolding label_bytes
  dns_query_payload id name qtype = do
    labels ← label_bytes (split 46 name)
    ok (
        to_be_bytes id
        ++ to_be_bytes 0x0100
        ++ to_be_bytes 1
        ++ replicate 6 0
        ++ labels
        ++ 0 ∷ to_be_bytes qtype
        ++ to_be_bytes 1)

  unfoldable pub dns_query : SocketAddr → SocketAddr → ℕ → Text → ℕ → Outcome E (List ℕ)
  unfolding dns_query_payload udp_datagram
  dns_query src dst id name qtype = do
    payload ← dns_query_payload id name qtype
    udp_datagram src dst payload

pub record Rng : Type 0 where
  pub seed : ℕ

unfoldable pub new_rng : ℕ → Rng
new_rng seed = record { seed = max seed 1 }

unfoldable pub next_u64 : Rng → Rng × ℕ
next_u64 rng =
    let x = rng.seed in
    let y = bit_xor x (x * 2 ^ 13 % u64_mod) in
    let z = bit_xor y (y / 2 ^ 7) in
    let u = bit_xor z (z * 2 ^ 17 % u64_mod) in (record { seed = u }, u)

-- The bound is positive at every call.
unfoldable pub below : Rng → ℕ → Rng × ℕ
unfolding next_u64
below rng bound = let (rng', n) = next_u64 rng in (rng', n % bound)

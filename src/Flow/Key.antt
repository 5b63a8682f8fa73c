-- ===== src/Flow/Key.antt =====
-- core-rs/core/src/flow.rs: `FlowKey::canonical` gives both directions of a conversation one key.
use netmon_polyglot.Prelude.{true, ◌≢◌, arith, ◌≡◌, ℕ}
use netmon_polyglot.Net.{
  cmp_addr, reverse_cmp-then_cmp, compare-IsLawful, cmp_addr-IsLawful, reverse_cmp, then_cmp,
}
use netmon_polyglot.Flow.{
  compare, cmp_addr, Ordering, le_endpoint, then_cmp, ℕ, a_to_b, cmp_endpoint, b_to_a, canonical,
  Endpoint, FlowKey, Direction,
}

-- Two endpoints at their places in the key: the source, then the destination.
unfoldable pub oriented : FlowKey → Direction → Endpoint × Endpoint
oriented k a_to_b = (k.a, k.b)
oriented k b_to_a = (k.b, k.a)

unfoldable pub opposite : Direction → Direction
opposite a_to_b = b_to_a
opposite b_to_a = a_to_b

pub cmp_endpoint-swap : (x y : Endpoint) → cmp_endpoint y x ≡ reverse_cmp (cmp_endpoint x y)
unfolding cmp_endpoint
cmp_endpoint-swap x y = ground (
  arith,
  cmp_addr-IsLawful.swap x.addr y.addr,
  compare-IsLawful.swap x.port y.port,
  reverse_cmp-then_cmp (cmp_addr x.addr y.addr) (compare x.port y.port),
)

pub cmp_endpoint-eq : (x y : Endpoint) → cmp_endpoint x y ≡ Ordering.eq → x ≡ y
unfolding cmp_endpoint then_cmp
cmp_endpoint-eq x y h =
    ground (arith, cmp_addr-IsLawful.eq_only x.addr y.addr, compare-IsLawful.eq_only x.port y.port)

-- The key and the direction give back the source and the destination, and the key keeps the
-- protocol.
pub oriented-canonical :
    (src dst : Endpoint) (proto : ℕ)
    → (oriented (canonical src dst proto).0 (canonical src dst proto).1 ≡ (src, dst))
      × ((canonical src dst proto).0.proto ≡ proto)
unfolding canonical oriented
oriented-canonical src dst proto = ground arith

-- A packet and its answer belong to the same flow, in opposite directions.
pub canonical-swap :
    (src dst : Endpoint) (proto : ℕ)
    → src ≢ dst
    → ((canonical dst src proto).0 ≡ (canonical src dst proto).0)
      × ((canonical dst src proto).1 ≡ opposite (canonical src dst proto).1)
unfolding canonical le_endpoint opposite reverse_cmp
canonical-swap src dst proto h = ground (arith, cmp_endpoint-swap src dst, cmp_endpoint-eq src dst)

-- The first end of a key is not behind the second.
pub le_endpoint-canonical :
    (src dst : Endpoint) (proto : ℕ)
    → le_endpoint (canonical src dst proto).0.a (canonical src dst proto).0.b ≡ true
unfolding canonical le_endpoint reverse_cmp
le_endpoint-canonical src dst proto = ground (arith, cmp_endpoint-swap src dst)

pub le_endpoint-antisym : (x y : Endpoint) → le_endpoint x y ≡ true → le_endpoint y x ≡ true → x ≡ y
unfolding le_endpoint reverse_cmp
le_endpoint-antisym x y h k = ground (arith, cmp_endpoint-swap x y, cmp_endpoint-eq x y)

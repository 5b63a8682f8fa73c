-- ===== src/Tests/Data.antt =====
-- Inputs that the tests share. The caches are the reference implementation; whole numbers stand for
-- floats, of which no theorem uses more than the operations' types.
use netmon_polyglot.Rules.Compiled.{SourceState}
use netmon_polyglot.Packet.{Packet}
use netmon_polyglot.Lru.{LruCache}
use netmon_polyglot.Net.{IpAddr-discrete, v4, IpAddr}
use netmon_polyglot.Float.{Float}
use netmon_polyglot.Flow.{FlowKey-discrete, FlowTable, FlowStats, FlowUpdate, FlowKey, Endpoint}
use netmon_polyglot.Prelude.{leb, ltb, ◌*◌, ◌+◌, ◌^◌, ◌/◌, List, ℕ, ◌∷◌, false, true, some, []}
use netmon_polyglot.Flow
use netmon_polyglot.Packet
use netmon_polyglot.Packet.Header.{Frame, IpHeader}
use netmon_polyglot.Lru.Reference.{reference}

abbrev pub wholes : Float
wholes = record {
  F64 = ℕ;
  decimal = λ n k. n / 10 ^ k;
  of_ℕ = λ n. n;
  add = λ a b. a + b;
  mul = λ a b. a * b;
  div = λ a b. a / b;
  neg = λ a. a;
  log2 = λ a. a / 2;
  is_finite = λ a. true;
  gt = λ a b. ltb b a;
  ge = λ a b. leb b a;
  to_u64 = λ a. a;
}

abbrev pub flow_cache : LruCache FlowStats FlowKey-discrete
flow_cache = reference FlowKey-discrete

abbrev pub source_cache : LruCache SourceState IpAddr-discrete
source_cache = reference IpAddr-discrete

-- 10.0.0.1 and 10.0.0.2
abbrev pub alice : IpAddr
alice = v4 (10 ∷ 0 ∷ 0 ∷ 1 ∷ [])

abbrev pub bob : IpAddr
bob = v4 (10 ∷ 0 ∷ 0 ∷ 2 ∷ [])

-- A SYN from port 40000 to port 443, without options and payload.
abbrev pub syn_segment : List ℕ
syn_segment =
    0x9c ∷ 0x40 ∷ 1 ∷ 187 ∷ 0 ∷ 0 ∷ 0 ∷ 7 ∷ 0 ∷ 0 ∷ 0 ∷ 0 ∷ 0x50 ∷ 2 ∷ 250 ∷ 240 ∷ 0 ∷ 0 ∷ 0 ∷ 0
    ∷ []

abbrev pub ipv4_packet : List ℕ
ipv4_packet =
    0x45 ∷ 0 ∷ 0 ∷ 40 ∷ 0 ∷ 0 ∷ 0 ∷ 0 ∷ 64 ∷ 6 ∷ 0 ∷ 0 ∷ 10 ∷ 0 ∷ 0 ∷ 1 ∷ 10 ∷ 0 ∷ 0 ∷ 2
    ∷ syn_segment

abbrev pub ethernet_frame : List ℕ
ethernet_frame = 2 ∷ 0 ∷ 0 ∷ 0 ∷ 0 ∷ 2 ∷ 2 ∷ 0 ∷ 0 ∷ 0 ∷ 0 ∷ 1 ∷ 8 ∷ 0 ∷ ipv4_packet

abbrev pub syn_frame : ℕ → Frame
syn_frame ts = record { ts_us = ts; wire_len = 54; bytes = ethernet_frame }

abbrev pub syn_header : IpHeader
syn_header = record {
  src = alice;
  dst = bob;
  proto = 6;
  ttl = 64;
  more_fragments = false;
  fragment_offset = 0;
}

-- What the parser makes of `syn_frame ts`.
abbrev pub syn_packet : ℕ → Packet
syn_packet ts = record {
  ts_us = ts;
  wire_len = 54;
  ethertype = some 0x0800;
  ip = some syn_header;
  transport =
      Packet.Transport.tcp (record {
        src_port = 40_000;
        dst_port = 443;
        seq = 7;
        ack = 0;
        flags = 2;
        window = 64_240;
      });
  app = Packet.App.none;
}

abbrev pub client : Endpoint
client = record { addr = alice; port = 40_000 }

abbrev pub server : Endpoint
server = record { addr = bob; port = 443 }

abbrev pub https : FlowKey
https = record { a = client; b = server; proto = 6 }

abbrev pub other : FlowKey
other = record { a = client; b = client; proto = 17 }

abbrev pub packet_at : FlowKey → ℕ → FlowUpdate
packet_at key ts = record {
  key = key;
  direction = Flow.a_to_b;
  ts_us = ts;
  bytes = 54;
  tcp_flags = 2;
}

-- A table with one flow, of the given time, and room for another.
unfoldable pub one_flow : ℕ → FlowTable flow_cache
unfolding reference
one_flow ts = record {
  flows = record {
    cap = 2;
    entries =
        (
          https,
          record {
            first_seen_us = 5;
            last_seen_us = ts;
            packets = record { ab = 1; ba = 0 };
            bytes = record { ab = 54; ba = 0 };
            tcp_flags = 2;
          },
        )
        ∷ [];
  };
  idle_timeout_us = 100;
  evicted = 0;
  expired = 0;
}

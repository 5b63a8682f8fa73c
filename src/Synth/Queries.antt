-- ===== src/Synth/Queries.antt =====
-- core-rs/core/src/synth.rs and packet/dns.rs: the DNS parser reads the queries of synthetic traffic.
use netmon_polyglot.Packet.Dns
use netmon_polyglot.Packet.Dns.{DnsInfo}
use netmon_polyglot.Packet.Dns.Names
use netmon_polyglot.Packet.Dns.{more, done}
use netmon_polyglot.Packet.Bytes.{need_enough, be16-word16, at-byte, word16}
use netmon_polyglot.ParseError.{Layer}
use netmon_polyglot.Prelude.Outcome.{ok}
use netmon_polyglot.Prelude.{
  false, ◌<◌, ◌≤◌, ◌≡◌, ◌+◌, ◌++◌, ◌/◌, ◌%◌, some, length, map, ap, ◌∙◌, sym, replicate,
  length-append, refl, arith, ℕ, List, [], ◌∷◌,
}
use netmon_polyglot.Synth
use netmon_polyglot.Synth.Labels.{
  AreLabels, wire, pushed, joined, pushed-joined, split-joined, length-wire, label_bytes-wire,
}
use netmon_polyglot.Synth.Names.{read_labels-wire, labels-le-pushed, word16-append}
use netmon_polyglot.Synth.Reading.{ReadsAs, packet_of, udp_datagram-parse_app}
use netmon_polyglot.Synth.Headers.{octets}
use netmon_polyglot.Packet
use netmon_polyglot.Packet.{Transport}
use netmon_polyglot.Synth.{SocketAddr}
use mathlib.Core.List.{append_assoc}

-- A query for the name, before its transport.
abbrev pub query_bytes : ℕ → List (List ℕ) → ℕ → List ℕ
query_bytes id labels qtype =
    Synth.to_be_bytes id
    ++ Synth.to_be_bytes 0x0100
    ++ Synth.to_be_bytes 1
    ++ replicate 6 0
    ++ wire labels
    ++ 0 ∷ Synth.to_be_bytes qtype
    ++ Synth.to_be_bytes 1

module _ (id qtype : ℕ) (label : List ℕ) (labels : List (List ℕ))
    (h : AreLabels (label ∷ labels)) where
  pub dns_query_payload-query_bytes :
      {E : Type 0}
      → Synth.dns_query_payload {E = E} id (joined (label ∷ labels)) qtype
        ≡ ok (query_bytes id (label ∷ labels) qtype)
  unfolding Synth.dns_query_payload
  dns_query_payload-query_bytes {E} =
      rw (split-joined label labels h) (rw (label_bytes-wire {E = E} (label ∷ labels) h) refl)

  abbrev pub asked : List ℕ
  asked = map Dns.printable_lower (joined (label ∷ labels))

  abbrev msg : List ℕ
  msg = query_bytes id (label ∷ labels) qtype

  abbrev head : List ℕ
  head = id / 256 % 256 ∷ id % 256 ∷ 1 ∷ 0 ∷ 0 ∷ 1 ∷ 0 ∷ 0 ∷ 0 ∷ 0 ∷ 0 ∷ 0 ∷ []

  abbrev last : List ℕ
  last = Synth.to_be_bytes qtype ++ Synth.to_be_bytes 1

  msg-head : msg ≡ head ++ (wire (label ∷ labels) ++ 0 ∷ last)
  msg-head = simp append_assoc refl

  module _ (room : length (joined (label ∷ labels)) ≤ 253) where
    abbrev end : ℕ
    end = 12 + (length (wire (label ∷ labels)) + 1)

    named : pushed [] (label ∷ labels) ≡ asked
    named = pushed-joined label labels h.0

    read_name-asked : Dns.read_name msg 12 ≡ ok (asked, end)
    unfolding Dns.read_name
    read_name-asked =
        let short : length (pushed [] (label ∷ labels)) ≤ 253 = rw (named, Names.length-map) room in
        let few : length (label ∷ labels) < 270 =
          omega (arith, labels-le-pushed [] (label ∷ labels) h) in
        read_labels-wire (label ∷ labels) 270 msg head last [] msg-head h short few
        ∙ ap (λ n. ok (n, end)) named

    long_enough : end + 4 ≡ length msg
    long_enough = omega (arith, ap length msg-head, length-append (label ++ wire labels) (0 ∷ last))

    -- Behind the name stands the type of the query.
    word16-end : qtype < 65_536 → word16 msg end ≡ qtype
    word16-end small =
        let pre = head ++ wire (label ∷ labels) ++ 0 ∷ [] in
        let behind : length pre ≡ end =
          omega (arith, length-append (label ++ wire labels) (0 ∷ [])) in
        let whole : msg ≡ pre ++ last = msg-head ∙ simp append_assoc refl in
        let read : word16 (pre ++ last) (length pre) ≡ qtype =
          word16-append pre (qtype / 256 % 256) (qtype % 256) (Synth.to_be_bytes 1) ∙ omega arith in
        ap (λ m. word16 m end) whole ∙ ap (word16 (pre ++ last)) (sym behind) ∙ read

    first_question-asked :
        qtype < 65_536 → Dns.first_question msg ≡ ok (some (record { name = asked; qtype = qtype }))
    unfolding Dns.first_question
    first_question-asked small = rw read_name-asked (
        ground (
          arith,
          need_enough msg (end + 2) Layer.dns,
          be16-word16 msg end,
          word16-end small,
          long_enough,
        ))

    abbrev pub info : DnsInfo
    info = record {
      id = id;
      is_response = false;
      opcode = 0;
      rcode = 0;
      question_count = 1;
      answer_count = 0;
      question = some (record { name = asked; qtype = qtype });
    }

    pub parse-query_bytes :
        id < 65_536 → qtype < 65_536 → Dns.parse (query_bytes id (label ∷ labels) qtype) ≡ ok info
    unfolding Dns.parse Dns.read_question
    parse-query_bytes small_id small = ground (
      arith,
      need_enough msg 12 Layer.dns,
      be16-word16 msg 0,
      be16-word16 msg 4,
      be16-word16 msg 6,
      at-byte msg 2,
      at-byte msg 3,
      first_question-asked small,
    )

    -- A query for a name of labels of 1 to 63 bytes, 253 with their dots, that is sent to port 53 is
    -- read back from its frame: the addresses and the ports, and the query with its type and its name,
    -- in small letters and with `?` for what is not printable.
    pub dns_query-ReadsAs :
        {E : Type 0} (s0 s1 s2 s3 d0 d1 d2 d3 sport : ℕ)
        → sport < 65_536
        → id < 65_536
        → qtype < 65_536
        → ReadsAs {E = E}
            (Synth.dns_query
              (record { ip = octets s0 s1 s2 s3; port = sport })
              (record { ip = octets d0 d1 d2 d3; port = 53 })
              id
              (joined (label ∷ labels))
              qtype)
            (60 + length (joined (label ∷ labels)))
            (packet_of 17
              (octets s0 s1 s2 s3)
              (octets d0 d1 d2 d3)
              (Transport.udp (record {
                src_port = sport;
                dst_port = 53;
                len = 26 + length (joined (label ∷ labels));
              }))
              (Packet.App.dns info))
    unfolding Synth.dns_query Packet.parse_app
    dns_query-ReadsAs {E} s0 s1 s2 s3 d0 d1 d2 d3 sport h_port small_id small =
        let sized : 18 + length (joined (label ∷ labels)) ≡ length msg =
          omega (arith, long_enough, length-wire label labels) in
        let src = octets s0 s1 s2 s3 in
        let dst = octets d0 d1 d2 d3 in
        let read_app : (ts_us wire_len : ℕ)
            → Packet.parse_app
                (packet_of 17 src dst
                  (Transport.udp (record { src_port = sport; dst_port = 53; len = 8 + length msg }))
                  Packet.App.none ts_us wire_len)
                msg
              ≡ ok (
                  packet_of 17 src dst
                    (Transport.udp (record {
                      src_port = sport;
                      dst_port = 53;
                      len = 26 + length (joined (label ∷ labels));
                    }))
                    (Packet.App.dns info) ts_us wire_len) =
          λ ts_us wire_len. ground (arith, parse-query_bytes small_id small, sized) in
        let (bytes, built, len, read) =
          udp_datagram-parse_app s0 s1 s2 s3 d0 d1 d2 d3 {E = E} sport 53 msg _ h_port (omega arith)
            (omega (arith, sized, room)) read_app in
        (bytes, rw (dns_query_payload-query_bytes {E = E}) built, len ∙ omega (arith, sized), read)

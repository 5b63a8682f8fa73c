-- ===== src/Synth/Traffic.antt =====
-- core-rs/core/src/synth.rs: `generate` and the kinds of packets that it draws. What the sink does is a
-- parameter, with its state passed along.
use netmon_polyglot.Synth.Hosts.{
  dns_type_txt, dns_type_a, tunnel_domain, max_tcp_payload, scan_target, resolver, flood_target,
  client_base, ephemeral_base, tunnel_client, base32, scan_first_port, flood_net, client_count,
  start_ts_us, inject_every, servers, tunnel_label_len, scanner, max_gap_us, domains,
}
use netmon_polyglot.Prelude.{
  ◌==◌, leb, if◌then◌else◌, ◌+◌, ◌*◌, ◌%◌, ◌/◌, ◌&&◌, not, ℕ, Bool, true, false, List, [], ◌∷◌,
  ◌++◌, suc, zero, some, none, get_elem?,
}
use netmon_polyglot.Prelude.Words.{add64}
use netmon_polyglot.Prelude.Outcome.{Outcome, ok, panic, ◌>>=◌}
use netmon_polyglot.Alert.{Text}
use netmon_polyglot.Synth
use netmon_polyglot.Synth.{SocketAddr, Rng}
use netmon_polyglot.Synth.Scenarios.{Scenario}

-- `n as u8`, `n as u16`
abbrev pub as_u8 : ℕ → ℕ
as_u8 n = n % 256

abbrev pub as_u16 : ℕ → ℕ
as_u16 n = n % 65_536

-- An element of an array by its index, which panics out of range.
unfoldable pub index {ℓ} : {E : Type 0} {A : Type ℓ} → List A → ℕ → Outcome E A
index xs i = elim (get_elem? xs i) [ none ↦ panic | some a ↦ ok a ]

-- `checked_add(1).unwrap_or(SCAN_FIRST_PORT)`
unfoldable pub next_port : ℕ → ℕ
next_port port = if leb 65_535 port then scan_first_port else port + 1

-- The characters of a tunnel's label that are still to be drawn.
unfoldable pub draw_label : {E : Type 0} → ℕ → Rng → Outcome E (Rng × Text)
unfolding index
draw_label zero rng = ok (rng, [])
draw_label (suc rounds) rng = do
  let (rng', i) = Synth.below rng 32
  c ← index base32 i
  (rng'', label) ← draw_label rounds rng'
  ok (rng'', c ∷ label)

unfoldable pub is_mixed : Scenario → Bool
is_mixed Scenario.mixed = true
is_mixed scenario = false

unfoldable pub is_flood : Scenario → Bool
is_flood Scenario.flood = true
is_flood scenario = false

module _ {E : Type 0} where
  unfoldable pub web_packet : Rng → ℕ → List ℕ → Outcome E (Rng × List ℕ)
  unfolding index
  web_packet rng client_idx client_ip = do
    let (rng1, server_idx) = Synth.below rng 4
    server ← index servers server_idx
    let port = as_u16 (ephemeral_base + as_u16 (client_idx * 4 + server_idx))
    let client : SocketAddr = record { ip = client_ip; port = port }
    let (rng2, payload) = Synth.below rng1 max_tcp_payload
    let (rng3, way) = Synth.below rng2 2
    frame ←
        if way == 0
        then Synth.tcp_segment client server 0x18 payload
        else Synth.tcp_segment server client 0x18 payload
    ok (rng3, frame)

  unfoldable pub lookup_packet : Rng → ℕ → ℕ → List ℕ → Outcome E (Rng × List ℕ)
  unfolding index
  lookup_packet rng i client_idx client_ip = do
    let (rng1, n) = Synth.below rng 5
    domain ← index domains n
    let client : SocketAddr = record {
      ip = client_ip;
      port = as_u16 (ephemeral_base + as_u16 client_idx);
    }
    frame ← Synth.dns_query client resolver (as_u16 i) domain dns_type_a
    ok (rng1, frame)

  unfoldable pub background_packet : Rng → ℕ → Outcome E (Rng × List ℕ)
  unfolding web_packet lookup_packet
  background_packet rng i =
      let (rng1, client_idx) = Synth.below rng client_count in
      let client_ip = 10 ∷ 0 ∷ 0 ∷ as_u8 (client_base + as_u8 client_idx) ∷ [] in
      let (rng2, roll) = Synth.below rng1 100 in
      if leb roll 69
      then web_packet rng2 client_idx client_ip
      else if leb roll 89
      then lookup_packet rng2 i client_idx client_ip
      else (Synth.icmp_echo client_ip resolver.ip (as_u16 i) >>= λ frame. ok (rng2, frame))

  unfoldable pub scan_probe : ℕ → Outcome E (List ℕ)
  scan_probe port =
      Synth.tcp_segment (record { ip = scanner; port = ephemeral_base })
        (record { ip = scan_target; port = port }) 0x02 0

  -- The last three bytes of the number, as a `u32`, are those of the address.
  unfoldable pub flood_syn : Rng → Outcome E (Rng × List ℕ)
  flood_syn rng = do
    let (rng1, n) = Synth.next_u64 rng
    let (rng2, p) = Synth.below rng1 1_024
    let ip = flood_net ∷ n / 65_536 % 256 ∷ n / 256 % 256 ∷ n % 256 ∷ []
    frame ←
        Synth.tcp_segment (record { ip = ip; port = as_u16 (ephemeral_base + as_u16 p) })
          flood_target 0x02 0
    ok (rng2, frame)

  unfoldable pub tunnel_query : Rng → ℕ → Outcome E (Rng × List ℕ)
  unfolding draw_label
  tunnel_query rng i = do
    (rng1, label) ← draw_label tunnel_label_len rng
    frame ←
        Synth.dns_query tunnel_client resolver (as_u16 i) (label ++ 46 ∷ tunnel_domain) dns_type_txt
    ok (rng1, frame)

  -- The packet that a scenario injects in its rounds, with the next port of a scan.
  unfoldable pub injected : Scenario → Rng → ℕ → ℕ → Outcome E (Rng × ℕ × List ℕ)
  unfolding scan_probe next_port tunnel_query
  injected Scenario.port_scan rng port i =
      scan_probe port >>= λ frame. ok (rng, next_port port, frame)
  injected Scenario.dns_tunnel rng port i = tunnel_query rng i >>= λ r. ok (r.0, port, r.1)
  injected Scenario.mixed rng port i = tunnel_query rng i >>= λ r. ok (r.0, port, r.1)
  injected Scenario.flood rng port i = tunnel_query rng i >>= λ r. ok (r.0, port, r.1)

  -- The frame of a round, with the generator and the next port of a scan behind it.
  unfoldable pub next_frame : Scenario → Rng → ℕ → ℕ → Outcome E (Rng × ℕ × List ℕ)
  unfolding is_mixed is_flood flood_syn background_packet injected
  next_frame scenario rng port i =
      let inject = not (is_mixed scenario) && (i % inject_every == 0) in
      if is_flood scenario
      then (flood_syn rng >>= λ r. ok (r.0, port, r.1))
      else if not inject
      then (background_packet rng i >>= λ r. ok (r.0, port, r.1))
      else injected scenario rng port i

-- The rounds that are left, from round `i` on; `S` is what the sink changes.
module _ {E S : Type 0} (sink : S → ℕ → List ℕ → Outcome E S) (scenario : Scenario) where
  unfoldable pub generate_from : ℕ → ℕ → Rng → ℕ → ℕ → S → Outcome E S
  unfolding next_frame
  generate_from zero i rng ts port s = ok s
  generate_from (suc rounds) i rng ts port s = do
    let (rng1, gap) = Synth.below rng max_gap_us
    let ts' = add64 ts (1 + gap)
    (rng2, port', frame) ← next_frame scenario rng1 port i
    s' ← sink s ts' frame
    generate_from rounds (i + 1) rng2 ts' port' s'

  unfoldable pub generate : ℕ → ℕ → S → Outcome E S
  unfolding generate_from
  generate packets seed s =
      generate_from packets 0 (Synth.new_rng seed) start_ts_us scan_first_port s

-- ===== src/Synth/Generated.antt =====
-- core-rs/core/src/synth.rs: `generate` gives its sink the packets that it was asked for.
use netmon_polyglot.Prelude.Outcome.{Outcome, ok, ◌>>=◌}
use netmon_polyglot.Prelude.{
  length, ◌==◌, ◌&&◌, not, Bool-cases, inl, inr, ◌+◌, ◌*◌, ◌%◌, ◌≤◌, ◌<◌, ◌≡◌, refl, ap, arith, ℕ,
  List, [], ◌∷◌, suc, zero,
}
use netmon_polyglot.Prelude.Words.{u64_mod, add64_exact, add64}
use netmon_polyglot.Synth
use mathlib.Core.Path.{fun_ext}
use netmon_polyglot.Synth.{Rng}
use netmon_polyglot.Synth.Hosts
use netmon_polyglot.Synth.Traffic
use netmon_polyglot.Synth.Scenarios.{Scenario}
use netmon_polyglot.Synth.Produced.{IsTraffic, Makes, segment-IsTraffic, below-lt}
use netmon_polyglot.Synth.Drawn.{flood_syn-Makes, background_packet-Makes, tunnel_query-Makes}

-- The records are frames of the traffic, each 1 to 2000 microseconds after the one before it.
abbrev pub AreTraffic : ℕ → List (ℕ × List ℕ) → Type 0
AreTraffic now [] = Unit
AreTraffic now (r ∷ records) =
    (now < r.0) × (r.0 ≤ now + 2_000) × IsTraffic r.1 × AreTraffic r.0 records

-- What comes of a round: the generator, a port and a frame.
abbrev Frames : {E : Type 0} → Outcome E (Rng × ℕ × List ℕ) → Type 0
Frames {E} drawn =
    (rng : Rng) × (port : ℕ) × (bytes : List ℕ) × (drawn ≡ ok (rng, port, bytes))
    × (port < 65_536)
    × IsTraffic bytes

module _ {E : Type 0} where
  with_port :
      (drawn : Outcome E (Rng × List ℕ)) (port : ℕ)
      → port < 65_536
      → Makes drawn
      → Frames (drawn >>= λ r. ok (r.0, port, r.1))
  with_port drawn port h (rng, bytes, e, t) = (rng, port, bytes, rw e refl, h, t)

  injected-Frames :
      (scenario : Scenario) (rng : Rng) (port i : ℕ)
      → port < 65_536
      → Frames (Traffic.injected {E = E} scenario rng port i)
  unfolding Traffic.injected
  injected-Frames Scenario.port_scan rng port i h =
      let (bytes, built, t) =
        segment-IsTraffic {E = E} 10 0 0 66 10 0 0 5 49_152 port 2 0 (omega arith) h
          (omega arith) in
      (rng, Traffic.next_port port, bytes, rw built refl, ground arith, t)
  injected-Frames Scenario.dns_tunnel rng port i h = with_port _ port h (tunnel_query-Makes rng i)
  injected-Frames Scenario.mixed rng port i h = with_port _ port h (tunnel_query-Makes rng i)
  injected-Frames Scenario.flood rng port i h = with_port _ port h (tunnel_query-Makes rng i)

  next_frame-Frames :
      (scenario : Scenario) (rng : Rng) (port i : ℕ)
      → port < 65_536
      → Frames (Traffic.next_frame {E = E} scenario rng port i)
  unfolding Traffic.next_frame
  next_frame-Frames scenario rng port i h =
      let inject = not (Traffic.is_mixed scenario) && (i % 4 == 0) in
      elim (Bool-cases (Traffic.is_flood scenario)) [
        | inl flood ↦ rw flood (with_port _ port h (flood_syn-Makes rng))
        | inr other ↦ rw other (elim (Bool-cases inject) [
          | inl yes_inject ↦ rw yes_inject (injected-Frames scenario rng port i h)
          | inr back ↦ rw back (with_port _ port h (background_packet-Makes rng i))
        ])
      ]

-- The sink takes the records one after the other.
unfoldable pub feed :
    {E S : Type 0} → (S → ℕ → List ℕ → Outcome E S) → S → List (ℕ × List ℕ) → Outcome E S
feed sink s [] = ok s
feed sink s (r ∷ records) = do s' ← sink s r.0 r.1; feed sink s' records

module _ {E S : Type 0} (sink : S → ℕ → List ℕ → Outcome E S) (scenario : Scenario) where
  generate_from-feeds :
      (rounds i : ℕ) (rng : Rng) (ts port : ℕ)
      → port < 65_536
      → ts + 2_000 * rounds < u64_mod
      → (records : List (ℕ × List ℕ)) × (length records ≡ rounds)
        × AreTraffic ts records
        × ((s : S)
            → Traffic.generate_from sink scenario rounds i rng ts port s ≡ feed sink s records)
  unfolding Traffic.generate_from feed
  generate_from-feeds zero i rng ts port h room = ([], refl, tt, λ s. refl)
  generate_from-feeds (suc rounds) i rng ts port h room =
      let (rng1, gap) = Synth.below rng 2_000 in
      let small : gap < 2_000 = below-lt rng 2_000 (omega arith) in
      let ts' = add64 ts (1 + gap) in
      let exact : ts' ≡ ts + (1 + gap) = add64_exact ts (1 + gap) (omega arith) in
      let (rng2, port', bytes, drawn, h', t) = next_frame-Frames {E = E} scenario rng1 port i h in
      let (records, all, traffic, feeds) =
        generate_from-feeds rounds (i + 1) rng2 ts' port' h' (omega arith) in
      (
        (ts', bytes) ∷ records,
        omega arith,
        (omega arith, omega arith, t, traffic),
        λ s. rw drawn (ap (◌>>=◌ (sink s ts' bytes)) (fun_ext feeds)),
      )

  -- The generator hands its sink as many records as it was asked for, if their times fit 64 bits, each
  -- 1 to 2000 microseconds after the one before it, and each a frame of at most 1500 bytes that the
  -- parser reads with no error; it returns what the sink returns, and stops with its first error.
  pub generate-feeds :
      (packets seed : ℕ)
      → Hosts.start_ts_us + 2_000 * packets < u64_mod
      → (records : List (ℕ × List ℕ)) × (length records ≡ packets)
        × AreTraffic Hosts.start_ts_us records
        × ((s : S) → Traffic.generate sink scenario packets seed s ≡ feed sink s records)
  unfolding Traffic.generate
  generate-feeds packets seed room =
      generate_from-feeds packets 0 (Synth.new_rng seed) Hosts.start_ts_us 1 (omega arith) room

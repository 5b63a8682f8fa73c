-- ===== src/Tests/Rules.antt =====
-- The theorems on rules at a rule on the rate of packets, and at concrete windows.
use netmon_polyglot.Prelude.Words
use netmon_polyglot.Lru.Reference
use netmon_polyglot.Prelude.Outcome.{ok}
use netmon_polyglot.Rules.Compiled.{alert}
use netmon_polyglot.Alert.{Alert}
use netmon_polyglot.Net.{IpAddr-discrete}
use netmon_polyglot.Prelude.{◌↔◌, ◌≡◌, arith, ◌≤◌, ℕ, ◌∷◌, refl, true, some, []}
use native.Mathlib.Decide.{ℕ_discrete}
use netmon_polyglot.Rules.Window
use netmon_polyglot.Rules.Window.Distinct
use netmon_polyglot.Rules.Window.Slide
use netmon_polyglot.Rules.Spec
use netmon_polyglot.Rules.Spec.Validity
use netmon_polyglot.Rules.Compiled
use netmon_polyglot.Rules.Compiled.Firing
use netmon_polyglot.Lru.Inserting
use netmon_polyglot.Alert
use netmon_polyglot.Tests.Data.{wholes, source_cache, syn_packet, syn_header, alice}

abbrev two_ports : Window.DistinctWindow ℕ
two_ports = record { events = (3, 80) ∷ (5, 443) ∷ (7, 80) ∷ []; counts = (80, 2) ∷ (443, 1) ∷ [] }

counted : Distinct.IsCounted ℕ_discrete two_ports.events two_ports.counts
unfolding ℕ_discrete
counted = record { agrees = λ k. ground arith; one_entry = (refl, (refl, tt)); short = omega arith }

-- The first event is too old at 14, and its port comes again.
add_lem_example :
    ((Window.add ℕ_discrete two_ports 14 22 10).0.events ≡ (5, 443) ∷ (7, 80) ∷ (14, 22) ∷ [])
    × ((Window.add ℕ_discrete two_ports 14 22 10).1 ≡ 3)
    × Distinct.IsCounted ℕ_discrete
        (Window.add ℕ_discrete two_ports 14 22 10).0.events
        (Window.add ℕ_discrete two_ports 14 22 10).0.counts
unfolding Distinct.different ℕ_discrete
add_lem_example = Distinct.add_lem ℕ_discrete two_ports 14 22 10 counted

abbrev three_packets : Window.CountWindow
three_packets = record { events = 3 ∷ 5 ∷ 7 ∷ [] }

add_tick_lem_example :
    ((Window.add_tick three_packets 14 10).0.events ≡ 5 ∷ 7 ∷ 14 ∷ [])
    × ((Window.add_tick three_packets 14 10).1 ≡ 3)
    × Slide.IsSliding 14 (Window.add_tick three_packets 14 10).0
unfolding Window.drop_if_full Slide.since
add_tick_lem_example =
    Slide.add_tick_lem three_packets 14 10 {now = 9}
      (record {
        sorted = ((omega arith, (omega arith, tt)), ((omega arith, tt), (tt, tt)));
        past = (omega arith, (omega arith, (omega arith, tt)));
        short = omega arith;
      })
      (omega arith)

-- One packet a second is too many; a source rests for 60 microseconds.
abbrev rate_rule : Spec.RuleSpec ℕ
rate_rule = record {
  id = 114 ∷ [];
  kind = Spec.packet_rate;
  severity = Alert.low;
  description = [];
  window_secs = 1;
  threshold = 1;
  cooldown_secs = 60;
  enabled = true;
  min_label_len = 30;
  min_entropy = 3;
}

abbrev file : Spec.Yaml ℕ
file = Spec.read (record { version = 1; rules = rate_rule ∷ [] })

parse-ok_iff_example : (Spec.parse wholes (λ text. file) [] ≡ ok (rate_rule ∷ [])) ↔ (
    (file ≡ Spec.read (record { version = Spec.supported_version; rules = rate_rule ∷ [] }))
    × Validity.AllValid wholes [] (rate_rule ∷ []))
parse-ok_iff_example = Validity.parse-ok_iff wholes (λ text. file) [] (rate_rule ∷ [])

abbrev compiled : Compiled.CompiledRule wholes source_cache
compiled = Compiled.compile wholes source_cache rate_rule

within : Inserting.IsWithin IpAddr-discrete source_cache compiled.sources
unfolding Reference.reference Compiled.compile
within = record { positive = omega arith; bounded = omega arith }

abbrev after_first : Compiled.CompiledRule wholes source_cache
after_first = (Compiled.evaluate wholes source_cache compiled (syn_packet 5)).0

abbrev after_second : Compiled.CompiledRule wholes source_cache
after_second = (Compiled.evaluate wholes source_cache after_first (syn_packet 60_000_005)).0

abbrev first_alert : Alert ℕ
first_alert = Compiled.alert wholes source_cache compiled 5 alice 1

abbrev second_alert : Alert ℕ
second_alert = Compiled.alert wholes source_cache compiled 60_000_005 alice 1

first_fires :
    Compiled.evaluate wholes source_cache compiled (syn_packet 5) ≡ (after_first, some first_alert)
unfolding Compiled.evaluate Compiled.compile Reference.reference Window.add_tick IpAddr-discrete
    ℕ_discrete
first_fires = refl

second_fires :
    Compiled.evaluate wholes source_cache after_first (syn_packet 60_000_005)
    ≡ (after_second, some second_alert)
unfolding Compiled.evaluate Compiled.compile Reference.reference Window.add_tick IpAddr-discrete
    ℕ_discrete Words.saturating_add64
second_fires = refl

evaluate-Fires_example :
    Firing.Fires wholes source_cache compiled
      (Compiled.observe wholes source_cache compiled (syn_packet 5) syn_header.src syn_header.dst).1
      5
      alice
      after_first
      first_alert
evaluate-Fires_example =
    Firing.evaluate-Fires wholes source_cache compiled (syn_packet 5) syn_header
      {rule' = after_first} {a = first_alert} within refl first_fires

evaluate_cooldown_example : 60_000_005 ≤ 60_000_005
unfolding Words.saturating_add64 alert Compiled.evaluate Compiled.compile Reference.reference
    Window.add_tick IpAddr-discrete ℕ_discrete
evaluate_cooldown_example =
    Firing.evaluate_cooldown wholes source_cache compiled (syn_packet 5) (syn_packet 60_000_005)
      syn_header syn_header {rule₁ = after_first} {rule₂ = after_second} {a = first_alert}
      {b = second_alert} within refl refl refl first_fires second_fires

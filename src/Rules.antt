-- ===== src/Rules.antt =====
-- core-rs/core/src/rules/mod.rs: the rule engine.
pub mod Window
pub mod Spec
pub mod Entropy
pub mod Compiled
pub mod Loaded
use netmon_polyglot.Prelude.{
  ◌==◌, length, ℕ, Bool, ◌++◌, if◌then◌else◌, Option, List, ◌∷◌, some, none, [],
}
use netmon_polyglot.Alert.{Alert, Text}
use netmon_polyglot.Float.{Float}
use netmon_polyglot.Lru.{LruCache}
use netmon_polyglot.Net.{IpAddr, IpAddr-discrete}
use netmon_polyglot.Packet.{Packet}
use Spec
use Spec.{RuleSpec, RuleError, Yaml}
use netmon_polyglot.Prelude.Outcome.{Outcome, ok, err, panic, diverge, ◌>>=◌}
use Compiled
use Compiled.{SourceState, CompiledRule}

module _ (f : Float) (lru : LruCache SourceState IpAddr-discrete) where
  open f use {F64}

  -- `specs.into_iter().filter(|s| s.enabled).map(CompiledRule::new).collect()`
  unfoldable pub from_specs : List (RuleSpec F64) → List (CompiledRule f lru)
  from_specs [] = []
  from_specs (spec ∷ specs) =
      let rest = from_specs specs in
      if spec.enabled then Compiled.compile f lru spec ∷ rest else rest

  unfoldable pub rule_ids : List (CompiledRule f lru) → List Text
  rule_ids [] = []
  rule_ids (rule ∷ rules) = rule.spec.id ∷ rule_ids rules

  -- The alert of a rule, if there is one, before the others.
  unfoldable pub collect : Option (Alert F64) → List (Alert F64) → List (Alert F64)
  collect none alerts = alerts
  collect (some a) alerts = a ∷ alerts

  -- Each rule evaluates the packet, in order: the rules, and the alerts.
  unfoldable pub evaluate_all :
      List (CompiledRule f lru) → Packet → List (CompiledRule f lru) × List (Alert F64)
  unfolding collect
  evaluate_all [] packet = ([], [])
  evaluate_all (rule ∷ rules) packet =
      let (rule', a) = Compiled.evaluate f lru rule packet in
      let (rules', alerts) = evaluate_all rules packet in (rule' ∷ rules', collect a alerts)

  -- `out.extend(…)`
  unfoldable pub evaluate :
      List (CompiledRule f lru)
      → Packet
      → List (Alert F64)
      → List (CompiledRule f lru) × List (Alert F64)
  unfolding evaluate_all
  evaluate rules packet out =
      let (rules', alerts) = evaluate_all rules packet in (rules', out ++ alerts)

  unfoldable pub from_yaml :
      (Text → Yaml F64) → Text → Outcome RuleError (List (CompiledRule f lru))
  unfolding from_specs
  from_yaml from_str text = do specs ← Spec.parse f from_str text; ok (from_specs specs)

  unfoldable pub load :
      (Text → Yaml F64) → Option Text → Outcome RuleError (List (CompiledRule f lru))
  unfolding from_specs
  load from_str contents = do specs ← Spec.load f from_str contents; ok (from_specs specs)

  -- `expect` panics if the bundled text is not valid.
  unfoldable pub builtin : (Text → Yaml F64) → Text → Outcome RuleError (List (CompiledRule f lru))
  unfolding from_yaml
  builtin from_str default_rules_yaml = elim (from_yaml from_str default_rules_yaml) [
    | ok rules ↦ ok rules
    | err e ↦ panic
    | panic ↦ panic
    | diverge ↦ diverge
  ]

-- ===== src/Cli/Main/Returning.antt =====
-- core-rs/cli/src/main.rs: how the command `replay` ends.
use netmon_polyglot.Alert.{Text}
use netmon_polyglot.Cli.Main
use netmon_polyglot.Engine
use netmon_polyglot.FileSystem.{FileSystem}
use netmon_polyglot.Float.{Float}
use netmon_polyglot.Lru.{LruCache}
use netmon_polyglot.Net.{IpAddr-discrete}
use netmon_polyglot.Pcap
use netmon_polyglot.Prelude.Outcome.{Outcome, Returns, Returns->>=}
use netmon_polyglot.Prelude.{List, [], ◌∷◌, arith}
use netmon_polyglot.Rules
use netmon_polyglot.Rules.Compiled.{SourceState}
use netmon_polyglot.Rules.Spec
use netmon_polyglot.Rules.Spec.{RuleSpec, Yaml}

module _ (f : Float) where
  open f use {F64}

  validate-Returns : (rule : RuleSpec F64) → Returns (Spec.validate f rule)
  unfolding Spec.validate
  validate-Returns rule = ground arith

  check_rules-Returns :
      (seen : List Text) (rules : List (RuleSpec F64)) → Returns (Spec.check_rules f seen rules)
  unfolding Spec.check_rules
  check_rules-Returns seen [] = tt
  check_rules-Returns seen (rule ∷ rules) =
      ground (arith, validate-Returns rule, check_rules-Returns (rule.id ∷ seen) rules)

  parse-Returns : (from_str : Text → Yaml F64) (text : Text) → Returns (Spec.parse f from_str text)
  unfolding Spec.parse Spec.check_file
  parse-Returns from_str text = go (from_str text)
    where
      go : (file : Yaml F64) → Returns (Spec.check_file f file)
      go (Yaml.unreadable message) = tt
      go (Yaml.read file) = ground (arith, check_rules-Returns [] file.rules)

  module _ (source_lru : LruCache SourceState IpAddr-discrete) (from_str : Text → Yaml F64) where
    from_yaml-Returns : (text : Text) → Returns (Rules.from_yaml f source_lru from_str text)
    unfolding Rules.from_yaml
    from_yaml-Returns text =
        Returns->>= (Spec.parse f from_str text) _ (parse-Returns from_str text) λ specs _. tt

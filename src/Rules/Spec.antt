-- ===== src/Rules/Spec.antt =====
-- core-rs/core/src/rules/loader.rs: rule specifications, and what a rule file must satisfy. The YAML
-- reader is the crate `serde_yaml`, a parameter.
pub mod Validity
use native.Mathlib.Decide.{ℕ_discrete}
use netmon_polyglot.Prelude.{
  ◌&&◌, ltb, ◌||◌, not, ◌==◌, String, Bool, List, length, ℕ, Option, ◌∷◌, false, true, some, none,
  zero, [],
}
use netmon_polyglot.Alert.{Severity, Text}
use netmon_polyglot.Float.{Float}
use netmon_polyglot.Prelude.Outcome.{Outcome, ok, err, reject_if, ◌>>=◌, ◌>>◌}

abbrev pub supported_version : ℕ
supported_version = 1

abbrev pub max_rule_id_len : ℕ
max_rule_id_len = 63

pub data RuleKind : Type 0 where
  port_scan host_sweep dns_tunnel packet_rate : RuleKind

pub RuleKind-discrete : Discrete RuleKind
RuleKind-discrete = hlevel

pub Text-discrete : Discrete Text
Text-discrete = hlevel ℕ_discrete

pub record RuleSpec (F : Type 0) : Type 0 where
  pub id : Text
  pub kind : RuleKind
  pub severity : Severity
  pub description : Text
  pub window_secs : F
  pub threshold : ℕ
  pub cooldown_secs : F
  pub enabled : Bool
  pub min_label_len : ℕ
  pub min_entropy : F

pub record RuleFile (F : Type 0) : Type 0 where
  pub version : ℕ
  pub rules : List (RuleSpec F)

pub data RuleError : Type 0 where
  io : RuleError
  syntax : Text → RuleError
  invalid : Text → String → RuleError
  version : ℕ → RuleError

-- What `serde_yaml::from_str` returns.
pub data Yaml (F : Type 0) : Type 0 where
  read : RuleFile F → Yaml F
  unreadable : Text → Yaml F

unfoldable pub is_tunnel : RuleKind → Bool
is_tunnel port_scan = false
is_tunnel host_sweep = false
is_tunnel dns_tunnel = true
is_tunnel packet_rate = false

-- `HashSet::contains`
unfoldable pub contains : Text → List Text → Bool
contains id [] = false
contains id (seen ∷ rest) = elim (Text-discrete seen id) [ yes p ↦ true | no p ↦ contains id rest ]

module _ (f : Float) where
  open f use {F64, decimal, is_finite, gt, ge}

  -- What `serde` puts in place of a field that is absent.
  abbrev pub default_cooldown : F64
  default_cooldown = decimal 60 0

  abbrev pub default_enabled : Bool
  default_enabled = true

  abbrev pub default_min_label_len : ℕ
  default_min_label_len = 30

  abbrev pub default_min_entropy : F64
  default_min_entropy = decimal 35 1

  abbrev pub zero_secs : F64
  zero_secs = decimal 0 0

  unfoldable pub validate : RuleSpec F64 → Outcome RuleError (Unit {0})
  validate rule = do
    reject_if (length rule.id == 0 || ltb max_rule_id_len (length rule.id))
        (invalid rule.id "id must be 1-63 characters")
    reject_if (not (is_finite rule.window_secs && gt rule.window_secs zero_secs))
        (invalid rule.id "window_secs must be a positive number")
    reject_if (not (is_finite rule.cooldown_secs && ge rule.cooldown_secs zero_secs))
        (invalid rule.id "cooldown_secs must be zero or positive")
    reject_if (rule.threshold == 0) (invalid rule.id "threshold must be at least 1")
    reject_if
        (is_tunnel rule.kind && not (is_finite rule.min_entropy && ge rule.min_entropy zero_secs))
        (invalid rule.id "min_entropy must be zero or positive")

  -- The loop over the rules, with the ids seen so far.
  unfoldable pub check_rules : List Text → List (RuleSpec F64) → Outcome RuleError (Unit {0})
  check_rules seen [] = ok tt
  check_rules seen (rule ∷ rules) = do
    validate rule
    reject_if (contains rule.id seen) (invalid rule.id "duplicate id")
    check_rules (rule.id ∷ seen) rules

  unfoldable pub check_file : Yaml F64 → Outcome RuleError (List (RuleSpec F64))
  unfolding check_rules validate
  check_file (unreadable message) = err (syntax message)
  check_file (read file) = do
    reject_if (not (file.version == supported_version)) (version file.version)
    check_rules [] file.rules
    ok file.rules

  unfoldable pub parse : (Text → Yaml F64) → Text → Outcome RuleError (List (RuleSpec F64))
  unfolding check_file
  parse from_str text = check_file (from_str text)

  -- `load`: the contents of the file, `none` if it cannot be read.
  unfoldable pub load : (Text → Yaml F64) → Option Text → Outcome RuleError (List (RuleSpec F64))
  unfolding parse
  load from_str none = err io
  load from_str (some text) = parse from_str text

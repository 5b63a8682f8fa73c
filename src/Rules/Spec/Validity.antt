-- ===== src/Rules/Spec/Validity.antt =====
-- core-rs/core/src/rules/loader.rs: exactly the files whose rules are all valid, with different ids,
-- are accepted.
use netmon_polyglot.Prelude.{
  ◌⊎◌, Bool-cases, ◌≤◌, arith, ◌≢◌, ◌↔◌, length, List, ◌≡◌, ◌<◌, ◌∷◌, refl, inr, inl, false, true,
  [],
}
use netmon_polyglot.Rules.Spec.{
  RuleSpec, RuleFile, RuleError, contains, is_tunnel, max_rule_id_len, zero_secs,
}
use netmon_polyglot.Rules.Spec
use netmon_polyglot.Float.{Float}
use netmon_polyglot.Alert.{Text}
use netmon_polyglot.Prelude.Outcome.{ok}

-- The id is not among the given ones.
abbrev pub Absent : Text → List Text → Type 0
Absent id [] = Unit
Absent id (seen ∷ rest) = (seen ≢ id) × Absent id rest

contains-Absent : (id : Text) (seen : List Text) → contains id seen ≡ false → Absent id seen
unfolding contains
contains-Absent id [] h = tt
contains-Absent id (s ∷ seen) h = ground (arith, contains-Absent id seen)

Absent-contains : (id : Text) (seen : List Text) → Absent id seen → contains id seen ≡ false
unfolding contains
Absent-contains id [] h = refl
Absent-contains id (s ∷ seen) h = ground (arith, Absent-contains id seen h.1)

module _ (f : Float) where
  open f use {F64, is_finite, gt, ge}

  -- What a rule file must give for a rule.
  pub record IsValid (rule : RuleSpec F64) : Type 0 where
    pub id_nonempty : 0 < length rule.id
    pub id_short : length rule.id ≤ max_rule_id_len
    pub window : (is_finite rule.window_secs ≡ true) × (gt rule.window_secs (zero_secs f) ≡ true)
    pub cooldown :
        (is_finite rule.cooldown_secs ≡ true) × (ge rule.cooldown_secs (zero_secs f) ≡ true)
    pub threshold : 0 < rule.threshold
    pub entropy :
        (is_tunnel rule.kind ≡ false)
        ⊎ ((is_finite rule.min_entropy ≡ true) × (ge rule.min_entropy (zero_secs f) ≡ true))

  validate-IsValid : (rule : RuleSpec F64) → Spec.validate f rule ≡ ok tt → IsValid rule
  unfolding Spec.validate
  validate-IsValid rule h = record {
    id_nonempty = ground arith;
    id_short = ground arith;
    window = ground arith;
    cooldown = ground arith;
    threshold = ground arith;
    entropy = elim (Bool-cases (is_tunnel rule.kind)) [
      | inl tunnel ↦ inr (ground arith)
      | inr other ↦ inl other
    ];
  }

  IsValid-validate : (rule : RuleSpec F64) → IsValid rule → Spec.validate f rule ≡ ok tt
  unfolding Spec.validate
  IsValid-validate rule v = ground arith

  -- Every rule is valid, and its id is new.
  abbrev pub AllValid : List Text → List (RuleSpec F64) → Type 0
  AllValid seen [] = Unit
  AllValid seen (rule ∷ rules) =
      IsValid rule × Absent rule.id seen × AllValid (rule.id ∷ seen) rules

  check_rules-AllValid :
      (seen : List Text) (rules : List (RuleSpec F64))
      → Spec.check_rules f seen rules ≡ ok tt
      → AllValid seen rules
  unfolding Spec.check_rules
  check_rules-AllValid seen [] h = tt
  check_rules-AllValid seen (rule ∷ rules) h = (
    validate-IsValid rule (ground arith),
    contains-Absent rule.id seen (ground arith),
    check_rules-AllValid (rule.id ∷ seen) rules (ground arith),
  )

  AllValid-check_rules :
      (seen : List Text) (rules : List (RuleSpec F64))
      → AllValid seen rules
      → Spec.check_rules f seen rules ≡ ok tt
  unfolding Spec.check_rules
  AllValid-check_rules seen [] h = refl
  AllValid-check_rules seen (rule ∷ rules) h = ground (
    arith,
    IsValid-validate rule h.0,
    Absent-contains rule.id seen h.1,
    AllValid-check_rules (rule.id ∷ seen) rules h.2,
  )

  checked :
      (y : Spec.Yaml F64) (rules : List (RuleSpec F64))
      → Spec.check_file f y ≡ ok rules
      → (y ≡ Spec.read (record { version = Spec.supported_version; rules = rules }))
        × AllValid [] rules
  unfolding Spec.check_file
  checked (Spec.unreadable message) rules h = absurd (ground arith)
  checked (Spec.read file) rules h =
      let same : file.rules ≡ rules = ground arith in
      let passed : Spec.check_rules f [] file.rules ≡ ok tt = ground arith in
      (ground arith, check_rules-AllValid [] rules (rw same at passed))

  -- A text is accepted, with the rules that the reader finds in it, exactly if it can be read, has
  -- the supported version, and holds valid rules with different ids.
  pub parse-ok_iff :
      (from_str : Text → Spec.Yaml F64) (text : Text) (rules : List (RuleSpec F64))
      → (Spec.parse f from_str text ≡ ok rules) ↔ (
          (from_str text ≡ Spec.read (record { version = Spec.supported_version; rules = rules }))
          × AllValid [] rules)
  parse-ok_iff from_str text rules = (accepted, accepts)
    where
      accepts :
          (from_str text ≡ Spec.read (record { version = Spec.supported_version; rules = rules }))
            × AllValid [] rules
          → Spec.parse f from_str text ≡ ok rules
      accepts h = unfold Spec.parse in ground (arith, AllValid-check_rules [] rules h.1)

      accepted :
          Spec.parse f from_str text ≡ ok rules
          → (from_str text ≡ Spec.read (record { version = Spec.supported_version; rules = rules }))
            × AllValid [] rules
      accepted h = checked (from_str text) rules (unfold Spec.parse in h)

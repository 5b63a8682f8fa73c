-- ===== src/Rules/Loaded.antt =====
-- core-rs/core/src/rules/mod.rs: the rules that are made of specifications.
use netmon_polyglot.Float.{Float}
use netmon_polyglot.Lru.{LruCache}
use netmon_polyglot.Net.{IpAddr-discrete}
use netmon_polyglot.Prelude.{arith, inl, inr, Bool-cases, refl, ◌≡◌, if◌then◌else◌, List, ◌∷◌, []}
use netmon_polyglot.Rules
use netmon_polyglot.Rules.Compiled
use netmon_polyglot.Rules.Compiled.{CompiledRule, SourceState}
use netmon_polyglot.Rules.Spec.{RuleSpec}

module _ (f : Float) (source_lru : LruCache SourceState IpAddr-discrete) where
  open f use {F64}

  -- The specifications of rules, and those that are not switched off.
  abbrev pub specs_of : List (CompiledRule f source_lru) → List (RuleSpec F64)
  specs_of [] = []
  specs_of (rule ∷ rules) = rule.spec ∷ specs_of rules

  abbrev pub enabled : List (RuleSpec F64) → List (RuleSpec F64)
  enabled [] = []
  enabled (spec ∷ specs) = let rest = enabled specs in if spec.enabled then spec ∷ rest else rest

  -- Each rule has room for 10 000 sources and has seen none.
  abbrev pub Unseen : List (CompiledRule f source_lru) → Type 0
  Unseen [] = Unit
  Unseen (rule ∷ rules) =
      (source_lru.cap rule.sources ≡ 10_000) × (source_lru.iter rule.sources ≡ []) × Unseen rules

  pub specs_of-from_specs :
      (specs : List (RuleSpec F64)) → specs_of (Rules.from_specs f source_lru specs) ≡ enabled specs
  unfolding Rules.from_specs Compiled.compile
  specs_of-from_specs [] = refl
  specs_of-from_specs (spec ∷ specs) = ground (arith, specs_of-from_specs specs)

  pub from_specs-Unseen :
      (specs : List (RuleSpec F64)) → Unseen (Rules.from_specs f source_lru specs)
  unfolding Rules.from_specs Compiled.compile
  from_specs-Unseen [] = tt
  from_specs-Unseen (spec ∷ specs) = elim (Bool-cases spec.enabled) [
    | inl on ↦
        rw on (source_lru.cap-new 10_000, source_lru.iter-new 10_000, from_specs-Unseen specs)
    | inr off ↦ rw off (from_specs-Unseen specs)
  ]

-- ===== src/Cli/Options.antt =====
-- core-rs/cli/src/args.rs: which command lines are accepted.
use netmon_polyglot.Prelude.Outcome.{Outcome, ok, ◌>>=◌, >>=-eq-ok}
use netmon_polyglot.Prelude.Outcome.{ok}
use netmon_polyglot.Prelude.{
  ◌∙◌, Option-cases, arith, Bool-cases, ap, inr, inl, true, ◌≡◌, ℕ, List, ◌∷◌, refl, some, [],
}
use netmon_polyglot.Cli
use netmon_polyglot.Synth.Scenarios
use netmon_polyglot.Cli.{Outcome, ok, ℕ, List, Command, RulesChoice, Scenario, Text, replay, gen}

-- An option of `replay`, as it is written, with the number that its text stands for.
pub data ReplayOption : Type 0 where
  top : (text : Text) (n : ℕ) → Cli.read_number text ≡ some n → ReplayOption
  no_rules : ReplayOption
  rules : Text → ReplayOption

-- The arguments that write the options.
abbrev pub replay_args : List ReplayOption → List Text
replay_args [] = []
replay_args (top text n r ∷ options) = Cli.top_flag ∷ text ∷ replay_args options
replay_args (no_rules ∷ options) = Cli.no_rules_flag ∷ replay_args options
replay_args (rules path ∷ options) = Cli.rules_flag ∷ path ∷ replay_args options

-- What the options say: the last of a kind counts.
abbrev pub told : ℕ × RulesChoice → List ReplayOption → ℕ × RulesChoice
told r [] = r
told r (top text n read ∷ options) = told (n, r.1) options
told r (no_rules ∷ options) = told (r.0, RulesChoice.off) options
told r (rules path ∷ options) = told (r.0, RulesChoice.file path) options

number_read :
    (flag text : Text) (n : ℕ) → Cli.read_number text ≡ some n → Cli.number flag (some text) ≡ ok n
unfolding Cli.number
number_read flag text n read = ground (arith, read)

number_ok :
    (flag text : Text) (n : ℕ) → Cli.number flag (some text) ≡ ok n → Cli.read_number text ≡ some n
unfolding Cli.number
number_ok flag text n given = elim (Option-cases (Cli.read_number text)) [
  | inl bad ↦ absurd (ground (arith, bad, given))
  | inr (m, read) ↦ ground (arith, read, given)
]

pub text_is-eq : (x y : Text) → Scenarios.text_is x y ≡ true → x ≡ y
unfolding Scenarios.text_is
text_is-eq [] [] h = refl
text_is-eq [] (b ∷ y) h = absurd cc
text_is-eq (a ∷ x) [] h = absurd cc
text_is-eq (a ∷ x) (b ∷ y) h = ground (arith, text_is-eq x y)

no_rules_step :
    (t : ℕ) (c : RulesChoice) (args : List Text)
    → Cli.replay_options t c (Cli.no_rules_flag ∷ args) ≡ Cli.replay_options t RulesChoice.off args
unfolding Cli.replay_options Scenarios.text_is
no_rules_step t c [] = refl
no_rules_step t c (value ∷ args) = refl

pub replay_args-told :
    (t : ℕ) (c : RulesChoice) (options : List ReplayOption)
    → Cli.replay_options t c (replay_args options) ≡ ok (told (t, c) options)
unfolding Cli.replay_options Scenarios.text_is
replay_args-told t c [] = refl
replay_args-told t c (top text n read ∷ options) =
    ap (λ o. o >>= λ m. Cli.replay_options m c (replay_args options))
      (number_read Cli.top_flag text n read)
    ∙ replay_args-told n c options
replay_args-told t c (no_rules ∷ options) =
    no_rules_step t c (replay_args options) ∙ replay_args-told t RulesChoice.off options
replay_args-told t c (rules path ∷ options) = replay_args-told t (RulesChoice.file path) options

-- The options that the arguments write.
abbrev pub Written : ℕ × RulesChoice → List Text → ℕ × RulesChoice → Type 0
Written from args r =
    (options : List ReplayOption) × (args ≡ replay_args options) × (r ≡ told from options)

write_number :
    (t : ℕ) (c : RulesChoice) (flag value : Text) (args : List Text) (n : ℕ) (r : ℕ × RulesChoice)
    → flag ≡ Cli.top_flag
    → Cli.read_number value ≡ some n
    → Written (n, c) args r
    → Written (t, c) (flag ∷ value ∷ args) r
write_number t c flag value args n r at read (options, same, says) = (
  top value n read ∷ options,
  ap (λ f. f ∷ value ∷ args) at ∙ ap (λ xs. Cli.top_flag ∷ value ∷ xs) same,
  says,
)

write_off :
    (t : ℕ) (c : RulesChoice) (flag : Text) (args : List Text) (r : ℕ × RulesChoice)
    → flag ≡ Cli.no_rules_flag
    → Written (t, RulesChoice.off) args r
    → Written (t, c) (flag ∷ args) r
write_off t c flag args r at (options, same, says) =
    (no_rules ∷ options, ap (λ f. f ∷ args) at ∙ ap (λ xs. Cli.no_rules_flag ∷ xs) same, says)

write_file :
    (t : ℕ) (c : RulesChoice) (flag value : Text) (args : List Text) (r : ℕ × RulesChoice)
    → flag ≡ Cli.rules_flag
    → Written (t, RulesChoice.file value) args r
    → Written (t, c) (flag ∷ value ∷ args) r
write_file t c flag value args r at (options, same, says) = (
  rules value ∷ options,
  ap (λ f. f ∷ value ∷ args) at ∙ ap (λ xs. Cli.rules_flag ∷ value ∷ xs) same,
  says,
)

abbrev fine : ℕ × RulesChoice → Outcome Cli.ArgError (ℕ × RulesChoice)
fine r = ok r

ok_said : (r s : ℕ × RulesChoice) → fine r ≡ fine s → s ≡ r
ok_said r s h = ground (arith, h)

last_off :
    (t : ℕ) (c : RulesChoice) (flag : Text) (r : ℕ × RulesChoice)
    → Scenarios.text_is flag Cli.no_rules_flag ≡ true
    → Cli.replay_options t c (flag ∷ []) ≡ ok r
    → fine (t, RulesChoice.off) ≡ fine r
unfolding Cli.replay_options
last_off t c flag r is_off h = ground (arith, is_off, h)

pub replay_options-Written :
    (t : ℕ) (c : RulesChoice) (args : List Text) (r : ℕ × RulesChoice)
    → Cli.replay_options t c args ≡ ok r
    → Written (t, c) args r
unfolding Cli.replay_options
replay_options-Written t c [] r h = ([], refl, ok_said (t, c) r h)
replay_options-Written t c (flag ∷ []) r h =
    elim (Bool-cases (Scenarios.text_is flag Cli.no_rules_flag)) [
      | inl is_off ↦
          write_off t c flag [] r (text_is-eq flag _ is_off)
            ([], refl, ok_said (t, RulesChoice.off) r (last_off t c flag r is_off h))
      | inr not_off ↦ absurd (ground (arith, not_off, h))
    ]
replay_options-Written t c (flag ∷ value ∷ args) r h =
    elim (Bool-cases (Scenarios.text_is flag Cli.top_flag)) [
      | inl is_top ↦
          let (n, got, rest) =
            >>=-eq-ok (Cli.number flag (some value)) (λ n. Cli.replay_options n c args)
              (rw (is_top, Cli.replay_options) at h) in
          write_number t c flag value args n r (text_is-eq flag _ is_top)
            (number_ok flag value n got) (replay_options-Written n c args r rest)
      | inr not_top ↦ elim (Bool-cases (Scenarios.text_is flag Cli.no_rules_flag)) [
        | inl is_off ↦ write_off t c flag (value ∷ args) r (text_is-eq flag _ is_off) (
            replay_options-Written t RulesChoice.off (value ∷ args) r
              (rw (not_top, is_off, Cli.replay_options) at h))
        | inr not_off ↦ elim (Bool-cases (Scenarios.text_is flag Cli.rules_flag)) [
          | inl is_rules ↦ write_file t c flag value args r (text_is-eq flag _ is_rules) (
              replay_options-Written t (RulesChoice.file value) args r
                (rw (not_top, not_off, is_rules, Cli.replay_options) at h))
          | inr not_rules ↦ absurd (ground (arith, not_top, not_off, not_rules, h))
        ]
      ]
    ]

-- ===== src/Cli/Replay.antt =====
-- core-rs/cli/src/args.rs: which command lines ask for a replay.
use netmon_polyglot.Prelude.{
  sym, ◌∙◌, Bool-cases, ap, ◌||◌, inr, inl, ◌↔◌, arith, ◌≢◌, ◌≡◌, ℕ, List, ◌∷◌, [],
}
use netmon_polyglot.Cli
use netmon_polyglot.Synth.Scenarios
use netmon_polyglot.Cli.{ℕ, List, Command, RulesChoice, Text, replay, gen}
use netmon_polyglot.Cli.Options.{
  text_is-eq, ReplayOption, replay_args, told, replay_args-told, replay_options-Written,
}
use netmon_polyglot.Prelude.Outcome.{Outcome, ok, ◌>>=◌, >>=-eq-ok}

abbrev accepted : Command → Outcome Cli.ArgError Command
accepted command = ok command

replay_same :
    (p q : Text) (m n : ℕ) (c d : RulesChoice)
    → accepted (replay p m c) ≡ accepted (replay q n d)
    → (p ≡ q) × (m ≡ n) × (c ≡ d)
replay_same p q m n c d h = (ground (arith, h), ground (arith, h), ground (arith, h))

gen_ne_replay :
    (args : List Text) (path : Text) (top : ℕ) (rules : RulesChoice)
    → Cli.parse_gen args ≢ accepted (replay path top rules)
unfolding Cli.parse_gen
gen_ne_replay [] path top rules h = absurd cc
gen_ne_replay (name ∷ []) path top rules h = ground (arith, h)
gen_ne_replay (name ∷ out ∷ args) path top rules h = ground (arith, h)

parse_replay-Written :
    (args : List Text) (path : Text) (top : ℕ) (rules : RulesChoice)
    → Cli.parse_replay args ≡ accepted (replay path top rules)
    → (options : List ReplayOption) × (args ≡ path ∷ replay_args options)
      × ((top, rules) ≡ told (Cli.default_top, RulesChoice.builtin) options)
unfolding Cli.parse_replay
parse_replay-Written [] path top rules h = absurd cc
parse_replay-Written (file ∷ args) path top rules h =
    let (r, got, same) =
      >>=-eq-ok (Cli.replay_options Cli.default_top RulesChoice.builtin args)
        (λ r. accepted (replay file r.0 r.1)) h in
    let (options, written, says) =
      replay_options-Written Cli.default_top RulesChoice.builtin args r got in
    let (path_same, top_same, rules_same) = replay_same file path r.0 top r.1 rules same in
    (
      options,
      ap (λ p. p ∷ args) path_same ∙ ap (λ xs. path ∷ xs) written,
      ap (λ t. (t, rules)) (sym top_same) ∙ ap (λ c. (r.0, c)) (sym rules_same) ∙ says,
    )

parse-Written :
    (args : List Text) (path : Text) (top : ℕ) (rules : RulesChoice)
    → Cli.parse args ≡ accepted (replay path top rules)
    → (options : List ReplayOption) × (args ≡ Cli.replay_word ∷ path ∷ replay_args options)
      × ((top, rules) ≡ told (Cli.default_top, RulesChoice.builtin) options)
unfolding Cli.parse
parse-Written [] path top rules h = absurd cc
parse-Written (word ∷ args) path top rules h =
    let asks =
      Scenarios.text_is word Cli.help_word
      || (Scenarios.text_is word Cli.help_short || Scenarios.text_is word Cli.help_long) in
    elim (Bool-cases asks) [
      | inl helps ↦ absurd (ground (arith, rw (helps, Cli.parse) at h))
      | inr busy ↦ elim (Bool-cases (Scenarios.text_is word Cli.gen_word)) [
        | inl gens ↦ absurd (gen_ne_replay args path top rules (rw (busy, gens, Cli.parse) at h))
        | inr not_gen ↦ elim (Bool-cases (Scenarios.text_is word Cli.replay_word)) [
          | inl replays ↦
              let (options, written, says) =
                parse_replay-Written args path top rules
                  (rw (busy, not_gen, replays, Cli.parse) at h) in
              (
                options,
                ap (λ w. w ∷ args) (text_is-eq word _ replays)
                    ∙ ap (λ xs. Cli.replay_word ∷ xs) written,
                says,
              )
          | inr not_replay ↦ absurd (ground (arith, rw (busy, not_gen, not_replay, Cli.parse) at h))
        ]
      ]
    ]

parse-replay :
    (path : Text) (options : List ReplayOption)
    → let r = told (Cli.default_top, RulesChoice.builtin) options in
      Cli.parse (Cli.replay_word ∷ path ∷ replay_args options) ≡ accepted (replay path r.0 r.1)
unfolding Cli.parse Cli.parse_replay Scenarios.text_is
parse-replay path options =
    ap (λ o. o >>= λ r. accepted (replay path r.0 r.1))
      (replay_args-told Cli.default_top RulesChoice.builtin options)

-- A command line is accepted as a replay exactly if it is the word `replay`, the path, and options that
-- are known, each with its value and each number one of 64 bits; and the last option of a kind counts,
-- the default values for those that are absent.
pub parse-replay_iff :
    (args : List Text) (path : Text) (top : ℕ) (rules : RulesChoice)
    → (Cli.parse args ≡ ok (replay path top rules)) ↔ (
        (options : List ReplayOption) × (args ≡ Cli.replay_word ∷ path ∷ replay_args options)
        × ((top, rules) ≡ told (Cli.default_top, RulesChoice.builtin) options))
parse-replay_iff args path top rules = (
  parse-Written args path top rules,
  (λ (options, same, says).
      ap Cli.parse same
      ∙ parse-replay path options
      ∙ ap (λ r. accepted (replay path r.0 r.1)) (sym says)),
)

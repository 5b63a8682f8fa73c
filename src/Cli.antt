-- ===== src/Cli.antt =====
-- core-rs/cli/src/args.rs: the arguments of the command line. A string is a list of bytes; `PathBuf` is
-- the string.
pub mod Options
pub mod Replay
pub mod Main
use netmon_polyglot.Prelude.Words.{u64_mod}
use netmon_polyglot.Prelude.{
  ltb, leb, ◌-◌, ◌+◌, ◌||◌, ◌&&◌, ◌==◌, if◌then◌else◌, ◌*◌, ℕ, List, Option, Bool, ◌∷◌, false, true,
  some, none, [],
}
use netmon_polyglot.Alert.{Text}
use netmon_polyglot.Synth.Scenarios.{Scenario, text_is, from_name}
use netmon_polyglot.Prelude.Outcome.{Outcome, ok, err, panic, diverge, ◌>>=◌}

abbrev pub default_gen_packets : ℕ
default_gen_packets = 100_000

abbrev pub default_seed : ℕ
default_seed = 7

abbrev pub default_top : ℕ
default_top = 10

pub data RulesChoice : Type 0 where
  builtin off : RulesChoice
  file : Text → RulesChoice

pub data Command : Type 0 where
  gen : Scenario → Text → ℕ → ℕ → Command
  replay : Text → ℕ → RulesChoice → Command
  help : Command

-- The messages, with what `format!` puts into them.
pub data ArgError : Type 0 where
  unknown_command unknown_scenario unknown_gen_option unknown_replay_option missing_value :
      Text → ArgError
  not_a_number : Text → Text → ArgError
  missing_scenario missing_output missing_pcap missing_path : ArgError

-- `"help"`
abbrev pub help_word : Text
help_word = 104 ∷ 101 ∷ 108 ∷ 112 ∷ []

-- `"-h"`
abbrev pub help_short : Text
help_short = 45 ∷ 104 ∷ []

-- `"--help"`
abbrev pub help_long : Text
help_long = 45 ∷ 45 ∷ 104 ∷ 101 ∷ 108 ∷ 112 ∷ []

-- `"gen"`
abbrev pub gen_word : Text
gen_word = 103 ∷ 101 ∷ 110 ∷ []

-- `"replay"`
abbrev pub replay_word : Text
replay_word = 114 ∷ 101 ∷ 112 ∷ 108 ∷ 97 ∷ 121 ∷ []

-- `"--packets"`
abbrev pub packets_flag : Text
packets_flag = 45 ∷ 45 ∷ 112 ∷ 97 ∷ 99 ∷ 107 ∷ 101 ∷ 116 ∷ 115 ∷ []

-- `"--seed"`
abbrev pub seed_flag : Text
seed_flag = 45 ∷ 45 ∷ 115 ∷ 101 ∷ 101 ∷ 100 ∷ []

-- `"--top"`
abbrev pub top_flag : Text
top_flag = 45 ∷ 45 ∷ 116 ∷ 111 ∷ 112 ∷ []

-- `"--no-rules"`
abbrev pub no_rules_flag : Text
no_rules_flag = 45 ∷ 45 ∷ 110 ∷ 111 ∷ 45 ∷ 114 ∷ 117 ∷ 108 ∷ 101 ∷ 115 ∷ []

-- `"--rules"`
abbrev pub rules_flag : Text
rules_flag = 45 ∷ 45 ∷ 114 ∷ 117 ∷ 108 ∷ 101 ∷ 115 ∷ []

-- The digits of a number of 64 bits, after a part that was read.
unfoldable pub digits : ℕ → Text → Option ℕ
digits acc [] = some acc
digits acc (b ∷ text) =
    let value = acc * 10 + (b - 48) in
    let rest = digits value text in
    if leb 48 b && (leb b 57 && ltb value u64_mod) then rest else none

-- `str::parse` to an unsigned integer of 64 bits: a sign `+` may stand before the digits.
unfoldable pub read_number : Text → Option ℕ
unfolding digits
read_number [] = none
read_number (b ∷ []) = digits 0 (b ∷ [])
read_number (b ∷ c ∷ text) = if b == 43 then digits 0 (c ∷ text) else digits 0 (b ∷ c ∷ text)

unfoldable pub number : Text → Option Text → Outcome ArgError ℕ
unfolding read_number
number flag none = err (missing_value flag)
number flag (some value) = elim (read_number value) [
  | none ↦ err (not_a_number flag value)
  | some n ↦ ok n
]

-- The loop over the options of `gen`: the packets and the seed.
unfoldable pub gen_options : ℕ → ℕ → List Text → Outcome ArgError (ℕ × ℕ)
unfolding number
gen_options packets seed [] = ok (packets, seed)
gen_options packets seed (flag ∷ []) =
    if text_is flag packets_flag || text_is flag seed_flag
    then err (missing_value flag)
    else err (unknown_gen_option flag)
gen_options packets seed (flag ∷ value ∷ args) =
    if text_is flag packets_flag
    then (number flag (some value) >>= λ n. gen_options n seed args)
    else if text_is flag seed_flag
    then (number flag (some value) >>= λ n. gen_options packets n args)
    else err (unknown_gen_option flag)

unfoldable pub parse_gen : List Text → Outcome ArgError Command
unfolding gen_options from_name
parse_gen [] = err missing_scenario
parse_gen (name ∷ []) = elim (from_name name) [
  | none ↦ err (unknown_scenario name)
  | some scenario ↦ err missing_output
]
parse_gen (name ∷ out ∷ args) = elim (from_name name) [
  | none ↦ err (unknown_scenario name)
  | some scenario ↦
      gen_options default_gen_packets default_seed args >>= λ r. ok (gen scenario out r.0 r.1)
]

-- The loop over the options of `replay`: the number of flows and the rules.
unfoldable pub replay_options : ℕ → RulesChoice → List Text → Outcome ArgError (ℕ × RulesChoice)
unfolding number
replay_options top rules [] = ok (top, rules)
replay_options top rules (flag ∷ []) =
    if text_is flag top_flag
    then err (missing_value flag)
    else if text_is flag no_rules_flag
    then ok (top, off)
    else if text_is flag rules_flag
    then err missing_path
    else err (unknown_replay_option flag)
replay_options top rules (flag ∷ value ∷ args) =
    if text_is flag top_flag
    then (number flag (some value) >>= λ n. replay_options n rules args)
    else if text_is flag no_rules_flag
    then replay_options top off (value ∷ args)
    else if text_is flag rules_flag
    then replay_options top (file value) args
    else err (unknown_replay_option flag)

unfoldable pub parse_replay : List Text → Outcome ArgError Command
unfolding replay_options
parse_replay [] = err missing_pcap
parse_replay (path ∷ args) =
    replay_options default_top builtin args >>= λ r. ok (replay path r.0 r.1)

unfoldable pub parse : List Text → Outcome ArgError Command
unfolding parse_gen parse_replay
parse [] = ok help
parse (word ∷ args) =
    if text_is word help_word || (text_is word help_short || text_is word help_long)
    then ok help
    else if text_is word gen_word
    then parse_gen args
    else if text_is word replay_word
    then parse_replay args
    else err (unknown_command word)

-- ===== src/Tests/Commands.antt =====
-- The theorem on command lines at `replay a --no-rules`.
use netmon_polyglot.Alert.{Text}
use netmon_polyglot.Cli
use netmon_polyglot.Cli.Options
use netmon_polyglot.Cli.Options.{ReplayOption}
use netmon_polyglot.Cli.Replay
use netmon_polyglot.Prelude.{List, ◌∷◌, [], ◌≡◌, ◌↔◌}
use netmon_polyglot.Prelude.Outcome.{ok}

abbrev line : List Text
line = Cli.replay_word ∷ (97 ∷ []) ∷ Cli.no_rules_flag ∷ []

parse-replay_iff_example : (Cli.parse line ≡ ok (Cli.replay (97 ∷ []) 10 Cli.off)) ↔ (
    (options : List ReplayOption) × (line
      ≡ Cli.replay_word ∷ (97 ∷ []) ∷ Options.replay_args options)
    × ((10, Cli.off) ≡ Options.told (Cli.default_top, Cli.builtin) options))
parse-replay_iff_example = Replay.parse-replay_iff line (97 ∷ []) 10 Cli.off

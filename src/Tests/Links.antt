-- ===== src/Tests/Links.antt =====
-- The theorems on the link at one that connects, takes a batch, loses it with its call, and is
-- dropped.
use netmon_polyglot.Prelude.Words
use netmon_polyglot.Link
use netmon_polyglot.Link.{Event, Link, Phase, LinkState}
use netmon_polyglot.Link.Accounting
use netmon_polyglot.Link.Backoff
use netmon_polyglot.Link.Shutdown
use netmon_polyglot.Link.Soundness
use netmon_polyglot.Prelude.{
  ◌++◌, false, ◌^◌, ◌*◌, List, ℕ, ◌∷◌, [], true, false, some, refl, ◌≡◌, ◌+◌, length, min, arith,
}

abbrev story : List (Event ℕ ℕ)
story =
    Event.connect_done true
    ∷ Event.offer LinkState.connected 7
    ∷ Event.offer LinkState.disconnected 8
    ∷ Event.recv
    ∷ Event.forwarded false
    ∷ Event.drop_link
    ∷ []

-- The link after the story: it waits, with one batch dropped and one lost.
abbrev waiting : Link ℕ ℕ
waiting = record {
  counters = record { state = 0; sent = 0; dropped = 1; reconnects = 1 };
  batches = [];
  scores = [];
  shutdown = true;
  closed = false;
  phase = Phase.wait;
  backoff = 500;
}

told : Link.run Link.start story ≡ some waiting
unfolding Link.run Link.start Link.step Words.add64
told = refl

run-IsSound_example : Soundness.IsSound waiting
run-IsSound_example = Soundness.run-IsSound story told

-- One of the two batches is in no counter.
run_accounted_example :
    waiting.counters.sent
      + waiting.counters.dropped
      + length waiting.batches
      + Accounting.in_flight waiting.phase
      + Accounting.losses story
    ≡ Accounting.offers story
run_accounted_example = Accounting.run_accounted story (omega arith) told

run-failures_example :
    (l : Link ℕ ℕ) × (Link.run Link.start (Backoff.failures 3 ++ Event.connect_done false ∷ [])
      ≡ some l)
    × (l.phase ≡ Phase.wait)
    × (l.backoff ≡ min (500 * 2 ^ 3) 30_000)
run-failures_example = Backoff.run-failures 3

run-Shutdown_example :
    (l' : Link ℕ ℕ) × (Link.run waiting (Shutdown.last_events waiting.phase true) ≡ some l')
    × (l'.phase ≡ Phase.stopped)
    × (Link.state l' ≡ Link.disconnected)
run-Shutdown_example = Shutdown.run-Shutdown story true told refl

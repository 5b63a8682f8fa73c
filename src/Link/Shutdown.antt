-- ===== src/Link/Shutdown.antt =====
-- core-rs/core-grpc/src/link.rs: the worker ends once the link is dropped.
use netmon_polyglot.Link.Soundness.{state_of, run-IsSound, IsSound}
use netmon_polyglot.Prelude.{ap, ◌∙◌, refl, arith, false, List, ◌≡◌, Bool, ◌∷◌, true, some, []}
use netmon_polyglot.Link
use netmon_polyglot.Link.{List, Bool, Event, Link, Phase, LinkState}

module _ {B S : Type 0} where
  -- The events that end the worker: the answer of the network that it awaits, if any, and the signal.
  abbrev pub last_events : Phase B → Bool → List (Event B S)
  last_events Phase.connect answer = Event.connect_done answer ∷ Event.shutdown_changed ∷ []
  last_events Phase.starting answer = Event.shutdown_changed ∷ []
  last_events Phase.streaming answer = Event.shutdown_changed ∷ []
  last_events (Phase.forward_starting b) answer =
      Event.forwarded answer ∷ Event.shutdown_changed ∷ []
  last_events (Phase.forward_streaming b) answer =
      Event.forwarded answer ∷ Event.shutdown_changed ∷ []
  last_events Phase.wait answer = Event.shutdown_changed ∷ []
  last_events Phase.stopped answer = []

  ended_at :
      (l : Link B S) (p : Phase B) (answer : Bool)
      → l.phase ≡ p
      → l.shutdown ≡ true
      → IsSound l
      → (l' : Link B S) × (Link.run l (last_events p answer) ≡ some l')
        × (l'.phase ≡ Phase.stopped)
        × (Link.state l' ≡ Link.disconnected)
  unfolding Link.run Link.step Link.work Link.state
  ended_at l Phase.connect true at h v =
      (Link.stop (Link.enter_stream l), ground arith, ground arith, ground arith)
  ended_at l Phase.connect false at h v =
      (Link.stop (Link.lose l), ground arith, ground arith, ground arith)
  ended_at l Phase.starting answer at h v = (Link.stop l, ground arith, ground arith, ground arith)
  ended_at l Phase.streaming answer at h v = (Link.stop l, ground arith, ground arith, ground arith)
  ended_at l (Phase.forward_starting b) true at h v = (
    Link.stop (Link.finish_forward l Phase.starting true),
    ground arith,
    ground arith,
    ground arith,
  )
  ended_at l (Phase.forward_starting b) false at h v =
      (Link.stop (Link.lose l), ground arith, ground arith, ground arith)
  ended_at l (Phase.forward_streaming b) true at h v = (
    Link.stop (Link.finish_forward l Phase.streaming true),
    ground arith,
    ground arith,
    ground arith,
  )
  ended_at l (Phase.forward_streaming b) false at h v =
      (Link.stop (Link.lose l), ground arith, ground arith, ground arith)
  ended_at l Phase.wait answer at h v = (Link.stop l, ground arith, ground arith, ground arith)
  ended_at l Phase.stopped answer at h v = (l, refl, at, v.agrees ∙ ap state_of at)

  -- Once the link is dropped, whatever phase the worker is in and whatever the network answers to what
  -- it awaits, the worker can end, after that answer, by the signal that it then sees; it shows the
  -- state of a link that is not connected.
  pub run-Shutdown :
      (events : List (Event B S)) (answer : Bool) {l : Link B S}
      → Link.run Link.start events ≡ some l
      → l.shutdown ≡ true
      → (l' : Link B S) × (Link.run l (last_events l.phase answer) ≡ some l')
        × (l'.phase ≡ Phase.stopped)
        × (Link.state l' ≡ Link.disconnected)
  run-Shutdown events answer {l} h down =
      ended_at l l.phase answer refl down (run-IsSound events {l = l} h)

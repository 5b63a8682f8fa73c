-- ===== src/Link/Soundness.antt =====
-- core-rs/core-grpc/src/link.rs: what holds of the link in every state that it can reach.
use netmon_polyglot.Prelude.{
  Option-cases, length-append, List, ◌∷◌, refl, inr, inl, [], ◌&&◌, length, arith, ◌≤◌, ◌≡◌, false,
  some,
}
use netmon_polyglot.Link
use netmon_polyglot.Link.{List, length, Event, Link, Phase, LinkState}

-- The state that the worker shows in a phase.
abbrev pub state_of : {B : Type 0} → Phase B → LinkState
state_of Phase.connect = Link.connecting
state_of Phase.starting = Link.connected
state_of Phase.streaming = Link.connected
state_of (Phase.forward_starting b) = Link.connected
state_of (Phase.forward_streaming b) = Link.connected
state_of Phase.wait = Link.disconnected
state_of Phase.stopped = Link.disconnected

module _ {B S : Type 0} where
  pub record IsSound (l : Link B S) : Type 0 where
    pub agrees : Link.state l ≡ state_of l.phase
    pub at_least : Link.initial_backoff ≤ l.backoff
    pub at_most : l.backoff ≤ Link.max_backoff
    pub room : length l.batches ≤ Link.batch_queue
    pub closed_last : (l.closed && Link.is_open l.phase) ≡ false

  work-IsSound :
      (l : Link B S) (p : Phase B) (e : Event B S) {l' : Link B S}
      → l.phase ≡ p
      → IsSound l
      → Link.work l p e ≡ some l'
      → IsSound l'
  unfolding Link.work Link.state Link.is_open
  work-IsSound l Phase.connect e at v h = ground arith
  work-IsSound l Phase.starting e at v h = ground arith
  work-IsSound l Phase.streaming e at v h = ground arith
  work-IsSound l (Phase.forward_starting b) e at v h = ground arith
  work-IsSound l (Phase.forward_streaming b) e at v h = ground arith
  work-IsSound l Phase.wait e at v h = ground arith
  work-IsSound l Phase.stopped e at v h = ground arith

  offer-IsSound :
      (l : Link B S) (seen : LinkState) (batch : B)
      → IsSound l
      → IsSound (Link.offer_batch l seen batch).0
  unfolding Link.offer_batch Link.state
  offer-IsSound l seen batch v = ground (arith, length-append l.batches (batch ∷ []))

  -- Every event, in every state where it is possible, keeps the link sound.
  pub step-IsSound :
      (l : Link B S) (e : Event B S) {l' : Link B S}
      → IsSound l
      → Link.step l e ≡ some l'
      → IsSound l'
  unfolding Link.step Link.drain Link.state Link.is_open
  step-IsSound l (Event.offer seen batch) v h = ground (arith, offer-IsSound l seen batch v)
  step-IsSound l Event.drain_scores v h = ground arith
  step-IsSound l Event.drop_link v h = ground arith
  step-IsSound l Event.close v h = ground arith
  step-IsSound l Event.recv v h = work-IsSound l l.phase Event.recv refl v h
  step-IsSound l Event.recv_closed v h = work-IsSound l l.phase Event.recv_closed refl v h
  step-IsSound l Event.shutdown_changed v h = work-IsSound l l.phase Event.shutdown_changed refl v h
  step-IsSound l Event.slept v h = work-IsSound l l.phase Event.slept refl v h
  step-IsSound l (Event.connect_done b) v h = work-IsSound l l.phase (Event.connect_done b) refl v h
  step-IsSound l (Event.call_started b) v h = work-IsSound l l.phase (Event.call_started b) refl v h
  step-IsSound l (Event.forwarded b) v h = work-IsSound l l.phase (Event.forwarded b) refl v h
  step-IsSound l (Event.message m) v h = work-IsSound l l.phase (Event.message m) refl v h

  start-IsSound : IsSound (Link.start {B = B} {S = S})
  unfolding Link.start Link.state
  start-IsSound = ground arith

  run_keeps :
      (l : Link B S) (events : List (Event B S)) {l' : Link B S}
      → IsSound l
      → Link.run l events ≡ some l'
      → IsSound l'
  unfolding Link.run
  run_keeps l [] v h = ground arith
  run_keeps l (e ∷ events) {l'} v h = elim (Option-cases (Link.step l e)) [
    | inl stuck ↦ absurd (ground arith)
    | inr (l₁, stepped) ↦
        run_keeps l₁ events {l' = l'} (step-IsSound l e v stepped) (rw (stepped, Link.run) at h)
  ]

  -- In every state that a started link can reach, the state that it shows is the one of its phase, the
  -- delay is between half a second and 30 seconds, at most 8 batches are queued, and the queue is
  -- closed only after the worker's end.
  pub run-IsSound :
      (events : List (Event B S)) {l : Link B S} → Link.run Link.start events ≡ some l → IsSound l
  run-IsSound events {l} h = run_keeps Link.start events {l' = l} start-IsSound h

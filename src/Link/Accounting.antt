-- ===== src/Link/Accounting.antt =====
-- core-rs/core-grpc/src/link.rs: what becomes of the batches that are offered.
use netmon_polyglot.Prelude.Words.{u64_mod, add64}
use netmon_polyglot.Prelude.{
  Option-cases, length-append, arith, refl, inr, inl, ◌<◌, length, ◌≡◌, ◌+◌, List, ℕ, ◌∷◌, false,
  some, [],
}
use netmon_polyglot.Link
use netmon_polyglot.Link.{length, List, add64, ℕ, Event, Link, Phase, LinkState}

-- A batch that the worker has taken and not yet forwarded.
abbrev pub in_flight : {B : Type 0} → Phase B → ℕ
in_flight (Phase.forward_starting b) = 1
in_flight (Phase.forward_streaming b) = 1
in_flight p = 0

module _ {B S : Type 0} where
  abbrev pub is_offer : Event B S → ℕ
  is_offer (Event.offer seen b) = 1
  is_offer e = 0

  -- The call ended while the batch waited to be forwarded.
  abbrev pub is_loss : Event B S → ℕ
  is_loss (Event.forwarded false) = 1
  is_loss e = 0

  abbrev pub offers : List (Event B S) → ℕ
  offers [] = 0
  offers (e ∷ events) = is_offer e + offers events

  abbrev pub losses : List (Event B S) → ℕ
  losses [] = 0
  losses (e ∷ events) = is_loss e + losses events

  abbrev pub accounted : Link B S → ℕ
  accounted l = l.counters.sent + l.counters.dropped + length l.batches + in_flight l.phase

  accounted-work :
      (l : Link B S) (p : Phase B) (e : Event B S) {l' : Link B S}
      → l.phase ≡ p
      → accounted l + 1 < u64_mod
      → Link.work l p e ≡ some l'
      → accounted l' + is_loss e ≡ accounted l + is_offer e
  unfolding Link.work add64
  accounted-work l Phase.connect e at room h = ground arith
  accounted-work l Phase.starting e at room h = ground arith
  accounted-work l Phase.streaming e at room h = ground arith
  accounted-work l (Phase.forward_starting b) e at room h = ground arith
  accounted-work l (Phase.forward_streaming b) e at room h = ground arith
  accounted-work l Phase.wait e at room h = ground arith
  accounted-work l Phase.stopped e at room h = ground arith

  accounted-offer :
      (l : Link B S) (seen : LinkState) (batch : B)
      → accounted l + 1 < u64_mod
      → accounted (Link.offer_batch l seen batch).0 ≡ accounted l + 1
  unfolding Link.offer_batch add64
  accounted-offer l seen batch room = ground (arith, length-append l.batches (batch ∷ []))

  accounted-step :
      (l : Link B S) (e : Event B S) {l' : Link B S}
      → accounted l + 1 < u64_mod
      → Link.step l e ≡ some l'
      → accounted l' + is_loss e ≡ accounted l + is_offer e
  unfolding Link.step Link.drain
  accounted-step l (Event.offer seen batch) room h =
      ground (arith, accounted-offer l seen batch room)
  accounted-step l Event.drain_scores room h = ground arith
  accounted-step l Event.drop_link room h = ground arith
  accounted-step l Event.close room h = ground arith
  accounted-step l Event.recv room h = accounted-work l l.phase Event.recv refl room h
  accounted-step l Event.recv_closed room h = accounted-work l l.phase Event.recv_closed refl room h
  accounted-step l Event.shutdown_changed room h =
      accounted-work l l.phase Event.shutdown_changed refl room h
  accounted-step l Event.slept room h = accounted-work l l.phase Event.slept refl room h
  accounted-step l (Event.connect_done b) room h =
      accounted-work l l.phase (Event.connect_done b) refl room h
  accounted-step l (Event.call_started b) room h =
      accounted-work l l.phase (Event.call_started b) refl room h
  accounted-step l (Event.forwarded b) room h =
      accounted-work l l.phase (Event.forwarded b) refl room h
  accounted-step l (Event.message m) room h = accounted-work l l.phase (Event.message m) refl room h

  accounted-run :
      (l : Link B S) (events : List (Event B S)) {l' : Link B S}
      → accounted l + offers events + 1 < u64_mod
      → Link.run l events ≡ some l'
      → accounted l' + losses events ≡ accounted l + offers events
  unfolding Link.run
  accounted-run l [] room h = ground arith
  accounted-run l (e ∷ events) {l'} room h = elim (Option-cases (Link.step l e)) [
    | inl stuck ↦ absurd (ground arith)
    | inr (l₁, stepped) ↦
        let one = accounted-step l e {l' = l₁} (omega arith) stepped in
        let rest =
          accounted-run l₁ events {l' = l'} (omega (arith, one)) (rw (stepped, Link.run) at h) in
        omega (arith, one, rest)
  ]

  -- Fewer than 2 ^ 64 - 1 offers: each batch is counted as sent or as dropped, is queued, waits to be
  -- forwarded, or was lost when its call ended while it waited; the last are in no counter.
  pub run_accounted :
      (events : List (Event B S)) {l : Link B S}
      → offers events + 1 < u64_mod
      → Link.run Link.start events ≡ some l
      → l.counters.sent + l.counters.dropped + length l.batches + in_flight l.phase + losses events
        ≡ offers events
  run_accounted events {l} room h =
      let fresh : accounted (Link.start {B = B} {S = S}) ≡ 0 = unfold Link.start in refl in
      omega (arith, accounted-run Link.start events {l' = l} (omega (arith, fresh)) h, fresh)

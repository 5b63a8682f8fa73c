-- ===== src/Link/Backoff.antt =====
-- core-rs/core-grpc/src/link.rs: the delay between attempts to connect.
use native.Mathlib.Nat.{
  min-eq_left, min-eq_right, le-mul_of_pos_right, mul-le-mul_right, mul_assoc, pow-succ',
}
use netmon_polyglot.Link
use native.Mathlib.Decide.{dec_le}
use netmon_polyglot.Prelude.{
  Option-cases, inl, inr, ◌++◌, sym, ap, ◌∙◌, arith, ◌^◌, ◌*◌, min, ◌≤◌, ◌≡◌, refl, some, List, ℕ,
  ◌∷◌, false, suc, zero, [],
}
use netmon_polyglot.Link.{min, Phase, Link, List, ℕ, Event}

positive_pow : (n : ℕ) → 1 ≤ 2 ^ n
positive_pow zero = omega arith
positive_pow (suc n) = omega (arith, positive_pow n)

capped : (q p m : ℕ) → 1 ≤ p → min (min q m * p) m ≡ min (q * p) m
capped q p m h = elim (dec_le q m) [
  | yes small ↦ rw (min-eq_left small)
  | no large ↦
      let bigger : m ≤ q = omega arith in
      let grown : m ≤ m * p = le-mul_of_pos_right m h in
      let above : m * p ≤ q * p = mul-le-mul_right p bigger in
      rw (min-eq_right bigger) (omega (arith, grown, above))
]

capped_twice :
    (b n : ℕ)
    → min (min (b * 2) Link.max_backoff * 2 ^ n) Link.max_backoff
      ≡ min (b * 2 ^ suc n) Link.max_backoff
capped_twice b n =
    capped (b * 2) (2 ^ n) Link.max_backoff (positive_pow n)
    ∙ ap (λ (t : ℕ). min t Link.max_backoff)
        (mul_assoc b 2 (2 ^ n) ∙ ap (λ (t : ℕ). b * t) (sym (pow-succ' 2 n)))

module _ {B S : Type 0} where
  -- Attempts that fail, each followed by its delay.
  abbrev pub failures : ℕ → List (Event B S)
  failures zero = []
  failures (suc n) = Event.connect_done false ∷ Event.slept ∷ failures n

  next_attempt :
      (l : Link B S)
      → l.phase ≡ Phase.connect
      → (events : List (Event B S))
      → Link.run l (Event.connect_done false ∷ Event.slept ∷ events)
        ≡ Link.run (Link.retry (Link.lose l)) events
  unfolding Link.run Link.step Link.work
  next_attempt l at events = ground arith

  phase-retry : (l : Link B S) → (Link.retry (Link.lose l)).phase ≡ Phase.connect
  unfolding Link.retry
  phase-retry l = refl

  backoff-retry :
      (l : Link B S) → (Link.retry (Link.lose l)).backoff ≡ min (l.backoff * 2) Link.max_backoff
  unfolding Link.retry Link.lose
  backoff-retry l = refl

  failures_from :
      (n : ℕ) (l : Link B S)
      → l.phase ≡ Phase.connect
      → l.backoff ≤ Link.max_backoff
      → (l' : Link B S) × (Link.run l (failures n) ≡ some l')
        × (l'.phase ≡ Phase.connect)
        × (l'.backoff ≡ min (l.backoff * 2 ^ n) Link.max_backoff)
  failures_from zero l at high = (l, unfold Link.run in refl, at, omega arith)
  failures_from (suc n) l at high =
      let next = Link.retry (Link.lose l) in
      let (l', ran, there, delay) =
        failures_from n next (phase-retry l) (omega (arith, backoff-retry l)) in
      (
        l',
        next_attempt l at (failures n) ∙ ran,
        there,
        delay
            ∙ ap (λ (b : ℕ). min (b * 2 ^ n) Link.max_backoff) (backoff-retry l)
            ∙ capped_twice l.backoff n,
      )

  run-append :
      (l : Link B S) (events more : List (Event B S)) {l' : Link B S}
      → Link.run l events ≡ some l'
      → Link.run l (events ++ more) ≡ Link.run l' more
  unfolding Link.run
  run-append l [] more {l'} ran = ground (arith, ran)
  run-append l (e ∷ events) more {l'} ran = elim (Option-cases (Link.step l e)) [
    | inl refused ↦ absurd (ground arith)
    | inr (next, stepped) ↦
        rw (stepped, Link.run)
          (run-append next events more {l' = l'} (rw (stepped, Link.run) at ran))
  ]

  last_failure :
      (l : Link B S)
      → l.phase ≡ Phase.connect
      → Link.run l (Event.connect_done false ∷ []) ≡ some (Link.lose l)
  unfolding Link.run Link.step Link.work
  last_failure l at = ground arith

  lost : (l : Link B S) → ((Link.lose l).phase ≡ Phase.wait) × ((Link.lose l).backoff ≡ l.backoff)
  unfolding Link.lose
  lost l = (refl, refl)

  -- From the start, when `n` attempts to connect have failed, each followed by its delay, and the next
  -- one fails too, the worker waits, and the delay is half a second times 2 ^ n, but never more than 30
  -- seconds: half a second behind the first failure.
  pub run-failures :
      (n : ℕ)
      → (l : Link B S) × (Link.run Link.start (failures n ++ Event.connect_done false ∷ [])
          ≡ some l)
        × (l.phase ≡ Phase.wait)
        × (l.backoff ≡ min (500 * 2 ^ n) 30_000)
  unfolding Link.start
  run-failures n =
      let (l, ran, at, delay) = failures_from n Link.start refl (omega arith) in
      (
        Link.lose l,
        run-append Link.start (failures n) (Event.connect_done false ∷ []) {l' = l} ran
            ∙ last_failure l at,
        (lost l).0,
        (lost l).1 ∙ delay,
      )

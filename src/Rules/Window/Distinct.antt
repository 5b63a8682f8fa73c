-- ===== src/Rules/Window/Distinct.antt =====
-- core-rs/core/src/rules/window.rs: `add` of `DistinctWindow` returns the number of different keys
-- among the events of the window.
use netmon_polyglot.Prelude.{
  length-append, ap, ◌∙◌, ◌-◌, ◌++◌, drop, false, true, ◌≤◌, Option-cases, some, ◌+◌, Bool-cases,
  ◌==◌, arith, ltb, length, ◌≡◌, if◌then◌else◌, ◌<◌, ℕ, List, ◌∷◌, refl, inr, inl, [],
}
use netmon_polyglot.Rules.Window.{DistinctWindow, increment, decrement, evict_events}
use netmon_polyglot.Rules.Window
use netmon_polyglot.Rules.Window.Counting.{
  increment-Distinct, lookup-increment, occurrences-append, decrement-Distinct, lookup-decrement,
  occurrences-le, occurrences, entry,
}
use netmon_polyglot.Lru.Entries.{
  length-remove, lookup-remove_ne, remove-Distinct, lookup-remove_self, lookup, remove, Distinct,
}
use netmon_polyglot.Flow.{is_some}

module _ {K : Type 0} (dec : Discrete K) where
  -- The number of different keys: an event counts if its key does not come again.
  unfoldable pub different : List (ℕ × K) → ℕ
  different [] = 0
  different (e ∷ events) = (if occurrences dec e.1 events == 0 then 1 else 0) + different events

  Supports : List (K × ℕ) → List (ℕ × K) → Type 0
  Supports m l = (k : K) → is_some (lookup dec k m) ≡ ltb 0 (occurrences dec k l)

  support_nil : (m : List (K × ℕ)) → Supports m [] → length m ≡ 0
  unfolding Supports is_some
  support_nil [] h = refl
  support_nil (e ∷ m) h = absurd (ground (arith, h e.0))

  support_remove :
      (m : List (K × ℕ)) (e : ℕ × K) (l : List (ℕ × K))
      → Distinct dec m
      → Supports m (e ∷ l)
      → occurrences dec e.1 l ≡ 0
      → Supports (remove dec e.1 m) l
  unfolding Supports is_some
  support_remove m e l d h once k = elim (dec e.1 k) [
    | yes p ↦ rw (← p) (ground (arith, lookup-remove_self dec e.1 m d))
    | no p ↦ ground (arith, h k, lookup-remove_ne dec e.1 k m)
  ]

  support_again :
      (m : List (K × ℕ)) (e : ℕ × K) (l : List (ℕ × K))
      → Supports m (e ∷ l)
      → 0 < occurrences dec e.1 l
      → Supports m l
  unfolding Supports is_some
  support_again m e l h again k = elim (dec e.1 k) [
    | yes p ↦ rw (← p) (ground (arith, h e.1))
    | no p ↦ ground (arith, h k)
  ]

  present :
      (m : List (K × ℕ)) (e : ℕ × K) (l : List (ℕ × K))
      → Supports m (e ∷ l)
      → (v : ℕ) × (lookup dec e.1 m ≡ some v)
  unfolding Supports is_some
  present m e l h = elim (Option-cases (lookup dec e.1 m)) [
    | inl missing ↦ absurd (ground (arith, h e.1))
    | inr found ↦ found
  ]

  length-different :
      (l : List (ℕ × K)) (m : List (K × ℕ)) → Distinct dec m → Supports m l → length m ≡ different l
  unfolding different
  length-different [] m d h = support_nil m h
  length-different (e ∷ l) m d h = elim (Bool-cases (occurrences dec e.1 l == 0)) [
    | inl once ↦
        let rest =
          length-different l (remove dec e.1 m) (remove-Distinct dec e.1 m d)
            (support_remove m e l d h (ground arith)) in
        let (v, found) = present m e l h in ground (arith, length-remove dec e.1 m v found, rest)
    | inr again ↦
        let rest = length-different l m d (support_again m e l h (ground arith)) in
        ground (arith, rest)
  ]

  -- The counts are those of the keys of the events, and there are not too many events.
  pub record IsCounted (events : List (ℕ × K)) (counts : List (K × ℕ)) : Type 0 where
    pub agrees : (k : K) → lookup dec k counts ≡ entry dec (occurrences dec k events)
    pub one_entry : Distinct dec counts
    pub short : length events ≤ Window.max_events_per_source

  -- The number of counts is the number of different keys.
  length-counts :
      (events : List (ℕ × K)) (counts : List (K × ℕ))
      → IsCounted events counts
      → length counts ≡ different events
  unfolding Supports
  length-counts events counts c = length-different events counts c.one_entry λ k. supported k
    where
      supported : (k : K) → is_some (lookup dec k counts) ≡ ltb 0 (occurrences dec k events)
      supported k = unfold is_some in ground (arith, c.agrees k)

  decrement-IsCounted :
      (e : ℕ × K) (rest : List (ℕ × K)) (counts : List (K × ℕ))
      → IsCounted (e ∷ rest) counts
      → IsCounted rest (decrement dec e.1 counts)
  decrement-IsCounted e rest counts c = record {
    agrees = λ k. ground (
      arith,
      c.agrees k,
      c.agrees e.1,
      c.short,
      occurrences-le dec e.1 rest,
      lookup-decrement dec e.1 k counts (occurrences dec e.1 rest) c.one_entry,
    );
    one_entry = decrement-Distinct dec e.1 counts c.one_entry;
    short = ground (arith, c.short);
  }

  -- Events newer than the cutoff are the ones that stay, up to the first.
  abbrev pub recent : ℕ → List (ℕ × K) → List (ℕ × K)
  recent cutoff [] = []
  recent cutoff (e ∷ rest) = elim (ltb e.0 cutoff) [ true ↦ recent cutoff rest | false ↦ e ∷ rest ]

  evict_old :
      (cutoff : ℕ) (e : ℕ × K) (rest : List (ℕ × K)) (counts : List (K × ℕ))
      → ltb e.0 cutoff ≡ true
      → evict_events dec cutoff (e ∷ rest) counts
        ≡ evict_events dec cutoff rest (decrement dec e.1 counts)
  unfolding evict_events
  evict_old cutoff e rest counts old = rw (old, evict_events) refl

  recent_old :
      (cutoff : ℕ) (e : ℕ × K) (rest : List (ℕ × K))
      → ltb e.0 cutoff ≡ true
      → recent cutoff (e ∷ rest) ≡ recent cutoff rest
  recent_old cutoff e rest old = rw (old, recent) refl

  evict_events-IsCounted :
      (cutoff : ℕ) (events : List (ℕ × K)) (counts : List (K × ℕ))
      → IsCounted events counts
      → ((evict_events dec cutoff events counts).events ≡ recent cutoff events)
        × IsCounted
            (evict_events dec cutoff events counts).events
            (evict_events dec cutoff events counts).counts
  unfolding evict_events
  evict_events-IsCounted cutoff [] counts c = (refl, c)
  evict_events-IsCounted cutoff (e ∷ rest) counts c = elim (Bool-cases (ltb e.0 cutoff)) [
    | inl old ↦
        rw (evict_old cutoff e rest counts old, recent_old cutoff e rest old)
          (evict_events-IsCounted cutoff rest (decrement dec e.1 counts)
            (decrement-IsCounted e rest counts c))
    | inr new ↦ rw (new, evict_events, recent) (refl, c)
  ]

  -- The events without the oldest, if there are as many as a window may hold.
  abbrev pub capped : List (ℕ × K) → List (ℕ × K)
  capped events = if length events == Window.max_events_per_source then drop 1 events else events

  make_room-IsCounted :
      (events : List (ℕ × K)) (counts : List (K × ℕ))
      → IsCounted events counts
      → let w = Window.make_room dec (record { events = events; counts = counts }) in
        (w.events ≡ capped events)
        × IsCounted w.events w.counts
        × (length w.events < Window.max_events_per_source)
  unfolding Window.make_room
  make_room-IsCounted [] counts c = (refl, c, omega arith)
  make_room-IsCounted (e ∷ rest) counts c =
      elim (Bool-cases (length (e ∷ rest) == Window.max_events_per_source)) [
        | inl full ↦
            rw (full, Window.make_room)
              (refl, decrement-IsCounted e rest counts c, ground (arith, c.short))
        | inr room ↦ rw (room, Window.make_room) (refl, c, ground (arith, c.short))
      ]

  -- The events in the window after a packet at `ts` with the key.
  abbrev pub slid : ℕ → ℕ → K → List (ℕ × K) → List (ℕ × K)
  slid window ts key events = capped (recent (ts - window) events) ++ (ts, key) ∷ []

  push-IsCounted :
      (ts : ℕ) (key : K) (events : List (ℕ × K)) (counts : List (K × ℕ))
      → IsCounted events counts
      → length events < Window.max_events_per_source
      → IsCounted (events ++ (ts, key) ∷ []) (increment dec key counts)
  push-IsCounted ts key events counts c room = record {
    agrees = λ k. ground (
      arith,
      c.agrees k,
      c.agrees key,
      occurrences-le dec key events,
      occurrences-append dec k events ((ts, key) ∷ []),
      lookup-increment dec key k counts,
    );
    one_entry = increment-Distinct dec key counts c.one_entry;
    short = omega (arith, length-append events ((ts, key) ∷ []));
  }

  -- On a window whose counts agree with its events, `add` drops the events that are too old, and
  -- the oldest one of a full window, appends the packet's event, keeps the counts in agreement and
  -- returns the number of different keys that are left.
  pub add_lem :
      (w : DistinctWindow K) (ts : ℕ) (key : K) (window : ℕ)
      → IsCounted w.events w.counts
      → ((Window.add dec w ts key window).0.events ≡ slid window ts key w.events)
        × ((Window.add dec w ts key window).1 ≡ different (slid window ts key w.events))
        × IsCounted
            (Window.add dec w ts key window).0.events
            (Window.add dec w ts key window).0.counts
  unfolding Window.add Window.evict_before
  add_lem w ts key window c =
      let evicted = evict_events-IsCounted (ts - window) w.events w.counts c in
      let kept = evict_events dec (ts - window) w.events w.counts in
      let (same, counted, room) = make_room-IsCounted kept.events kept.counts evicted.1 in
      let w' = Window.make_room dec kept in
      let events_eq : w'.events ≡ capped (recent (ts - window) w.events) =
        same ∙ ap capped evicted.0 in
      let pushed = push-IsCounted ts key w'.events w'.counts counted room in
      (
        ap (λ l. l ++ (ts, key) ∷ []) events_eq,
        length-counts _ _ pushed ∙ ap (λ l. different (l ++ (ts, key) ∷ [])) events_eq,
        pushed,
      )

-- ===== src/Rules/Window.antt =====
-- core-rs/core/src/rules/window.rs: the sliding windows. A deque is a list, its front first; a hash
-- map of counts is a list of entries in an order that nothing depends on.
pub mod Counting
pub mod Distinct
pub mod Slide
use netmon_polyglot.Prelude.{
  drop, ℕ, zero, suc, ◌+◌, ◌-◌, Bool, true, false, Option, none, some, List, [], ◌∷◌, ◌++◌, ltb,
  ◌==◌, if◌then◌else◌, length,
}
use netmon_polyglot.Prelude.Words.{add32, sub32}

abbrev pub max_events_per_source : ℕ
max_events_per_source = 65_536

pub record DistinctWindow (K : Type 0) : Type 0 where
  pub events : List (ℕ × K)
  pub counts : List (K × ℕ)

abbrev pub new : {K : Type 0} → DistinctWindow K
new = record { events = []; counts = [] }

module _ {K : Type 0} (dec : Discrete K) where
  -- `*self.counts.entry(key).or_insert(0) += 1`
  unfoldable pub increment : K → List (K × ℕ) → List (K × ℕ)
  increment key [] = (key, add32 0 1) ∷ []
  increment key (e ∷ counts) = elim (dec e.0 key) [
    | yes p ↦ (e.0, add32 e.1 1) ∷ counts
    | no p ↦ e ∷ increment key counts
  ]

  -- `if let Some(n) = self.counts.get_mut(&key)` and its block
  unfoldable pub decrement : K → List (K × ℕ) → List (K × ℕ)
  decrement key [] = []
  decrement key (e ∷ counts) = elim (dec e.0 key) [
    | yes p ↦ if sub32 e.1 1 == 0 then counts else (e.0, sub32 e.1 1) ∷ counts
    | no p ↦ e ∷ decrement key counts
  ]

  unfoldable pub pop_oldest : DistinctWindow K → DistinctWindow K
  pop_oldest w = elim w.events [
    | [] ↦ w
    | (ts, key) ∷ rest ↦ record { events = rest; counts = decrement key w.counts }
  ]

  -- The loop of `evict_before`, over the events.
  unfoldable pub evict_events : ℕ → List (ℕ × K) → List (K × ℕ) → DistinctWindow K
  unfolding pop_oldest
  evict_events cutoff [] counts = record { events = []; counts = counts }
  evict_events cutoff (e ∷ rest) counts = elim (ltb e.0 cutoff) [
    | true ↦
        evict_events cutoff rest (pop_oldest (record { events = e ∷ rest; counts = counts })).counts
    | false ↦ record { events = e ∷ rest; counts = counts }
  ]

  unfoldable pub evict_before : DistinctWindow K → ℕ → DistinctWindow K
  unfolding evict_events
  evict_before w cutoff = evict_events cutoff w.events w.counts

  -- The window without its oldest event, if it is full.
  unfoldable pub make_room : DistinctWindow K → DistinctWindow K
  unfolding pop_oldest
  make_room w = if length w.events == max_events_per_source then pop_oldest w else w

  unfoldable pub add : DistinctWindow K → ℕ → K → ℕ → DistinctWindow K × ℕ
  unfolding evict_before make_room increment
  add w ts_us key window_us =
      let evicted = make_room (evict_before w (ts_us - window_us)) in
      let counts = increment key evicted.counts in
      (record { events = evicted.events ++ (ts_us, key) ∷ []; counts = counts }, length counts)

pub record CountWindow : Type 0 where
  pub events : List ℕ

-- The loop over the events that are too old.
unfoldable pub drop_before : ℕ → List ℕ → List ℕ
drop_before cutoff [] = []
drop_before cutoff (ts ∷ events) = elim (ltb ts cutoff) [
  | true ↦ drop_before cutoff events
  | false ↦ ts ∷ events
]

-- `pop_front` of a full window
unfoldable pub drop_if_full : List ℕ → List ℕ
drop_if_full events = if length events == max_events_per_source then drop 1 events else events

unfoldable pub add_tick : CountWindow → ℕ → ℕ → CountWindow × ℕ
unfolding drop_before drop_if_full
add_tick w ts_us window_us =
    let events = drop_if_full (drop_before (ts_us - window_us) w.events) ++ ts_us ∷ [] in
    (record { events = events }, length events)

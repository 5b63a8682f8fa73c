-- ===== src/Rules/Window/Slide.antt =====
-- core-rs/core/src/rules/window.rs: which packets a counting window holds, and in which order.
use netmon_polyglot.Prelude.{
  zero, suc, sym, ap, drop, ◌==◌, ltb→le, length-append, ◌<◌, Bool-cases, ltb, ◌++◌, ◌≤◌, length,
  ◌≡◌, if◌then◌else◌, arith, ◌-◌, List, ℕ, ◌∷◌, refl, inr, inl, [],
}
use netmon_polyglot.Rules.Window
use netmon_polyglot.Rules.Window.{drop_before, drop_if_full, add_tick}

-- The times from the cutoff on.
unfoldable pub since : ℕ → List ℕ → List ℕ
since cutoff [] = []
since cutoff (t ∷ l) = if ltb t cutoff then since cutoff l else t ∷ since cutoff l

-- No time is before the given one.
abbrev pub From : ℕ → List ℕ → Type 0
From bound [] = Unit
From bound (t ∷ l) = (bound ≤ t) × From bound l

-- The times do not go back.
abbrev pub IsSorted : List ℕ → Type 0
IsSorted [] = Unit
IsSorted (t ∷ l) = From t l × IsSorted l

-- No time is after the given one.
abbrev pub UpTo : ℕ → List ℕ → Type 0
UpTo now [] = Unit
UpTo now (t ∷ l) = (t ≤ now) × UpTo now l

since_all : (cutoff : ℕ) (l : List ℕ) → From cutoff l → since cutoff l ≡ l
unfolding since
since_all cutoff [] h = refl
since_all cutoff (t ∷ l) h = ground (arith, since_all cutoff l h.1)

From-mono : (a b : ℕ) (l : List ℕ) → a ≤ b → From b l → From a l
From-mono a b [] le h = tt
From-mono a b (t ∷ l) le h = (omega arith, From-mono a b l le h.1)

drop_before-since : (cutoff : ℕ) (l : List ℕ) → IsSorted l → drop_before cutoff l ≡ since cutoff l
unfolding drop_before since
drop_before-since cutoff [] h = refl
drop_before-since cutoff (t ∷ l) h = elim (Bool-cases (ltb t cutoff)) [
  | inl old ↦ ground (arith, drop_before-since cutoff l h.1)
  | inr new ↦ ground (arith, since_all cutoff l (From-mono cutoff t l (ltb→le _ _ new) h.0))
]

since-UpTo : (cutoff now : ℕ) (l : List ℕ) → UpTo now l → UpTo now (since cutoff l)
unfolding since
since-UpTo cutoff now [] h = tt
since-UpTo cutoff now (t ∷ l) h = ground (arith, since-UpTo cutoff now l h.1)

since-From : (cutoff bound : ℕ) (l : List ℕ) → From bound l → From bound (since cutoff l)
unfolding since
since-From cutoff bound [] h = tt
since-From cutoff bound (t ∷ l) h = ground (arith, since-From cutoff bound l h.1)

since-IsSorted : (cutoff : ℕ) (l : List ℕ) → IsSorted l → IsSorted (since cutoff l)
unfolding since
since-IsSorted cutoff [] h = tt
since-IsSorted cutoff (t ∷ l) h =
    ground (arith, since-IsSorted cutoff l h.1, since-From cutoff t l h.0)

length-since : (cutoff : ℕ) (l : List ℕ) → length (since cutoff l) ≤ length l
unfolding since
length-since cutoff [] = omega arith
length-since cutoff (t ∷ l) = ground (arith, length-since cutoff l)

From-append : (bound ts : ℕ) (l : List ℕ) → bound ≤ ts → From bound l → From bound (l ++ ts ∷ [])
From-append bound ts [] le h = (le, tt)
From-append bound ts (t ∷ l) le h = (h.0, From-append bound ts l le h.1)

append-IsSorted : (ts : ℕ) (l : List ℕ) → UpTo ts l → IsSorted l → IsSorted (l ++ ts ∷ [])
append-IsSorted ts [] u s = (tt, tt)
append-IsSorted ts (t ∷ l) u s = (From-append t ts l u.0 s.0, append-IsSorted ts l u.1 s.1)

append-UpTo : (ts : ℕ) (l : List ℕ) → UpTo ts l → UpTo ts (l ++ ts ∷ [])
append-UpTo ts [] u = (omega arith, tt)
append-UpTo ts (t ∷ l) u = (u.0, append-UpTo ts l u.1)

UpTo-mono : (a b : ℕ) (l : List ℕ) → a ≤ b → UpTo a l → UpTo b l
UpTo-mono a b [] le h = tt
UpTo-mono a b (t ∷ l) le h = (omega arith, UpTo-mono a b l le h.1)

-- A counting window in order.
pub record IsSliding (now : ℕ) (w : Window.CountWindow) : Type 0 where
  pub sorted : IsSorted w.events
  pub past : UpTo now w.events
  pub short : length w.events ≤ Window.max_events_per_source

-- The last `n` of a list.
abbrev pub newest : ℕ → List ℕ → List ℕ
newest n l = drop (length l - n) l

-- The times that `add` leaves: of those of the time span and the packet's, the newest 65 536.
abbrev pub slid : ℕ → ℕ → List ℕ → List ℕ
slid window ts l = newest 65_536 (since (ts - window) l ++ ts ∷ [])

drop-append : (n ts : ℕ) (l : List ℕ) → n ≤ length l → drop n (l ++ ts ∷ []) ≡ drop n l ++ ts ∷ []
drop-append zero ts l h = refl
drop-append (suc n) ts [] h = absurd (omega arith)
drop-append (suc n) ts (t ∷ l) h = drop-append n ts l (omega arith)

drop_if_full-newest :
    (ts : ℕ) (l : List ℕ)
    → length l ≤ Window.max_events_per_source
    → drop_if_full l ++ ts ∷ [] ≡ newest 65_536 (l ++ ts ∷ [])
unfolding drop_if_full
drop_if_full-newest ts l h = elim (Bool-cases (length l == Window.max_events_per_source)) [
  | inl full ↦
      let over : length (l ++ ts ∷ []) - 65_536 ≡ 1 = ground (arith, length-append l (ts ∷ [])) in
      rw (full, over) (sym (drop-append 1 ts l (ground arith)))
  | inr room ↦
      let fits : length (l ++ ts ∷ []) - 65_536 ≡ 0 = ground (arith, length-append l (ts ∷ [])) in
      rw (room, fits) refl
]

drop_if_full-UpTo : (now : ℕ) (l : List ℕ) → UpTo now l → UpTo now (drop_if_full l)
unfolding drop_if_full
drop_if_full-UpTo now [] h = tt
drop_if_full-UpTo now (t ∷ l) h = ground arith

drop_if_full-IsSorted : (l : List ℕ) → IsSorted l → IsSorted (drop_if_full l)
unfolding drop_if_full
drop_if_full-IsSorted [] h = tt
drop_if_full-IsSorted (t ∷ l) h = ground arith

length-drop_if_full :
    (l : List ℕ)
    → length l ≤ Window.max_events_per_source
    → length (drop_if_full l) < Window.max_events_per_source
unfolding drop_if_full
length-drop_if_full [] h = omega arith
length-drop_if_full (t ∷ l) h = ground arith

-- In a window in order, and while time does not go back, `add` keeps exactly the packets of its time
-- span, the new one included, or the newest 65 536 of them if there are more, and returns how many it
-- keeps; and the window stays in order.
pub add_tick_lem :
    (w : Window.CountWindow) (ts window : ℕ) {now : ℕ}
    → IsSliding now w
    → now ≤ ts
    → ((add_tick w ts window).0.events ≡ slid window ts w.events)
      × ((add_tick w ts window).1 ≡ length (slid window ts w.events))
      × IsSliding ts (add_tick w ts window).0
unfolding add_tick
add_tick_lem w ts window {now} v le =
    let l = since (ts - window) w.events in
    let kept = drop_before-since (ts - window) w.events v.sorted in
    let past = since-UpTo (ts - window) ts w.events (UpTo-mono now ts w.events le v.past) in
    let sorted = since-IsSorted (ts - window) w.events v.sorted in
    let room =
      length-drop_if_full l (omega (arith, length-since (ts - window) w.events, v.short)) in
    let last =
      drop_if_full-newest ts l (omega (arith, length-since (ts - window) w.events, v.short)) in
    rw kept (
      last,
      ap length last,
      record {
        sorted =
            append-IsSorted ts (drop_if_full l) (drop_if_full-UpTo ts l past)
              (drop_if_full-IsSorted l sorted);
        past = append-UpTo ts (drop_if_full l) (drop_if_full-UpTo ts l past);
        short = omega (arith, length-append (drop_if_full l) (ts ∷ []));
      },
    )

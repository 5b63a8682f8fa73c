-- ===== src/Rules/Compiled/Firing.antt =====
-- core-rs/core/src/rules/engine.rs: when a rule raises an alert, and its cooldown.
use mathlib.Core.Path.{subst}
use netmon_polyglot.Prelude.Words.{saturating_add64}
use netmon_polyglot.Rules.Spec.{RuleKind}
use netmon_polyglot.Prelude.{
  sym, length, ltb→le, ltb, Bool-cases, ◌∙◌, arith, Option-cases, ap, ◌≤◌, refl, inr, inl, false,
  Option, ◌≡◌, ℕ, some, none,
}
use netmon_polyglot.Rules.Compiled
use netmon_polyglot.Rules.Window
use netmon_polyglot.Alert.{of_rule}
use netmon_polyglot.Rules.Compiled.{
  Tracker, what, saturating_add64, RuleKind, SourceState, Event, CompiledRule, is_cooling,
  record_event, fresh,
}
use netmon_polyglot.Alert.{Alert}
use netmon_polyglot.Float.{Float}
use netmon_polyglot.Lru.{LruCache}
use netmon_polyglot.Lru.Entries.{lookup}
use netmon_polyglot.Lru.Inserting.{IsWithin, or_else, get_or_insert_lem, get_mut_lem}
use netmon_polyglot.Net.{IpAddr, IpAddr-discrete}
use netmon_polyglot.Packet.{Packet}
use netmon_polyglot.Packet.Header.{IpHeader}

-- When the source's state says that the rule last fired.
abbrev pub fired_at : Option SourceState → Option ℕ
fired_at none = none
fired_at (some s) = s.last_fired_us

-- How much a tracker has in its window: the different ports or hosts, or the packets.
abbrev pub measure : Tracker → ℕ
measure (Tracker.ports w) = length w.counts
measure (Tracker.hosts w) = length w.counts
measure (Tracker.count w) = length w.events

-- How much the source's state has.
abbrev pub measure_at : Option SourceState → Option ℕ
measure_at none = none
measure_at (some s) = some (measure s.tracker)

measure-record_event :
    (t : Tracker) (e : Event) (ts window : ℕ) {t' : Tracker} {n : ℕ}
    → record_event t e ts window ≡ some (t', n)
    → measure t' ≡ n
unfolding record_event Window.add Window.add_tick
measure-record_event (Tracker.ports w) (Event.port p) ts window eq = ground arith
measure-record_event (Tracker.ports w) (Event.host h) ts window eq = absurd cc
measure-record_event (Tracker.ports w) Event.tick ts window eq = absurd cc
measure-record_event (Tracker.hosts w) (Event.port p) ts window eq = absurd cc
measure-record_event (Tracker.hosts w) (Event.host h) ts window eq = ground arith
measure-record_event (Tracker.hosts w) Event.tick ts window eq = absurd cc
measure-record_event (Tracker.count w) (Event.port p) ts window eq = absurd cc
measure-record_event (Tracker.count w) (Event.host h) ts window eq = absurd cc
measure-record_event (Tracker.count w) Event.tick ts window eq = ground arith

-- The cooldown behind the last alert, if there was one, is over.
abbrev pub IsRested : Option ℕ → ℕ → ℕ → Type 0
IsRested none cooldown ts = Unit
IsRested (some last) cooldown ts = saturating_add64 last cooldown ≤ ts

is_cooling-IsRested :
    (o : Option ℕ) (cooldown ts : ℕ) → is_cooling o cooldown ts ≡ false → IsRested o cooldown ts
unfolding is_cooling
is_cooling-IsRested none cooldown ts h = tt
is_cooling-IsRested (some last) cooldown ts h = ltb→le ts (saturating_add64 last cooldown) h

module _ (f : Float) (lru : LruCache SourceState IpAddr-discrete) where
  open f use {F64}
  open lru use {Cache, iter, get_mut}

  pub last_fired : CompiledRule f lru → IpAddr → Option ℕ
  last_fired rule src = fired_at (lookup IpAddr-discrete src (iter rule.sources))

  -- How much of what the rule looks for is in the window of the source.
  pub measured : CompiledRule f lru → IpAddr → Option ℕ
  measured rule src = measure_at (lookup IpAddr-discrete src (iter rule.sources))

  -- What `track` leaves alone, and what it counts.
  record Tracked (rule : CompiledRule f lru) (src : IpAddr) (rule' : CompiledRule f lru)
      (count : Option ℕ) : Type 0 where
    pub counted : (n : ℕ) → count ≡ some n → measured rule' src ≡ some n
    pub within : IsWithin IpAddr-discrete lru rule'.sources
    pub fired : last_fired rule' src ≡ last_fired rule src
    pub same_cooldown : rule'.cooldown_us ≡ rule.cooldown_us
    pub same_spec : rule'.spec ≡ rule.spec

  fired-or_else :
      (o : Option SourceState) (kind : RuleKind)
      → (or_else o (fresh kind)).last_fired_us ≡ fired_at o
  unfolding fresh
  fired-or_else none kind = refl
  fired-or_else (some s) kind = refl

  -- Writing a state with the same time of firing.
  write-Tracked :
      (rule : CompiledRule f lru) (src : IpAddr) (w : SourceState) (count : Option ℕ)
      → IsWithin IpAddr-discrete lru rule.sources
      → w.last_fired_us
        ≡ (lru.get_or_insert_mut rule.sources src (fresh rule.spec.kind)).0.last_fired_us
      → ((n : ℕ) → count ≡ some n → measure w.tracker ≡ n)
      → Tracked rule src
          (record rule {
            sources = (lru.get_or_insert_mut rule.sources src (fresh rule.spec.kind)).1 w;
          })
          count
  unfolding last_fired measured
  write-Tracked rule src w count v same sized =
      let (value, found, within) =
        get_or_insert_lem IpAddr-discrete lru rule.sources src (fresh rule.spec.kind) w v in
      record {
        counted = λ n eq. ap measure_at found ∙ ap (λ (m : ℕ). some m) (sized n eq);
        within = within;
        fired =
            ap fired_at found
            ∙ same
            ∙ ap (λ (s : SourceState). s.last_fired_us) value
            ∙ fired-or_else (lookup IpAddr-discrete src (iter rule.sources)) rule.spec.kind;
        same_cooldown = refl;
        same_spec = refl;
      }

  track-Tracked :
      (rule : CompiledRule f lru) (ts : ℕ) (src : IpAddr) (event : Event)
      → IsWithin IpAddr-discrete lru rule.sources
      → Tracked rule src
          (Compiled.track f lru rule ts src event).0
          (Compiled.track f lru rule ts src event).1
  unfolding Compiled.track
  track-Tracked rule ts src event v =
      let state = (lru.get_or_insert_mut rule.sources src (fresh rule.spec.kind)).0 in
      elim (Option-cases (record_event state.tracker event ts rule.window_us)) [
        | inl mismatch ↦
            rw (mismatch, Compiled.track)
              (write-Tracked rule src state none v refl (λ n eq. absurd cc))
        | inr ((tracker, n), recorded) ↦
            rw (recorded, Compiled.track)
              (write-Tracked rule src (record state { tracker = tracker }) (some n) v refl
                (λ m eq.
                  measure-record_event state.tracker event ts rule.window_us {t' = tracker} {n = n}
                    recorded
                  ∙ ground (arith, eq)))
      ]

  observe-Tracked :
      (rule : CompiledRule f lru) (packet : Packet) (src dst : IpAddr)
      → IsWithin IpAddr-discrete lru rule.sources
      → Tracked rule src
          (Compiled.observe f lru rule packet src dst).0
          (Compiled.observe f lru rule packet src dst).1
  unfolding Compiled.observe
  observe-Tracked rule packet src dst v =
      elim (Option-cases (Compiled.event_of f lru rule.spec.kind rule.spec packet dst)) [
        | inl no_event ↦ rw (no_event, Compiled.observe) (unmoved rule src v)
        | inr (event, is_event) ↦
            rw (is_event, Compiled.observe) (track-Tracked rule packet.ts_us src event v)
      ]
    where
      unmoved :
          (rule : CompiledRule f lru) (src : IpAddr)
          → IsWithin IpAddr-discrete lru rule.sources
          → Tracked rule src rule none
      unmoved rule src v = record {
        counted = λ n eq. absurd cc;
        within = v;
        fired = refl;
        same_cooldown = refl;
        same_spec = refl;
      }

  -- An alert of a rule about a source, from a state of the rule before to one after; `count` is what
  -- was observed.
  pub record Fires (before : CompiledRule f lru) (count : Option ℕ) (ts : ℕ) (src : IpAddr)
      (after : CompiledRule f lru) (a : Alert F64) : Type 0 where
    pub observed : ℕ
    pub given : count ≡ some observed
    pub counted : measured after src ≡ some observed
    pub reached : before.spec.threshold ≤ observed
    pub told :
        a.message
        ≡ of_rule (record {
          src = src;
          observed = observed;
          what = what before.spec.kind;
          window_secs = before.spec.window_secs;
        })
    pub about : a.src ≡ some src
    pub timed : a.ts_us ≡ ts
    pub named : a.rule_id ≡ before.spec.id
    pub rested : IsRested (last_fired before src) before.cooldown_us ts
    pub noted : last_fired after src ≡ some ts
    pub within : IsWithin IpAddr-discrete lru after.sources

  fire-Fires :
      (rule : CompiledRule f lru) (ts : ℕ) (src : IpAddr) (observed : ℕ)
      {rule' : CompiledRule f lru} {a : Alert F64}
      → IsWithin IpAddr-discrete lru rule.sources
      → rule.spec.threshold ≤ observed
      → measured rule src ≡ some observed
      → Compiled.fire f lru rule ts src observed ≡ (rule', some a)
      → Fires rule (some observed) ts src rule' a
  unfolding Compiled.fire last_fired measured Compiled.alert
  fire-Fires rule ts src observed {rule'} {a} v enough size e =
      elim (Option-cases (get_mut rule.sources src)) [
        | inl missing ↦ absurd (ground arith)
        | inr ((state, write), held) ↦
            let (found, noted, within) =
              get_mut_lem IpAddr-discrete lru rule.sources src state
                (record state { last_fired_us = some ts }) write v held in
            let moved : rule'.sources ≡ write (record state { last_fired_us = some ts }) =
              ground arith in
            record {
              observed = observed;
              given = refl;
              counted = rw moved (ap measure_at noted ∙ sym (ap measure_at found) ∙ size);
              reached = enough;
              told = ground arith;
              about = ground arith;
              timed = ground arith;
              named = ground arith;
              rested =
                  rw found
                    (is_cooling-IsRested state.last_fired_us rule.cooldown_us ts (ground arith));
              noted = rw moved (ap fired_at noted);
              within = rw moved within;
            }
      ]

  judge-Fires :
      (r : CompiledRule f lru × Option ℕ) (ts : ℕ) (src : IpAddr) {rule' : CompiledRule f lru}
      {a : Alert F64}
      → IsWithin IpAddr-discrete lru r.0.sources
      → ((n : ℕ) → r.1 ≡ some n → measured r.0 src ≡ some n)
      → Compiled.judge f lru r ts src ≡ (rule', some a)
      → Fires r.0 r.1 ts src rule' a
  unfolding Compiled.judge
  judge-Fires (rule, none) ts src {rule'} {a} v size e = absurd (ground arith)
  judge-Fires (rule, some observed) ts src {rule'} {a} v size e =
      elim (Bool-cases (ltb observed rule.spec.threshold)) [
        | inl few ↦ absurd (ground arith)
        | inr many ↦
            fire-Fires rule ts src observed {rule' = rule'} {a = a} v (ltb→le _ _ many)
              (size observed refl) (ground arith)
      ]

  -- Where the table of sources is within its bound, which is positive: whenever a rule raises an alert
  -- for a packet, what `observe` gives for the packet is the size of the source's window behind it and
  -- at least the rule's threshold, and the message tells this number; the alert is about the packet's
  -- source at the packet's time; the rule's cooldown behind its last alert about the source, if it has
  -- raised one, is over at this time; and the time is noted as that of the last alert.
  pub evaluate-Fires :
      (rule : CompiledRule f lru) (packet : Packet) (ip : IpHeader) {rule' : CompiledRule f lru}
      {a : Alert F64}
      → IsWithin IpAddr-discrete lru rule.sources
      → packet.ip ≡ some ip
      → Compiled.evaluate f lru rule packet ≡ (rule', some a)
      → Fires rule (Compiled.observe f lru rule packet ip.src ip.dst).1 packet.ts_us ip.src rule' a
  unfolding Compiled.evaluate
  evaluate-Fires rule packet ip {rule'} {a} v has_ip e =
      let o = Compiled.observe f lru rule packet ip.src ip.dst in
      let t = observe-Tracked rule packet ip.src ip.dst v in
      let fires =
        judge-Fires o packet.ts_us ip.src {rule' = rule'} {a = a} t.within (λ n eq. t.counted n eq)
          (rw (has_ip, Compiled.evaluate) at e) in
      record {
        observed = fires.observed;
        given = fires.given;
        counted = fires.counted;
        reached = ground (arith, fires.reached, t.same_spec);
        told = ground (arith, fires.told, t.same_spec);
        about = fires.about;
        timed = fires.timed;
        named = ground (arith, fires.named, t.same_spec);
        rested =
            subst (λ (c : ℕ). IsRested (last_fired rule ip.src) c packet.ts_us) t.same_cooldown
              (subst (λ (l : Option ℕ). IsRested l o.0.cooldown_us packet.ts_us) t.fired
                fires.rested);
        noted = fires.noted;
        within = fires.within;
      }

  -- Where the table of sources is within its bound, two alerts of a rule about one source, for one packet and the next, are at least the cooldown
  -- apart, or at the end of the 64-bit clock.
  pub evaluate_cooldown :
      (rule : CompiledRule f lru) (p q : Packet) (ip jp : IpHeader)
      {rule₁ rule₂ : CompiledRule f lru} {a b : Alert F64}
      → IsWithin IpAddr-discrete lru rule.sources
      → p.ip ≡ some ip
      → q.ip ≡ some jp
      → jp.src ≡ ip.src
      → Compiled.evaluate f lru rule p ≡ (rule₁, some a)
      → Compiled.evaluate f lru rule₁ q ≡ (rule₂, some b)
      → saturating_add64 a.ts_us rule₁.cooldown_us ≤ b.ts_us
  evaluate_cooldown rule p q ip jp {rule₁} {rule₂} {a} {b} v hp hq same ep eq =
      let first = evaluate-Fires rule p ip {rule' = rule₁} {a = a} v hp ep in
      let next = evaluate-Fires rule₁ q jp {rule' = rule₂} {a = b} first.within hq eq in
      let seen : last_fired rule₁ jp.src ≡ some p.ts_us = rw same first.noted in
      let rested : saturating_add64 p.ts_us rule₁.cooldown_us ≤ q.ts_us = rw seen at next.rested in
      rw (first.timed, next.timed) rested

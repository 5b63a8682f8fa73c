-- ===== src/Ffi/Shared/Queue/Delivery.antt =====
-- core-rs/core-ffi/src/core.rs: the log of the alerts over any use of the shared state.
use netmon_polyglot.Ffi.Shared.Queue.{
  push, pop, done, arrive, IsLogged, IsUsed, raised, pushed, popped, use_once, uses, Use,
}
use netmon_polyglot.Ffi.Shared.Queue.Pushing.{
  move_front, first_last, List-cases, push-IsLogged, push_alerts-IsLogged,
}
use mathlib.Core.List.{append-nil}
use mathlib.Core.Path.{subst}
use netmon_polyglot.Alert.{Alert}
use netmon_polyglot.Engine
use netmon_polyglot.Engine.{Engine}
use netmon_polyglot.Ffi.Shared
use netmon_polyglot.Ffi.Shared.{Shared}
use netmon_polyglot.Float.{Float}
use netmon_polyglot.Flow.{FlowKey-discrete, FlowStats}
use netmon_polyglot.Lru.{LruCache}
use netmon_polyglot.Net.{IpAddr-discrete}
use netmon_polyglot.Prelude.Outcome.{ok, err, panic, diverge, Outcome}
use netmon_polyglot.Prelude.{
  sym, arith, ◌∙◌, ap, refl, inr, inl, ◌≡◌, take, length, ◌++◌, List, ◌∷◌, [],
}
use netmon_polyglot.Rules.Compiled.{SourceState}

module _ {f : Float} {flow_lru : LruCache FlowStats FlowKey-discrete}
    {source_lru : LruCache SourceState IpAddr-discrete} where
  open f use {F64}

  popped_one :
      {all out : List (Alert F64)} (s : Shared f flow_lru source_lru) {h : Alert F64}
      {rest : List (Alert F64)}
      → IsLogged all out s
      → s.alerts ≡ h ∷ rest
      → IsLogged all (out ++ h ∷ []) (record s { alerts = rest })
  popped_one {all = all} s {h = h} l at = record {
    gone = l.gone ++ h ∷ [];
    lost = l.lost;
    split = first_last h l.split;
    kept = move_front all l.gone l.kept at;
    bounded = omega (arith, l.bounded, ap length at);
    total = l.total;
    dropped = l.dropped;
  }

  pop_empty : (s : Shared f flow_lru source_lru) → s.alerts ≡ [] → (Shared.pop_alert s).0 ≡ s
  unfolding Shared.pop_alert
  pop_empty s empty = ground (arith, empty)

  pop_one :
      (s : Shared f flow_lru source_lru) {h : Alert F64} {rest : List (Alert F64)}
      → s.alerts ≡ h ∷ rest
      → (Shared.pop_alert s).0 ≡ record s { alerts = rest }
  unfolding Shared.pop_alert
  pop_one s at = ground (arith, at)

  pop-IsLogged :
      (all out : List (Alert F64)) (s : Shared f flow_lru source_lru)
      → IsLogged all out s
      → IsLogged all (out ++ take 1 s.alerts) (Shared.pop_alert s).0
  pop-IsLogged all out s l = elim (List-cases s.alerts) [
    | inl empty ↦ rw (pop_empty s empty) (
        subst (λ xs. IsLogged all xs s)
          (sym (append-nil out) ∙ ap (λ q. out ++ take 1 q) (sym empty)) l)
    | inr (h, rest, at) ↦ rw (pop_one s at) (
        subst (λ xs. IsLogged all xs (record s { alerts = rest }))
          (ap (λ q. out ++ take 1 q) (sym at)) (popped_one s l at))
  ]

  -- The log does not see the engine.
  with_engine-IsLogged :
      {all out : List (Alert F64)} (s : Shared f flow_lru source_lru)
      (e : Engine f flow_lru source_lru)
      → IsLogged all out s
      → IsLogged all out (record s { engine = e })
  with_engine-IsLogged s e l = record {
    gone = l.gone;
    lost = l.lost;
    split = l.split;
    kept = l.kept;
    bounded = l.bounded;
    total = l.total;
    dropped = l.dropped;
  }

  deliver-IsLogged :
      {E P : Type 0} (all out : List (Alert F64)) (s : Shared f flow_lru source_lru)
      (r : Outcome E P)
      → IsLogged all out s
      → IsLogged (all ++ raised (s.engine, r)) out (Shared.deliver s r).0
  unfolding Shared.deliver Engine.drain_alerts
  deliver-IsLogged all out s panic l = push_alerts-IsLogged all out s [] l
  deliver-IsLogged all out s diverge l = push_alerts-IsLogged all out s [] l
  deliver-IsLogged all out s (ok a) l =
      push_alerts-IsLogged all out _ s.engine.alerts (with_engine-IsLogged s _ l)
  deliver-IsLogged all out s (err a) l =
      push_alerts-IsLogged all out _ s.engine.alerts (with_engine-IsLogged s _ l)

  nothing_out :
      {s : Shared f flow_lru source_lru} (all out : List (Alert F64))
      → IsLogged all out s
      → IsLogged all (out ++ []) s
  nothing_out {s = s} all out l = subst (λ xs. IsLogged all xs s) (sym (append-nil out)) l

  use-IsLogged :
      (all out : List (Alert F64)) (s : Shared f flow_lru source_lru) (u : Use (Alert F64))
      → IsLogged all out s
      → IsLogged (all ++ pushed s u) (out ++ popped s u) (use_once s u)
  unfolding Shared.ingest
  use-IsLogged all out s (arrive ts_us wire_len bytes) l =
      let p =
        Engine.process f flow_lru source_lru s.engine
          (record { ts_us = ts_us; wire_len = wire_len; bytes = bytes }) in
      nothing_out _ out
        (deliver-IsLogged all out (record s { engine = p.0 }) p.1 (with_engine-IsLogged s p.0 l))
  use-IsLogged all out s (push alert) l = nothing_out _ out (push-IsLogged s alert l)
  use-IsLogged all out s pop l =
      subst (λ xs. IsLogged xs (out ++ take 1 s.alerts) (Shared.pop_alert s).0)
        (sym (append-nil all)) (pop-IsLogged all out s l)

  uses-IsUsed :
      (s : Shared f flow_lru source_lru) (all out : List (Alert F64)) (us : List (Use (Alert F64)))
      → IsLogged all out s
      → IsUsed (uses s all out us)
  uses-IsUsed s all out [] l = l
  uses-IsUsed s all out (u ∷ us) l =
      uses-IsUsed (use_once s u) (all ++ pushed s u) (out ++ popped s u) us
        (use-IsLogged all out s u l)

  new_shared-IsLogged :
      (engine : Engine f flow_lru source_lru) → IsLogged [] [] (Shared.new_shared engine)
  unfolding Shared.new_shared
  new_shared-IsLogged engine = record {
    gone = [];
    lost = [];
    split = done;
    kept = refl;
    bounded = omega arith;
    total = refl;
    dropped = refl;
  }

  -- From the state that `NcCore::new` makes, whatever frames arrive, alerts are pushed and popped, in
  -- whatever order the locks are taken: the queue has its bound, every alert pushed was handed out,
  -- was dropped, or is in the queue, all in the order in which they were pushed, and the two counters
  -- are the numbers of alerts pushed and dropped, modulo 2^64.
  pub uses_logged :
      (engine : Engine f flow_lru source_lru) (us : List (Use (Alert F64)))
      → IsUsed (uses (Shared.new_shared engine) [] [] us)
  uses_logged engine us =
      uses-IsUsed (Shared.new_shared engine) [] [] us (new_shared-IsLogged engine)

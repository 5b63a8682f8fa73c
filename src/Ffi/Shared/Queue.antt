-- ===== src/Ffi/Shared/Queue.antt =====
-- core-rs/core-ffi/src/core.rs: what becomes of the alerts that are pushed.
pub mod Pushing
pub mod Delivery
use mathlib.Core.List.{append_assoc, append-nil}
use mathlib.Core.Path.{subst}
use netmon_polyglot.Alert.{Alert}
use netmon_polyglot.Engine
use netmon_polyglot.Engine.{Engine}
use netmon_polyglot.Ffi.Shared
use netmon_polyglot.Ffi.Shared.{Shared}
use netmon_polyglot.Float.{Float}
use netmon_polyglot.Flow.{FlowKey-discrete, FlowStats}
use netmon_polyglot.Lru.{LruCache}
use netmon_polyglot.Net.{IpAddr-discrete}
use netmon_polyglot.Prelude.Outcome.{ok, err, panic, diverge, Outcome}
use netmon_polyglot.Prelude.Words.{add64, u64_mod}
use netmon_polyglot.Prelude.{
  ◌<◌, sym, drop, length-append, length-drop, arith, ◌∙◌, ◌⊎◌, ap, Bool-cases, refl, inr, inl, ◌==◌,
  false, true, ◌%◌, ◌≤◌, ◌≡◌, take, length, ◌++◌, ℕ, List, ◌∷◌, [],
}
use netmon_polyglot.Rules.Compiled.{SourceState}

-- A list that holds two others, each in its order.
pub data Merge {A : Type 0} : List A → List A → List A → Type 0 where
  done : Merge [] [] []
  first : {a : A} {xs ys zs : List A} → Merge xs ys zs → Merge (a ∷ xs) ys (a ∷ zs)
  second : {a : A} {xs ys zs : List A} → Merge xs ys zs → Merge xs (a ∷ ys) (a ∷ zs)

-- What other threads and the caller do with the shared state.
pub data Use (A : Type 0) : Type 0 where
  arrive : ℕ → ℕ → List ℕ → Use A
  push : A → Use A
  pop : Use A

module _ {f : Float} {flow_lru : LruCache FlowStats FlowKey-discrete}
    {source_lru : LruCache SourceState IpAddr-discrete} where
  open f use {F64}

  -- The alerts that `deliver` pushes.
  abbrev pub raised : {E P : Type 0} → Engine f flow_lru source_lru × Outcome E P → List (Alert F64)
  raised (engine, panic) = []
  raised (engine, diverge) = []
  raised (engine, r) = engine.alerts

  -- The alerts that a use pushes, and those that it hands out.
  abbrev pub pushed : Shared f flow_lru source_lru → Use (Alert F64) → List (Alert F64)
  pushed s (arrive ts_us wire_len bytes) = raised (
      Engine.process f flow_lru source_lru s.engine
        (record { ts_us = ts_us; wire_len = wire_len; bytes = bytes }))
  pushed s (push alert) = alert ∷ []
  pushed s pop = []

  abbrev pub popped : Shared f flow_lru source_lru → Use (Alert F64) → List (Alert F64)
  popped s pop = take 1 s.alerts
  popped s u = []

  abbrev pub use_once :
      Shared f flow_lru source_lru → Use (Alert F64) → Shared f flow_lru source_lru
  use_once s (arrive ts_us wire_len bytes) = (Shared.ingest s ts_us wire_len bytes).0
  use_once s (push alert) = Shared.push_alert s alert
  use_once s pop = (Shared.pop_alert s).0

  -- After the uses, in the order in which the locks are taken: the state, all that was pushed, and all
  -- that was handed out.
  abbrev pub uses :
      Shared f flow_lru source_lru
      → List (Alert F64)
      → List (Alert F64)
      → List (Use (Alert F64))
      → Shared f flow_lru source_lru × List (Alert F64) × List (Alert F64)
  uses s all out [] = (s, all, out)
  uses s all out (u ∷ us) = uses (use_once s u) (all ++ pushed s u) (out ++ popped s u) us

  -- Every alert that was pushed was handed out, or was dropped and counted, or is still in the queue,
  -- which has its bound; and the order is kept.
  pub record IsLogged (all out : List (Alert F64)) (s : Shared f flow_lru source_lru) : Type 0 where
    pub gone : List (Alert F64)
    pub lost : List (Alert F64)
    pub split : Merge out lost gone
    pub kept : all ≡ gone ++ s.alerts
    pub bounded : length s.alerts ≤ Shared.alert_queue_capacity
    pub total : s.alerts_total ≡ length all % u64_mod
    pub dropped : s.alerts_dropped ≡ length lost % u64_mod

  abbrev pub IsUsed : Shared f flow_lru source_lru × List (Alert F64) × List (Alert F64) → Type 0
  IsUsed (s, all, out) = IsLogged all out s

-- ===== src/Ffi/Shared/Queue/Pushing.antt =====
-- core-rs/core-ffi/src/core.rs: the log of the alerts when some are pushed.
use netmon_polyglot.Ffi.Shared.Queue.{done, first, second, Merge, IsLogged}
use mathlib.Core.List.{append_assoc, append-nil}
use mathlib.Core.Path.{subst}
use netmon_polyglot.Alert.{Alert}
use netmon_polyglot.Ffi.Shared
use netmon_polyglot.Ffi.Shared.{Shared}
use netmon_polyglot.Float.{Float}
use netmon_polyglot.Flow.{FlowKey-discrete, FlowStats}
use netmon_polyglot.Lru.{LruCache}
use netmon_polyglot.Net.{IpAddr-discrete}
use netmon_polyglot.Prelude.Words.{add64}
use netmon_polyglot.Prelude.{
  ◌<◌, sym, drop, length-append, length-drop, arith, ◌∙◌, ◌⊎◌, ap, Bool-cases, refl, inr, inl, ◌==◌,
  false, true, ◌≡◌, length, ◌++◌, List, ◌∷◌, [],
}
use netmon_polyglot.Rules.Compiled.{SourceState}

pub first_last :
    {A : Type 0} {xs ys zs : List A} (a : A)
    → Merge xs ys zs
    → Merge (xs ++ a ∷ []) ys (zs ++ a ∷ [])
first_last a done = first done
first_last a (first m) = first (first_last a m)
first_last a (second m) = second (first_last a m)

second_last :
    {A : Type 0} {xs ys zs : List A} (a : A)
    → Merge xs ys zs
    → Merge xs (ys ++ a ∷ []) (zs ++ a ∷ [])
second_last a done = second done
second_last a (first m) = first (second_last a m)
second_last a (second m) = second (second_last a m)

pub List-cases :
    {A : Type 0} (xs : List A) → (xs ≡ []) ⊎ ((x : A) × (rest : List A) × (xs ≡ x ∷ rest))
List-cases [] = inl refl
List-cases (x ∷ rest) = inr (x, rest, refl)

pub move_front :
    {A : Type 0} (all gone : List A) {queue rest : List A} {h : A}
    → all ≡ gone ++ queue
    → queue ≡ h ∷ rest
    → all ≡ (gone ++ h ∷ []) ++ rest
move_front all gone {rest = rest} {h = h} kept at =
    kept ∙ ap (λ q. gone ++ q) at ∙ sym (append_assoc gone (h ∷ []) rest)

push_back :
    {A : Type 0} (all gone queue : List A) (a : A)
    → all ≡ gone ++ queue
    → all ++ a ∷ [] ≡ gone ++ (queue ++ a ∷ [])
push_back all gone queue a kept = ap (λ xs. xs ++ a ∷ []) kept ∙ append_assoc gone queue (a ∷ [])

module _ {f : Float} {flow_lru : LruCache FlowStats FlowKey-discrete}
    {source_lru : LruCache SourceState IpAddr-discrete} where
  open f use {F64}

  make_room_room :
      (s : Shared f flow_lru source_lru)
      → (length s.alerts == Shared.alert_queue_capacity) ≡ false
      → Shared.make_room s ≡ s
  unfolding Shared.make_room
  make_room_room s room = ground (arith, room)

  make_room_full :
      (s : Shared f flow_lru source_lru)
      → (length s.alerts == Shared.alert_queue_capacity) ≡ true
      → Shared.make_room s
        ≡ record s { alerts = drop 1 s.alerts; alerts_dropped = add64 s.alerts_dropped 1 }
  unfolding Shared.make_room
  make_room_full s full = ground (arith, full)

  -- What stands in the queue after room is made, with the alert behind it.
  queued :
      {all out : List (Alert F64)} (s : Shared f flow_lru source_lru) (alert : Alert F64)
      → IsLogged all out s
      → length s.alerts < Shared.alert_queue_capacity
      → IsLogged
          (all ++ alert ∷ [])
          out
          (record s { alerts = s.alerts ++ alert ∷ []; alerts_total = add64 s.alerts_total 1 })
  unfolding add64
  queued {all = all} s alert l room = record {
    gone = l.gone;
    lost = l.lost;
    split = l.split;
    kept = push_back all l.gone s.alerts alert l.kept;
    bounded = omega (arith, room, length-append s.alerts (alert ∷ []));
    total = omega (arith, l.total, length-append all (alert ∷ []));
    dropped = l.dropped;
  }

  -- Making room keeps the log.
  make_room-IsLogged :
      {all out : List (Alert F64)} (s : Shared f flow_lru source_lru) {h : Alert F64}
      {rest : List (Alert F64)}
      → IsLogged all out s
      → s.alerts ≡ h ∷ rest
      → IsLogged all out
          (record s { alerts = drop 1 s.alerts; alerts_dropped = add64 s.alerts_dropped 1 })
  unfolding add64
  make_room-IsLogged {all = all} s {h = h} l at = record {
    gone = l.gone ++ h ∷ [];
    lost = l.lost ++ h ∷ [];
    split = second_last h l.split;
    kept = move_front all l.gone l.kept at ∙ ap (λ q. (l.gone ++ h ∷ []) ++ drop 1 q) (sym at);
    bounded = omega (arith, l.bounded, length-drop 1 s.alerts);
    total = l.total;
    dropped = omega (arith, l.dropped, length-append l.lost (h ∷ []));
  }

  pub push-IsLogged :
      {all out : List (Alert F64)} (s : Shared f flow_lru source_lru) (alert : Alert F64)
      → IsLogged all out s
      → IsLogged (all ++ alert ∷ []) out (Shared.push_alert s alert)
  unfolding Shared.push_alert
  push-IsLogged {all = all} {out = out} s alert l =
      let t = record s { alerts_total = add64 s.alerts_total 1 } in
      elim (Bool-cases (length s.alerts == Shared.alert_queue_capacity)) [
        | inl full ↦ elim (List-cases s.alerts) [
          | inl empty ↦ absurd (ground (arith, full, ap length empty))
          | inr (h, rest, at) ↦
              subst
                (λ r.
                  IsLogged (all ++ alert ∷ []) out (record r { alerts = r.alerts ++ alert ∷ [] }))
                (sym (make_room_full t full))
                (queued _ alert (make_room-IsLogged s l at)
                  (omega (arith, l.bounded, ap length at, length-drop 1 s.alerts)))
        ]
        | inr room ↦
            subst
              (λ r. IsLogged (all ++ alert ∷ []) out (record r { alerts = r.alerts ++ alert ∷ [] }))
              (sym (make_room_room t room)) (queued s alert l (ground (arith, l.bounded, room)))
      ]

  pub push_alerts-IsLogged :
      (all out : List (Alert F64)) (s : Shared f flow_lru source_lru) (alerts : List (Alert F64))
      → IsLogged all out s
      → IsLogged (all ++ alerts) out (Shared.push_alerts s alerts)
  unfolding Shared.push_alerts
  push_alerts-IsLogged all out s [] l = subst (λ xs. IsLogged xs out s) (sym (append-nil all)) l
  push_alerts-IsLogged all out s (alert ∷ alerts) l =
      subst (λ xs. IsLogged xs out (Shared.push_alerts (Shared.push_alert s alert) alerts))
        (append_assoc all (alert ∷ []) alerts)
        (push_alerts-IsLogged (all ++ alert ∷ []) out (Shared.push_alert s alert) alerts
          (push-IsLogged s alert l))

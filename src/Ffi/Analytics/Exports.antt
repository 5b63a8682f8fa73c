-- ===== src/Ffi/Analytics/Exports.antt =====
-- core-rs/core-ffi/src/analytics.rs: what the exporter sends.
use mathlib.Core.Path.{subst}
use netmon_polyglot.Prelude.Words.{add64}
use netmon_polyglot.Net.{IpAddr-discrete}
use netmon_polyglot.Rules.Compiled.{SourceState}
use netmon_polyglot.Lru.{LruCache}
use netmon_polyglot.Float.{Float}
use netmon_polyglot.Prelude.{
  ◌⊎◌, ltb→le, take_all, length-take, ◌∙◌, sym, ◌≤◌, Option, ltb→lt, ltb, lt→ltb, ap, Bool-cases,
  arith, le→ltb, ◌<◌, length, take, ◌≡◌, ℕ, List, ◌∷◌, refl, inr, inl, some, none, suc, zero, [],
}
use netmon_polyglot.Flow.Table
use netmon_polyglot.Flow.Table.Order.{SeenBy}
use netmon_polyglot.Ffi.Analytics
use netmon_polyglot.Ffi.Analytics.{
  Option, add64, IpAddr-discrete, SourceState, ltb, FlowKey-discrete, length, take, LruCache, Float,
  ℕ, List, Exporter, FlowBatch, FlowFeatures, IpText,
}
use netmon_polyglot.Prelude.{In, here, there}
use netmon_polyglot.Engine.{Engine}
use netmon_polyglot.Flow.{FlowKey-discrete, FlowKey, FlowStats}

seen_In :
    (since : ℕ) (key : FlowKey) (stats : FlowStats) (flows : List (FlowKey × FlowStats))
    → In (key, stats) flows
    → since < stats.last_seen_us
    → In (key, stats) (Analytics.seen_since since flows)
unfolding Analytics.seen_since
seen_In since key stats [] i h = elim i [ ]
seen_In since key stats (flow ∷ flows) here h = rw (lt→ltb since stats.last_seen_us h) here
seen_In since key stats ((k, s) ∷ flows) (there i) h =
    elim (Bool-cases (ltb since s.last_seen_us)) [
      | inl seen ↦ rw seen (there (seen_In since key stats flows i h))
      | inr old ↦ rw old (seen_In since key stats flows i h)
    ]

features_of-In :
    (ip : IpText) (key : FlowKey) (stats : FlowStats) (flows : List (FlowKey × FlowStats))
    → In (key, stats) flows
    → In (Analytics.features ip key stats) (Analytics.features_of ip flows)
unfolding Analytics.features_of
features_of-In ip key stats [] i = elim i [ ]
features_of-In ip key stats (flow ∷ flows) here = here
features_of-In ip key stats (flow ∷ flows) (there i) = there (features_of-In ip key stats flows i)

length-features_of :
    (ip : IpText) (flows : List (FlowKey × FlowStats))
    → length (Analytics.features_of ip flows) ≡ length flows
unfolding Analytics.features_of
length-features_of ip [] = refl
length-features_of ip (flow ∷ flows) = ap suc (length-features_of ip flows)

-- Nothing was seen after the time by which all was seen.
seen_since_none :
    (since : ℕ) (flows : List (FlowKey × FlowStats))
    → SeenBy since flows
    → Analytics.seen_since since flows ≡ []
unfolding Analytics.seen_since
seen_since_none since [] h = refl
seen_since_none since ((key, stats) ∷ flows) h =
    rw (le→ltb since stats.last_seen_us h.0) (seen_since_none since flows h.1)

-- Nothing was seen after the time if nothing is collected.
seen_since_nil :
    (since : ℕ) (key : FlowKey) (stats : FlowStats) (flows : List (FlowKey × FlowStats))
    → Analytics.seen_since since flows ≡ []
    → In (key, stats) flows
    → stats.last_seen_us ≤ since
seen_since_nil since key stats flows nothing i = elim (Bool-cases (ltb since stats.last_seen_us)) [
  | inl later ↦
      elim (subst (In (key, stats)) nothing
        (seen_In since key stats flows i (ltb→lt since stats.last_seen_us later))) [ ]
  | inr old ↦ ltb→le since stats.last_seen_us old
]

-- What is to be sent was seen after this time: the end of the last batch, or 0 if the engine's time is
-- before it.
abbrev pub IsStart : Exporter → ℕ → ℕ → Type 0
IsStart x last start =
    ((x.last_export_us ≤ last) × (start ≡ x.last_export_us))
    ⊎ ((last < x.last_export_us) × (start ≡ 0))

window_start-IsStart : (x : Exporter) (last : ℕ) → IsStart x last (Analytics.window_start x last)
unfolding Analytics.window_start
window_start-IsStart x last = elim (Bool-cases (ltb last x.last_export_us)) [
  | inl back ↦ rw back (inr (ltb→lt last x.last_export_us back, refl))
  | inr on ↦ rw on (inl (ltb→le last x.last_export_us on, refl))
]

-- Each of the features is of something seen after the time.
abbrev pub AllSince : ℕ → List FlowFeatures → Type 0
AllSince since [] = Unit
AllSince since (x ∷ xs) = (since < x.last_seen_us) × AllSince since xs

features-last_seen :
    (ip : IpText) (key : FlowKey) (stats : FlowStats)
    → (Analytics.features ip key stats).last_seen_us ≡ stats.last_seen_us
unfolding Analytics.features Analytics.oriented Analytics.client_is_b
features-last_seen ip key stats = ground arith

features_of-AllSince :
    (ip : IpText) (since n : ℕ) (flows : List (FlowKey × FlowStats))
    → AllSince since (Analytics.features_of ip (take n (Analytics.seen_since since flows)))
unfolding Analytics.features_of Analytics.seen_since
features_of-AllSince ip since zero flows = tt
features_of-AllSince ip since (suc n) [] = tt
features_of-AllSince ip since (suc n) ((key, stats) ∷ flows) =
    elim (Bool-cases (ltb since stats.last_seen_us)) [
      | inl seen ↦ rw seen (
        omega (arith, features-last_seen ip key stats, ltb→lt since stats.last_seen_us seen),
        features_of-AllSince ip since n flows,
      )
      | inr old ↦ rw old (features_of-AllSince ip since (suc n) flows)
    ]

take_none : (n : ℕ) (flows : List (FlowKey × FlowStats)) → take (suc n) flows ≡ [] → flows ≡ []
take_none n [] eq = refl
take_none n (flow ∷ flows) eq = absurd cc

window_start_same :
    (x : Exporter) (last : ℕ) → x.last_export_us ≡ last → Analytics.window_start x last ≡ last
unfolding Analytics.window_start
window_start_same x last same = ground (arith, same)

module _ (ip : IpText) {f : Float} {flow_lru : LruCache FlowStats FlowKey-discrete}
    {source_lru : LruCache SourceState IpAddr-discrete} where
  open f use {F64}

  -- The batch that stands behind `next_batch`.
  pub record IsSent (x : Exporter) (engine : Engine f flow_lru source_lru) (x' : Exporter)
      (b : FlowBatch) : Type 0 where
    pub start : ℕ
    pub began : IsStart x engine.last_ts_us start
    pub numbered : (b.batch_id ≡ add64 x.batch_id 1) × (x'.batch_id ≡ b.batch_id)
    pub until : (b.window_end_us ≡ engine.last_ts_us) × (x'.last_export_us ≡ engine.last_ts_us)
    pub some_flow : 0 < length b.flows
    pub bounded : length b.flows ≤ Analytics.max_flows_per_batch
    pub recent : AllSince start b.flows
    pub complete :
        (key : FlowKey) (stats : FlowStats)
        → length b.flows < Analytics.max_flows_per_batch
        → In (key, stats) (Table.iter flow_lru engine.flows)
        → start < stats.last_seen_us
        → In (Analytics.features ip key stats) b.flows

  abbrev pub Sends : Exporter → Engine f flow_lru source_lru → Exporter × Option FlowBatch → Type 0
  Sends x engine (x', none) =
      (x'.batch_id ≡ x.batch_id)
      × IsStart x engine.last_ts_us x'.last_export_us
      × ((key : FlowKey) (stats : FlowStats)
          → In (key, stats) (Table.iter flow_lru engine.flows)
          → stats.last_seen_us ≤ x'.last_export_us)
  Sends x engine (x', some b) = IsSent x engine x' b

  batch_of-Sends :
      (x : Exporter) (engine : Engine f flow_lru source_lru) (taken : List (FlowKey × FlowStats))
      → let start = Analytics.window_start x engine.last_ts_us in
        take Analytics.max_flows_per_batch
            (Analytics.seen_since start (Table.iter flow_lru engine.flows))
          ≡ taken
        → Sends x engine (Analytics.batch_of ip x start engine.last_ts_us taken)
  unfolding Analytics.batch_of
  batch_of-Sends x engine [] eq = (
    refl,
    window_start-IsStart x engine.last_ts_us,
    λ key stats i.
        seen_since_nil (Analytics.window_start x engine.last_ts_us) key stats
          (Table.iter flow_lru engine.flows) (take_none 19_999 _ eq) i,
  )
  batch_of-Sends x engine (flow ∷ flows) eq =
      let start = Analytics.window_start x engine.last_ts_us in
      let table = Table.iter flow_lru engine.flows in
      let seen = Analytics.seen_since start table in
      let counted = ap length (sym eq) ∙ length-take Analytics.max_flows_per_batch seen in
      let all = length-features_of ip (flow ∷ flows) in
      record {
        start = start;
        began = window_start-IsStart x engine.last_ts_us;
        numbered = (refl, refl);
        until = (refl, refl);
        some_flow = omega (arith, all);
        bounded = omega (arith, all, counted);
        recent =
            subst (λ taken. AllSince start (Analytics.features_of ip taken)) eq
              (features_of-AllSince ip start Analytics.max_flows_per_batch table);
        complete = λ key stats few i after. features_of-In ip key stats (flow ∷ flows) (
            subst (In (key, stats))
              (sym (take_all Analytics.max_flows_per_batch seen (omega (arith, all, counted, few)))
                ∙ eq)
              (seen_In start key stats table i after));
      }

  -- The time from which flows count is the end of the last batch, or 0 if the engine's time is before
  -- that. The exporter sends nothing only when no flow of the table was seen after this time, and then
  -- keeps its count and notes this time. What it sends has the next number and ends at the engine's
  -- time, which it notes; it holds at least one flow and no more than 20 000, all seen after this time;
  -- and unless it is full, every flow of the table seen after it is in it.
  pub next_batch-Sends :
      (x : Exporter) (engine : Engine f flow_lru source_lru)
      → Sends x engine (Analytics.next_batch ip x engine)
  unfolding Analytics.next_batch
  next_batch-Sends x engine = batch_of-Sends x engine _ refl

  nothing_new :
      (x : Exporter) (engine : Engine f flow_lru source_lru)
      → SeenBy engine.last_ts_us (Table.iter flow_lru engine.flows)
      → x.last_export_us ≡ engine.last_ts_us
      → (Analytics.next_batch ip x engine).1 ≡ none
  unfolding Analytics.next_batch Analytics.batch_of
  nothing_new x engine seen same =
      let last = engine.last_ts_us in
      ap
        (λ start.
          (Analytics.batch_of ip x start last (
            take Analytics.max_flows_per_batch
              (Analytics.seen_since start (Table.iter flow_lru engine.flows)))).1)
        (window_start_same x last same)
      ∙ ap
          (λ flows.
            (Analytics.batch_of ip x last last (take Analytics.max_flows_per_batch flows)).1)
          (seen_since_none last (Table.iter flow_lru engine.flows) seen)

  -- After a batch, where no flow of the engine is later than its clock, and while no frame has come since, there is nothing more to send, also for the
  -- flows that were left out of a full batch.
  pub next_batch_settles :
      (x : Exporter) (engine : Engine f flow_lru source_lru) (x' : Exporter) (b : FlowBatch)
      → SeenBy engine.last_ts_us (Table.iter flow_lru engine.flows)
      → Analytics.next_batch ip x engine ≡ (x', some b)
      → (Analytics.next_batch ip x' engine).1 ≡ none
  next_batch_settles x engine x' b seen eq =
      nothing_new x' engine seen (subst (Sends x engine) eq (next_batch-Sends x engine)).until.1

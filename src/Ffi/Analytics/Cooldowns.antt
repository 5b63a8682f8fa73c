-- ===== src/Ffi/Analytics/Cooldowns.antt =====
-- core-rs/core-ffi/src/analytics.rs: which anomaly scores become alerts.
use mathlib.Core.Option.{some-injective}
use mathlib.Core.Path.{sym, subst}
use netmon_polyglot.Prelude.{
  [], sym, Bool-cases, arith, List, ◌∷◌, refl, inr, inl, ◌≢◌, ◌+◌, ◌<◌, ◌↔◌, ◌≤◌, Bool, ◌≡◌, ℕ,
  Option, length, false, true, some, none,
}
use netmon_polyglot.Ffi.Analytics
use netmon_polyglot.Ffi.Analytics.{List, Bool, ℕ, Option, length, Cooldown}
use netmon_polyglot.Lru.Entries.{
  remove-Distinct, lookup-remove_self, lookup-remove_ne, Distinct, lookup, remove,
}
use netmon_polyglot.Rules.Spec.{Text-discrete}
use netmon_polyglot.Alert.{Text}

abbrev pub last_of : Cooldown → Text → Option ℕ
last_of c host = lookup Text-discrete host c.last_alert_us

-- No more than 10 000 hosts, each once.
pub record IsValid (c : Cooldown) : Type 0 where
  pub bounded : length c.last_alert_us ≤ Analytics.max_cooldown_hosts
  pub distinct : Distinct Text-discrete c.last_alert_us

-- The answer of `admit`, and the cooldown after it.
pub record Answers (c : Cooldown) (host : Text) (ts : ℕ) (r : Cooldown × Bool) : Type 0 where
  pub refused : (r.1 ≡ false) ↔ (
      (last : ℕ) × (last_of c host ≡ some last)
      × (last ≤ ts)
      × (ts < last + Analytics.anomaly_cooldown_us))
  pub unchanged : r.1 ≡ false → r.0 ≡ c
  pub noted : r.1 ≡ true → last_of r.0 host ≡ some ts
  pub others :
      (other : Text)
      → other ≢ host
      → length c.last_alert_us < Analytics.max_cooldown_hosts
      → last_of r.0 other ≡ last_of c other
  pub valid : IsValid c → IsValid r.0

refused_iff :
    (last : Option ℕ) (ts : ℕ)
    → (Analytics.is_cooling last ts ≡ true)
      ↔ ((l : ℕ) × (last ≡ some l) × (l ≤ ts) × (ts < l + Analytics.anomaly_cooldown_us))
unfolding Analytics.is_cooling
refused_iff none ts = ((λ h. absurd cc), (λ (l, at, le, lt). absurd cc))
refused_iff (some l) ts = (
  (λ h. (l, refl, ground (arith, h), ground (arith, h))),
  (λ (x, at, le, lt). ground (arith, le, lt, some-injective l x at)),
)

refusing :
    (c : Cooldown) (host : Text) (ts : ℕ)
    → Analytics.is_cooling (last_of c host) ts ≡ true
    → Analytics.admit c host ts ≡ (c, false)
unfolding Analytics.admit
refusing c host ts h = ground (arith, h)

admitting :
    (c : Cooldown) (host : Text) (ts : ℕ)
    → Analytics.is_cooling (last_of c host) ts ≡ false
    → Analytics.admit c host ts ≡ (
      record {
        last_alert_us =
            (host, ts) ∷ remove Text-discrete host (Analytics.cleared_if_full c.last_alert_us);
      },
      true,
    )
unfolding Analytics.admit
admitting c host ts h = ground (arith, h)

refused-Answers :
    (c : Cooldown) (host : Text) (ts : ℕ)
    → Analytics.is_cooling (last_of c host) ts ≡ true
    → Answers c host ts (c, false)
refused-Answers c host ts h = record {
  refused = ((λ same. (refused_iff (last_of c host) ts).0 h), (λ more. refl));
  unchanged = λ same. refl;
  noted = λ diff. absurd cc;
  others = λ other ne room. refl;
  valid = λ v. v;
}

length-remove_le :
    (host : Text) (hosts : List (Text × ℕ))
    → length (remove Text-discrete host hosts) ≤ length hosts
length-remove_le host [] = omega arith
length-remove_le host (e ∷ hosts) = ground (arith, length-remove_le host hosts)

cleared-Distinct :
    (hosts : List (Text × ℕ))
    → Distinct Text-discrete hosts
    → Distinct Text-discrete (Analytics.cleared_if_full hosts)
      × (length (Analytics.cleared_if_full hosts) < Analytics.max_cooldown_hosts)
unfolding Analytics.cleared_if_full
cleared-Distinct hosts distinct = ground (arith, distinct)

cleared_room :
    (hosts : List (Text × ℕ))
    → length hosts < Analytics.max_cooldown_hosts
    → Analytics.cleared_if_full hosts ≡ hosts
unfolding Analytics.cleared_if_full
cleared_room hosts room = ground (arith, room)

admitted-Answers :
    (c : Cooldown) (host : Text) (ts : ℕ)
    → Analytics.is_cooling (last_of c host) ts ≡ false
    → Answers c host ts (
      record {
        last_alert_us =
            (host, ts) ∷ remove Text-discrete host (Analytics.cleared_if_full c.last_alert_us);
      },
      true,
    )
admitted-Answers c host ts h = record {
  refused = (
    (λ same. absurd cc),
    (λ more. let e = (refused_iff (last_of c host) ts).1 more in absurd cc),
  );
  unchanged = λ same. absurd cc;
  noted = λ same. ground arith;
  others = λ other ne room. ground (
    arith,
    ne,
    lookup-remove_ne Text-discrete host other (Analytics.cleared_if_full c.last_alert_us) ne,
    cleared_room c.last_alert_us room,
  );
  valid = λ v. record {
    bounded = omega (
      arith,
      (cleared-Distinct c.last_alert_us v.distinct).1,
      length-remove_le host (Analytics.cleared_if_full c.last_alert_us),
    );
    distinct = (
      lookup-remove_self Text-discrete host _ (cleared-Distinct c.last_alert_us v.distinct).0,
      remove-Distinct Text-discrete host _ (cleared-Distinct c.last_alert_us v.distinct).0,
    );
  };
}

-- A score is refused exactly when the last alert of its host that is still known lies no later and
-- less than 15 seconds before it; a refusal changes nothing; an admitted score is noted as the last of
-- its host, and the other hosts keep theirs unless the map is full; and the map holds no more than
-- 10 000 hosts, each once, if it did before.
pub admit-Answers :
    (c : Cooldown) (host : Text) (ts : ℕ) → Answers c host ts (Analytics.admit c host ts)
admit-Answers c host ts = elim (Bool-cases (Analytics.is_cooling (last_of c host) ts)) [
  | inl h ↦ subst (Answers c host ts) (sym (refusing c host ts h)) (refused-Answers c host ts h)
  | inr h ↦ subst (Answers c host ts) (sym (admitting c host ts h)) (admitted-Answers c host ts h)
]

-- ===== src/Store/Readiness/Meaning.antt =====
-- web/lib/operations.ts, `checkpointReadiness`: when it gives no reason.
use event_recommender.Prelude.{
  ℕ, ◌+◌, ◌*◌, ◌≤◌, ◌<◌, ◌≡◌, ◌↔◌, refl, Bool, true, false, ◌&&◌, ◌||◌, not, Option, none, some, [],
  ◌++◌, ltb, arith,
}
use event_recommender.Prelude.Text.{Text, codes}
use event_recommender.Prelude.Number.{
  Number, nan, minus_infinity, infinity, millionths, minus, num, num_le, num_lt,
}
use event_recommender.Prelude.Value.{
  Value, Values, Conversions, no_values, with_value, field, to_number,
}
use event_recommender.Store.Status.{CatalogState, ready, stale, empty}
use event_recommender.Store.Readiness.{
  Catalog, Checkpoint, Reason, catalog_not_ready, checkpoint_stale, source_absence,
  major_catalog_drop, is_ready, is_major_drop, is_day_old, earlier, has_missing,
  checkpoint_readiness, pointer_reasons, reason_if,
}

-- A catalog that serves, and a whole checkpoint whose report and copy are both under a day old
-- where both times can be read, and of which neither count has fallen below a half.
pub record IsReady (by : Conversions) (parse : Text → Option ℕ) (catalog : Catalog) (p : Checkpoint)
    (now : ℕ) : Type 0 where
  pub serves : catalog.status ≡ ready
  pub has_events : 1 ≤ catalog.eligible
  pub today :
      (saved finished : ℕ)
      → parse p.saved_at ≡ some saved
      → parse p.finished_at ≡ some finished
      → (now < saved + 86_400_000) × (now < finished + 86_400_000)
  pub complete :
      (vs : Values) → field (codes "missingSources") p.summary ≡ Value.array vs → vs ≡ no_values
  pub kept_events : 100 ≤ p.events → p.events ≤ catalog.stored * 2
  pub kept_available :
      num_le (num 100) (to_number by (field (codes "available") p.summary)) ≡ true
      → num_le (to_number by (field (codes "available") p.summary)) (num (catalog.eligible * 2))
        ≡ true

no_reasons :
    (a b c d : Bool) (r s t u : Reason)
    → (reason_if a r ++ (reason_if b s ++ reason_if c t ++ reason_if d u) ≡ [])
      ↔ ((a ≡ false) × (b ≡ false) × (c ≡ false) × (d ≡ false))
no_reasons true b c d r s t u = ground arith
no_reasons false true c d r s t u = ground arith
no_reasons false false true d r s t u = ground arith
no_reasons false false false true r s t u = ground arith
no_reasons false false false false r s t u = (λ h. (refl, refl, refl, refl), λ h. refl)

not_stale :
    (now : ℕ) (a b : Option ℕ)
    → (is_day_old now (earlier a b) ≡ false) ↔ (
        (saved finished : ℕ)
        → a ≡ some saved
        → b ≡ some finished
        → (now < saved + 86_400_000) × (now < finished + 86_400_000))
not_stale now none b = (λ h saved finished e f. cc, λ h. refl)
not_stale now (some a) none = (λ h saved finished e f. cc, λ h. refl)
not_stale now (some a) (some b) = (
  λ h saved finished e f. ground arith,
  λ h. let (x, y) = h a b refl refl in ground (arith, x, y),
)

none_missing :
    (v : Value) → (has_missing v ≡ false) ↔ ((vs : Values) → v ≡ Value.array vs → vs ≡ no_values)
none_missing Value.undefined = (λ h vs e. cc, λ h. refl)
none_missing Value.null = (λ h vs e. cc, λ h. refl)
none_missing (Value.boolean b) = (λ h vs e. cc, λ h. refl)
none_missing (Value.number n) = (λ h vs e. cc, λ h. refl)
none_missing (Value.text t) = (λ h vs e. cc, λ h. refl)
none_missing (Value.object f) = (λ h vs e. cc, λ h. refl)
none_missing (Value.array no_values) = (λ h vs e. cc, λ h. refl)
none_missing (Value.array (with_value v vs)) =
    (λ h us e. cc, λ h. absurd (with_value-ne (h (with_value v vs) refl)))
  where
    with_value-ne : {v : Value} {vs : Values} → ¬ with_value v vs ≡ no_values
    with_value-ne e = cc

not_below_half :
    (n : Number) (m : ℕ)
    → ((num_le (num 100) n && num_lt (num m) n) ≡ false)
      ↔ (num_le (num 100) n ≡ true → num_le n (num m) ≡ true)
unfolding num_le num_lt
not_below_half nan m = ground arith
not_below_half minus_infinity m = ground arith
not_below_half infinity m = ground arith
not_below_half (millionths n) m = ground arith
not_below_half (minus n) m = ground arith

serves_iff :
    (s : CatalogState) (eligible : ℕ)
    → ((not (is_ready s) || not (ltb 0 eligible)) ≡ false) ↔ ((s ≡ ready) × (1 ≤ eligible))
serves_iff ready n = ground arith
serves_iff stale n = ground arith
serves_iff empty n = ground arith

kept_iff :
    (catalog : Catalog) (events : ℕ) (n : Number)
    → (is_major_drop catalog events n ≡ false) ↔ (
        (100 ≤ events → events ≤ catalog.stored * 2)
        × (num_le (num 100) n ≡ true → num_le n (num (catalog.eligible * 2)) ≡ true))
kept_iff catalog events n =
    let (there, back) = not_below_half n (catalog.eligible * 2) in
    (λ h. (ground arith, there (ground arith)), λ (x, y). let z = back y in ground arith)

-- For a checkpoint, no reason is given exactly if the catalog is ready with an eligible event, both
-- times of the checkpoint are less than a day old (where both can be parsed), `missingSources` is
-- no array or an empty one, a checkpoint of 100 events or more has at most twice the events now
-- stored, and so it is with `available` and the events now eligible.
pub no_reason_iff :
    (by : Conversions) (parse : Text → Option ℕ) (catalog : Catalog) (p : Checkpoint) (now : ℕ)
    → (checkpoint_readiness by parse catalog (some p) now ≡ []) ↔ IsReady by parse catalog p now
unfolding checkpoint_readiness pointer_reasons
no_reason_iff by parse catalog p now =
    let missing = field (codes "missingSources") p.summary in
    let available = to_number by (field (codes "available") p.summary) in
    let times = earlier (parse p.saved_at) (parse p.finished_at) in
    let (there, back) =
      no_reasons (not (is_ready catalog.status) || not (ltb 0 catalog.eligible))
        (is_day_old now times) (has_missing missing) (is_major_drop catalog p.events available)
        catalog_not_ready checkpoint_stale source_absence major_catalog_drop in
    let (serves, unserved) = serves_iff catalog.status catalog.eligible in
    let (fresh, old) = not_stale now (parse p.saved_at) (parse p.finished_at) in
    let (whole, partial) = none_missing missing in
    let (kept, dropped) = kept_iff catalog p.events available in
    (
      λ h.
          let (a, b, c, d) = there h in
          record {
            serves = (serves a).0;
            has_events = (serves a).1;
            today = fresh b;
            complete = whole c;
            kept_events = (kept d).0;
            kept_available = (kept d).1;
          },
      λ w. back (
        unserved (w.serves, w.has_events),
        old w.today,
        partial w.complete,
        dropped (w.kept_events, w.kept_available),
      ),
    )

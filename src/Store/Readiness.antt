-- ===== src/Store/Readiness.antt =====
-- web/lib/operations.ts, lines 94 to 123: the reasons why a deployment is not ready.
-- `parse` is Date.parse of a checkpoint's time, none for NaN; times are from 1970 on.
pub mod Meaning
use event_recommender.Prelude.{
  ℕ, ◌-◌, ◌*◌, Bool, true, false, ◌&&◌, ◌||◌, not, Option, none, some, List, [], ◌∷◌, ◌++◌,
  if◌then◌else◌, ltb, leb,
}
use event_recommender.Prelude.Text.{Text, codes}
use event_recommender.Prelude.Number.{Number, num, num_le, num_lt}
use event_recommender.Prelude.Value.{Value, Fields, Conversions, with_value, field, to_number}
use event_recommender.Store.Status.{CatalogState, ready, hours}

pub data Reason : Type 0 where
  catalog_not_ready checkpoint_missing checkpoint_stale source_absence major_catalog_drop : Reason

-- The fields of the catalog's status that are read.
pub record Catalog : Type 0 where
  pub status : CatalogState
  pub stored : ℕ
  pub eligible : ℕ

-- A checkpoint; its summary is an object of any fields.
pub record Checkpoint : Type 0 where
  pub saved_at : Text
  pub finished_at : Text
  pub events : ℕ
  pub summary : Fields

abbrev pub is_ready : CatalogState → Bool
is_ready ready = true
is_ready _ = false

-- Math.min of two times, which is NaN if one of them is.
abbrev pub earlier : Option ℕ → Option ℕ → Option ℕ
earlier none b = none
earlier (some a) none = none
earlier (some a) (some b) = some (if leb a b then a else b)

-- now - time >= 24 * 3600000
abbrev pub is_day_old : (now : ℕ) → Option ℕ → Bool
is_day_old now none = false
is_day_old now (some time) = leb (hours 24) (now - time)

-- Array.isArray(missingSources) && missingSources.length
abbrev pub has_missing : Value → Bool
has_missing (Value.array (with_value v vs)) = true
has_missing _ = false

abbrev reason_if : Bool → Reason → List Reason
reason_if true reason = reason ∷ []
reason_if false reason = []

abbrev pub is_major_drop : Catalog → (events : ℕ) → (previous_available : Number) → Bool
is_major_drop catalog events previous_available =
    (leb 100 events && ltb (catalog.stored * 2) events)
    || (num_le (num 100) previous_available
        && num_lt (num (catalog.eligible * 2)) previous_available)

module _ (by : Conversions) (parse : Text → Option ℕ) where
  unfoldable pub pointer_reasons : Catalog → Option Checkpoint → (now : ℕ) → List Reason
  unfolding field to_number num_le num_lt
  pointer_reasons catalog none now = checkpoint_missing ∷ []
  pointer_reasons catalog (some p) now =
      reason_if (is_day_old now (earlier (parse p.saved_at) (parse p.finished_at))) checkpoint_stale
      ++ reason_if (has_missing (field (codes "missingSources") p.summary)) source_absence
      ++ reason_if
          (is_major_drop catalog p.events (to_number by (field (codes "available") p.summary)))
          major_catalog_drop

  unfoldable pub checkpoint_readiness : Catalog → Option Checkpoint → (now : ℕ) → List Reason
  unfolding pointer_reasons
  checkpoint_readiness catalog pointer now =
      reason_if (not (is_ready catalog.status) || not (ltb 0 catalog.eligible)) catalog_not_ready
      ++ pointer_reasons catalog pointer now

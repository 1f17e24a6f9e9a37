-- ===== src/Store/Status.antt =====
-- web/lib/store.gcp.ts, lines 192 to 220: the status of a catalog, from its events' times.
-- `iso` is toISOString of a time in milliseconds, `parse` is Date.parse.
pub mod Meaning
use event_recommender.Prelude.{
  ℕ, ◌+◌, ◌-◌, ◌*◌, Bool, true, false, ◌&&◌, ◌||◌, not, Option, none, some, List, [], ◌∷◌,
  if◌then◌else◌, ltb, length,
}
use event_recommender.Prelude.Text.{Text, codes, text_eq, text_lt, text_le}
use event_recommender.Plan.Validate.{truthy, text_or_empty}

-- What the status reads of an event.
pub record StatusEvent : Type 0 where
  pub starts_at : Text
  pub checked_at : Text
  pub availability : Text

pub data CatalogState : Type 0 where
  ready stale empty : CatalogState

pub record CatalogStatus : Type 0 where
  pub status : CatalogState
  pub stored : ℕ
  pub eligible : ℕ
  pub last_checked_at : Option Text
  pub oldest_checked_at : Option Text
  pub expires_at : Option Text

-- The variables of the loop.
pub record Counts : Type 0 where
  pub oldest : Option Text
  pub last : Option Text
  pub eligible : ℕ
  pub fresh : ℕ

abbrev pub no_counts : Counts
no_counts = record { oldest = none; last = none; eligible = 0; fresh = 0 }

abbrev older : Option Text → Text → Option Text
older oldest t = if not (truthy oldest) || text_lt t (text_or_empty oldest) then some t else oldest

abbrev newer : Option Text → Text → Option Text
newer last t = if not (truthy last) || text_lt (text_or_empty last) t then some t else last

-- One round of the loop.
unfoldable pub count_event : (cutoff time : Text) → Counts → StatusEvent → Counts
count_event cutoff time c e = record {
  oldest = older c.oldest e.checked_at;
  last = newer c.last e.checked_at;
  fresh = if text_le cutoff e.checked_at then c.fresh + 1 else c.fresh;
  eligible =
      if text_le cutoff e.checked_at
        && (text_le time e.starts_at && text_eq e.availability (codes "available"))
      then c.eligible + 1
      else c.eligible;
}

unfoldable pub count_events : (cutoff time : Text) → Counts → List StatusEvent → Counts
unfolding count_event
count_events cutoff time c [] = c
count_events cutoff time c (e ∷ es) = count_events cutoff time (count_event cutoff time c e) es

abbrev state_of : (stored eligible fresh : ℕ) → CatalogState
state_of stored eligible fresh =
    if ltb 0 eligible then ready else if ltb 0 stored && not (ltb 0 fresh) then stale else empty

abbrev pub hours : ℕ → ℕ
hours n = n * 3_600_000

abbrev expiry_of : (iso : ℕ → Text) (parse : Text → ℕ) → Option Text → Option Text
expiry_of iso parse none = none
expiry_of iso parse (some t) = if truthy (some t) then some (iso (parse t + hours 72)) else none

unfoldable pub status_for :
    (iso : ℕ → Text) (parse : Text → ℕ) → List StatusEvent → (now : ℕ) → CatalogStatus
status_for iso parse events now =
    let c = count_events (iso (now - hours 72)) (iso now) no_counts events in
    record {
      status = state_of (length events) c.eligible c.fresh;
      stored = length events;
      eligible = c.eligible;
      last_checked_at = c.last;
      oldest_checked_at = c.oldest;
      expires_at = expiry_of iso parse c.last;
    }

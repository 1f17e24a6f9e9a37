-- ===== src/Store/Sources.antt =====
-- web/lib/source-page.ts, contracts/source-evidence.ts, lines 1 to 11, and web/lib/store.gcp.ts,
-- lines 635 to 682: the import of source pages. `Import` is what the platform does: the SHA-256
-- digest, JSON.stringify of a page, the size of a text in bytes, the test of a timestamp
-- (`new Date(Date.parse(t)).toISOString() === t`), and what other processes commit, and how the
-- clock moves, while a page is being uploaded.
pub mod Newest
use event_recommender.Prelude.{
  ℕ, ◌+◌, Bool, true, false, ◌&&◌, ◌||◌, not, Option, none, some, List, [], ◌∷◌, ◌++◌, every,
  is_some, if◌then◌else◌, ltb, leb, ◌==◌, length, Result, ok, err, guard, ◌>>=◌, ◌>>◌,
}
use event_recommender.Prelude.Text.{Text, codes, text_eq, text_lt, text_le, includes}
use event_recommender.Plan.Validate.{truthy, text_or_empty}
use event_recommender.Store.{
  Lease, Documents, SourceHead, SourceKind, active, retired, quarantined, set_at,
}
use event_recommender.Store.Leases.{live_lease, require_lease_kind}

-- What the import reads of an event.
pub record PageEvent : Type 0 where
  pub url : Text
  pub checked_at : Text

pub record SourcePage : Type 0 where
  pub url : Text
  pub events : List PageEvent
  pub retired_at : Option Text
  pub quarantined_at : Option Text
  pub quarantine_reason : Option Text

pub record PageTimes : Type 0 where
  pub checked : Text
  pub latest : Text
  pub kind : SourceKind

-- The documents that the import reads and writes.
pub record Control : Type 0 where
  pub leases : Documents Lease
  pub sources : Documents SourceHead

pub record Import : Type 0 where
  pub digest : Text → Text
  pub stringify : SourcePage → Text
  pub byte_count : Text → ℕ
  pub is_timestamp : Text → Bool
  pub during : SourcePage → Control → Control
  pub clock : SourcePage → ℕ

quarantine_reasons : List Text
quarantine_reasons =
    codes "session_time_conflict"
    ∷ codes "session_availability_conflict"
    ∷ codes "venue_conflict"
    ∷ []

unfoldable pub is_source_quarantine_reason : Option Text → Bool
unfolding quarantine_reasons
is_source_quarantine_reason none = false
is_source_quarantine_reason (some reason) = includes quarantine_reasons reason

-- The first and the last of the sorted stamps.
abbrev pub earliest : Text → List PageEvent → Text
earliest t [] = t
earliest t (e ∷ es) = if text_le t e.checked_at then earliest t es else earliest e.checked_at es

abbrev pub newest : Text → List PageEvent → Text
newest t [] = t
newest t (e ∷ es) = if text_le t e.checked_at then newest e.checked_at es else newest t es

-- The times of a page without events, by the stamp that retires or quarantines it.
unfoldable pub empty_page_times : (is_timestamp : Text → Bool) → SourcePage → Result PageTimes
unfolding is_some
empty_page_times is_timestamp page =
    let is_retired = is_some page.retired_at in
    let is_quarantined = is_some page.quarantined_at || is_some page.quarantine_reason in
    let value = text_or_empty (if is_retired then page.retired_at else page.quarantined_at) in
    guard (is_retired || is_quarantined) "Invalid source retirement"
    >> guard (not (is_retired && is_quarantined)) "Invalid empty source page"
    >> guard (not is_quarantined || is_source_quarantine_reason page.quarantine_reason)
        "Invalid source quarantine"
    >> guard (is_timestamp value)
        (if is_retired then "Invalid source retirement" else "Invalid source quarantine")
    >> ok (record {
      checked = value;
      latest = value;
      kind = if is_retired then retired else quarantined;
    })

abbrev pub from_page : Text → PageEvent → Bool
from_page url e = text_eq e.url url

abbrev pub times_of : (is_timestamp : Text → Bool) → SourcePage → List PageEvent → Result PageTimes
times_of is_timestamp page [] = empty_page_times is_timestamp page
times_of is_timestamp page (e ∷ es) =
    guard
      (not
        (is_some page.retired_at || is_some page.quarantined_at || is_some page.quarantine_reason))
      "Nonempty inactive source"
    >> ok (record {
      checked = earliest e.checked_at es;
      latest = newest e.checked_at es;
      kind = active;
    })

unfoldable pub source_page_times : (is_timestamp : Text → Bool) → SourcePage → Result PageTimes
unfolding every
source_page_times is_timestamp page =
    guard (every (from_page page.url) page.events) "Invalid source page"
    >> times_of is_timestamp page page.events

-- The stored head is newer than the page, or it is an empty page of the same time.
unfoldable pub is_outdated : Option SourceHead → Text → ℕ → Bool
is_outdated none checked events = false
is_outdated (some head) checked events =
    truthy (some head.checked_at)
    && (text_lt checked head.checked_at
        || (text_eq head.checked_at checked && head.events == 0 && ltb 0 events))

abbrev pub after_lease :
    Result (Unit {0}) → Control → (path checked : Text) → SourceHead → Result Bool × Control
after_lease (err e) c path checked head = (err e, c)
after_lease (ok _) c path checked head =
    if is_outdated (c.sources path) checked head.events
    then (ok false, c)
    else (ok true, record c { sources = set_at c.sources path (some head) })

-- The transaction that commits a page: whether it changed the head, and the documents after it.
unfoldable pub commit_page :
    Control
    → (time : ℕ) (lease : Lease) (lock_path path checked : Text) (head : SourceHead)
    → Result Bool × Control
commit_page c time lease lock_path path checked head =
    after_lease (live_lease c.leases lease lock_path time) c path checked head

module _ (im : Import) (namespace : Text) (lease : Lease) where
  abbrev pub head_of : SourcePage → PageTimes → SourceHead
  head_of page times = record {
    url = page.url;
    key =
        codes "sources/"
        ++ namespace
        ++ codes "/"
        ++ im.digest page.url
        ++ codes "/"
        ++ im.digest (im.stringify page)
        ++ codes ".json";
    hash = im.digest (im.stringify page);
    checked_at = times.latest;
    events = length page.events;
    kind = some times.kind;
  }

  -- The page is read, skipped if it is old, uploaded, and then committed or skipped.
  abbrev pub store_page : Control → (path : Text) → SourcePage → PageTimes → Result Bool × Control
  store_page c path page times =
      if is_outdated (c.sources path) times.checked (length page.events)
      then (ok false, c)
      else commit_page (im.during page c) (im.clock page) lease (im.digest lease.key) path
          times.checked (head_of page times)

  abbrev pub checked_times : SourcePage → Result PageTimes
  checked_times page = source_page_times im.is_timestamp page >>= λ times.
      guard (leb (im.byte_count (im.stringify page)) 4_000_000) "Source page exceeds limit"
      >> ok times

  abbrev pub with_times : Control → SourcePage → Result PageTimes → Result Bool × Control
  with_times c page (err e) = (err e, c)
  with_times c page (ok times) = store_page c (im.digest page.url) page times

  unfoldable pub import_page : Control → SourcePage → Result Bool × Control
  import_page c page = with_times c page (checked_times page)

  -- The rest of the import after a page: `changed` and `unchanged` are what follows either way.
  abbrev pub go_on :
      (changed unchanged : Result (ℕ × ℕ) × Control)
      → Result Bool × Control
      → Result (ℕ × ℕ) × Control
  go_on changed unchanged (err e, c) = (err e, c)
  go_on changed unchanged (ok true, c) = changed
  go_on changed unchanged (ok false, c) = unchanged

  -- imported and skipped; a page that throws ends the import, and what was committed stays.
  unfoldable pub import_each :
      (imported skipped : ℕ) → Control → List SourcePage → Result (ℕ × ℕ) × Control
  import_each imported skipped c [] = (ok (imported, skipped), c)
  import_each imported skipped c (page ∷ pages) =
      let after = import_page c page in
      let changed = import_each (imported + length page.events) skipped after.1 pages in
      let unchanged = import_each imported (skipped + 1) after.1 pages in
      go_on changed unchanged after

  abbrev pub with_kind : Control → List SourcePage → Result (Unit {0}) → Result (ℕ × ℕ) × Control
  with_kind c pages (err e) = (err e, c)
  with_kind c pages (ok _) = import_each 0 0 c pages

  unfoldable pub import_pages : Control → List SourcePage → Result (ℕ × ℕ) × Control
  import_pages c pages = with_kind c pages (require_lease_kind lease (codes "sync_lock" ∷ []))

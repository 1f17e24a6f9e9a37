-- ===== src/Catalog/Build.antt =====
-- web/lib/materialized-catalog.ts, lines 268 to 459: the catalog with a version for each time at
-- which it changes, and the choice of the versions in force. `preparedSearch`, which is
-- computed from each event for the ranking, is left out.
pub mod Times
pub mod Versions
pub mod Fresh
use event_recommender.Prelude.{
  ℕ, zero, suc, ◌+◌, ◌*◌, ◌-◌, Bool, true, false, ◌&&◌, ◌||◌, not, Option, none, some, List, [],
  ◌∷◌, ◌++◌, if◌then◌else◌, ltb, ◌==◌, any_of, Result, ok, err, ◌>>=◌,
}
use event_recommender.Prelude.Text.{Text, codes, text_eq, includes}
use event_recommender.Prelude.Sorting.{sort_by, distinct_onto}
use event_recommender.Identity.Listing.{AttendanceTiming}
use event_recommender.Catalog.Event.{Availability, CatalogEvent, Filters, empty_filters}
use event_recommender.Catalog.Eligible.{Readings, is_eligible}
use event_recommender.Catalog.Offers.{Texts, keep}
use event_recommender.Catalog.Project.{
  EvidenceChecks, or_blank, event_order, insufficient, project_resolved_session,
}

-- A session of resolveEventRecordIdentity, its listings' events looked up; it has at least one.
pub record SessionEvents : Type 0 where
  pub id : Text
  pub venue_id : Text
  pub first : CatalogEvent
  pub others : List CatalogEvent

-- resolveEventRecordIdentity, identityFamilies, the checks of a source's text for contradictions,
-- categoryForEvent, JSON.stringify of events with the length of its UTF-8 bytes, and toISOString.
pub record Resolution : Type 0 where
  pub sessions : List CatalogEvent → List SessionEvents
  pub identity_families : List CatalogEvent → List (List CatalogEvent)
  pub contradicts_itself : CatalogEvent → Bool
  pub category_for_event : (category title description : Text) → Text
  pub events_json : List CatalogEvent → Text
  pub byte_length : Text → ℕ
  pub to_iso_string : ℕ → Text

pub record Version : Type 0 where
  pub from : ℕ
  pub events : List CatalogEvent

pub record SourceStatus : Type 0 where
  pub starts_at : Text
  pub checked_at : Text
  pub availability : Availability

pub record SearchCatalog : Type 0 where
  pub materialized_at : Text
  pub source_status : List SourceStatus
  pub groups : List (List Version)

abbrev pub ids_of : List CatalogEvent → List Text
ids_of [] = []
ids_of (e ∷ es) = e.id ∷ ids_of es

abbrev pub source_status_of : List CatalogEvent → List SourceStatus
source_status_of [] = []
source_status_of (e ∷ es) =
    record { starts_at = e.starts_at; checked_at = e.checked_at; availability = e.availability }
    ∷ source_status_of es

-- A set of times, and its sort.
abbrev pub add_time : List ℕ → ℕ → List ℕ
add_time [] time = time ∷ []
add_time (t ∷ ts) time = let rest = add_time ts time in if t == time then t ∷ ts else t ∷ rest

abbrev pub add_later : (at : ℕ) → List ℕ → Option ℕ → List ℕ
add_later at times none = times
add_later at times (some time) = if ltb at time then add_time times time else times

abbrev pub time_plus : ℕ → Option ℕ → Option ℕ
time_plus n (some time) = some (time + n)
time_plus n none = none

abbrev pub time_minus : ℕ → Option ℕ → Option ℕ
time_minus n (some time) = some (time - n)
time_minus n none = none

-- The last version that has begun; `for` with `break`.
unfoldable pub select_version :
    (time : ℕ) → (selected : List CatalogEvent) → List Version → List CatalogEvent
select_version time selected [] = selected
select_version time selected (version ∷ versions) =
    let rest = select_version time version.events versions in
    if ltb time version.from then selected else rest

module _ (readings : Readings) (texts : Texts) (evidence : EvidenceChecks)
    (resolution : Resolution) where
  abbrev ambiguous_of : (conflicts : List Text) → List SessionEvents → List Text → List Text
  ambiguous_of conflicts [] ids = ids
  ambiguous_of conflicts (session ∷ sessions) ids =
      let listed = session.first.id ∷ ids_of session.others in
      ambiguous_of conflicts sessions
        (if any_of (includes conflicts) listed then distinct_onto ids listed else ids)

  abbrev ambiguous_from : (conflicts : List Text) → List CatalogEvent → List Text
  ambiguous_from [] events = []
  ambiguous_from (id ∷ ids) events = ambiguous_of (id ∷ ids) (resolution.sessions events) (id ∷ ids)

  unfoldable pub ambiguous_source_evidence_ids : List CatalogEvent → List Text
  unfolding any_of keep includes
  ambiguous_source_evidence_ids events =
      ambiguous_from (distinct_onto [] (ids_of (keep resolution.contradicts_itself events))) events

  abbrev category_or : Option Text → Text → Text
  category_or (some category) other = category
  category_or none other = other

  unfoldable pub corrected : CatalogEvent → CatalogEvent
  unfolding includes text_eq
  corrected e =
      let verified =
        resolution.category_for_event (category_or e.source_category e.category) e.title
          e.description in
      if includes (codes "Stand-up" ∷ codes "Gezi" ∷ []) verified
        && not (text_eq e.category verified)
      then record e { category = verified }
      else e

  abbrev pub later_of : ℕ → ℕ → ℕ
  later_of a b = if ltb a b then b else a

  -- Eligible now, or when its check is no longer ahead of the clock.
  abbrev eligible_from : Option ℕ → (at : ℕ) → CatalogEvent → Bool
  eligible_from none at e = false
  eligible_from (some checked) at e =
      is_eligible readings e empty_filters (later_of at (checked - 300_000))

  unfoldable pub eligible_events :
      (ambiguous : List Text) → (at : ℕ) → List CatalogEvent → List CatalogEvent
  unfolding corrected includes
  eligible_events ambiguous at [] = []
  eligible_events ambiguous at (e ∷ es) =
      let rest = eligible_events ambiguous at es in
      if includes ambiguous e.id
      then rest
      else if eligible_from (readings.date_parse (corrected e).checked_at) at (corrected e)
      then corrected e ∷ rest
      else rest

  -- The times after `at` at which the eligibility of a member changes.
  unfoldable pub boundaries : (at : ℕ) → (found : List ℕ) → List CatalogEvent → List ℕ
  boundaries at found [] = found
  boundaries at found (e ∷ es) =
      let checked = readings.date_parse e.checked_at in
      let start = readings.date_parse e.starts_at in
      boundaries at
        (add_later at
          (add_later at (add_later at found (time_minus 300_000 checked))
            (time_plus 259_200_001 checked))
          (time_plus 1 start))
        es

  abbrev is_exhibition : CatalogEvent → Bool
  is_exhibition e = includes (codes "Müze" ∷ codes "Sergi" ∷ []) e.category

  abbrev with_unknown : Option AttendanceTiming → CatalogEvent → CatalogEvent
  with_unknown none e =
      if is_exhibition e then record e { attendance_timing = some insufficient } else e
  with_unknown (some timing) e = e

  abbrev projected : List SessionEvents → List CatalogEvent
  projected [] = []
  projected (session ∷ sessions) =
      let e =
        project_resolved_session texts evidence session.first session.others session.id
          session.venue_id in
      with_unknown e.attendance_timing e ∷ projected sessions

  -- The sessions of the members that are eligible at a time.
  unfoldable pub sessions_at : List CatalogEvent → (time : ℕ) → List CatalogEvent
  unfolding keep includes project_resolved_session
  sessions_at members time =
      projected
        (resolution.sessions (keep (λ e. is_eligible readings e empty_filters time) members))

  abbrev before_versions :
      ℕ → List CatalogEvent → Result (ℕ × List Version) → Result (ℕ × List Version)
  before_versions time merged (ok (total, versions)) =
      ok (total, record { from = time; events = merged } ∷ versions)
  before_versions time merged (err message) = err message

  -- With this version the catalog has that many bytes.
  abbrev put_version :
      (bytes time : ℕ) → List CatalogEvent → Result (ℕ × List Version) → Result (ℕ × List Version)
  put_version bytes time merged rest =
      if ltb 134_217_728 bytes
      then err "Search catalog exceeds limit"
      else before_versions time merged rest

  -- A version is kept if its JSON differs from the one before.
  unfoldable pub build_versions :
      (members : List CatalogEvent)
      → (previous : Text) → (bytes : ℕ) → List ℕ
      → Result (ℕ × List Version)
  unfolding sessions_at text_eq
  build_versions members previous bytes [] = ok (bytes, [])
  build_versions members previous bytes (time ∷ times) =
      let merged = sessions_at members time in
      let serialized = resolution.events_json merged in
      let same = text_eq serialized previous in
      let size = if same then bytes else bytes + resolution.byte_length serialized + 64 in
      let rest = build_versions members serialized size times in
      if same then rest else put_version size time merged rest

  unfoldable pub build_groups :
      (at bytes : ℕ) → List (List CatalogEvent) → Result (List (List Version))
  unfolding build_versions boundaries
  build_groups at bytes [] = ok []
  build_groups at bytes (members ∷ families) =
      build_versions members [] bytes (sort_by ltb (boundaries at (at ∷ []) members)) >>= λ found.
      build_groups at found.0 families >>= λ groups. ok (found.1 ∷ groups)

  abbrev pub families_at : List CatalogEvent → (at : ℕ) → List (List CatalogEvent)
  families_at events at =
      resolution.identity_families
        (eligible_events (ambiguous_source_evidence_ids events) at events)

  unfoldable pub build_search_catalog : List CatalogEvent → (at : ℕ) → Result SearchCatalog
  unfolding build_groups ambiguous_source_evidence_ids eligible_events
  build_search_catalog events at = build_groups at 0 (families_at events at) >>= λ groups.
      ok (record {
        materialized_at = resolution.to_iso_string at;
        source_status = source_status_of events;
        groups = groups;
      })

  unfoldable pub candidates_of : Filters → (time : ℕ) → List (List Version) → List CatalogEvent
  unfolding select_version keep
  candidates_of filters time [] = []
  candidates_of filters time (versions ∷ groups) =
      keep (λ e. is_eligible readings e filters time) (select_version time [] versions)
      ++ candidates_of filters time groups

  abbrev pub candidate_before : CatalogEvent → CatalogEvent → Bool
  candidate_before a b =
      texts.locale_lt a.starts_at b.starts_at
      || (not (texts.locale_lt b.starts_at a.starts_at) && event_order texts evidence a b)

  abbrev predates : (time : ℕ) → Option ℕ → Bool
  predates time (some materialized) = ltb time materialized
  predates time none = false

  unfoldable pub search_catalog_candidates :
      SearchCatalog → Filters → (time : ℕ) → Result (List CatalogEvent)
  unfolding candidates_of
  search_catalog_candidates catalog filters time =
      if predates time (readings.date_parse catalog.materialized_at)
      then err "Search catalog predates requested time"
      else ok (sort_by candidate_before (candidates_of filters time catalog.groups))

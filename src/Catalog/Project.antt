-- ===== src/Catalog/Project.antt =====
-- web/lib/materialized-catalog.ts, lines 35 to 91 and 165 to 266: the event that stands for a
-- session. Of the fields that it copies unread, CatalogEvent has none.
use event_recommender.Prelude.{
  Bool, true, false, ◌&&◌, ◌||◌, not, Option, none, some, List, [], ◌∷◌, ◌++◌, if◌then◌else◌,
  any_of, every,
}
use event_recommender.Prelude.Text.{take_units, Text, codes, text_eq}
use event_recommender.Prelude.Sorting.{sort_by, sort_texts, distinct_onto}
use event_recommender.Identity.Listing.{AttendanceTiming, NormalizedTitle}
use event_recommender.Catalog.Event.{CatalogEvent}
use event_recommender.Catalog.Offers.{
  Texts, first_or, keep, find_first, same_source, unique_offers, selected_offer,
}

-- normalizedEvidence and hasPositiveStandupEvidence, which are patterns; sourceTimeIsDoorsOnly,
-- normalizeTitleKey, normalizeIdentityText, String.prototype.trim and canonicalHash.
pub record EvidenceChecks : Type 0 where
  pub normalized_evidence : Text → Text
  pub has_positive_standup_evidence : CatalogEvent → Bool
  pub doors_only : Text → Bool
  pub normalize_title_key : (title category : Text) → NormalizedTitle
  pub normalize_identity_text : Text → Text
  pub trim : Text → Text
  pub canonical_hash : (kind : Text) → List Text → Text

abbrev pub or_blank : Option Text → Text
or_blank (some t) = t
or_blank none = []

abbrev pub no_elements {ℓ} : {A : Type ℓ} → List A → Bool
no_elements [] = true
no_elements (x ∷ xs) = false

-- Map.set, the entries in order of insertion.
unfoldable pub put_text : List (Text × Text) → (key value : Text) → List (Text × Text)
put_text [] key value = (key, value) ∷ []
put_text ((k, v) ∷ rest) key value =
    let others = put_text rest key value in
    if text_eq k key then (key, value) ∷ rest else (k, v) ∷ others

abbrev pub only_value : List (Text × Text) → Text
only_value ((key, value) ∷ []) = value
only_value _ = []

abbrev pub insufficient : AttendanceTiming
insufficient = AttendanceTiming.unknown

abbrev pub timings_of : List CatalogEvent → List AttendanceTiming
timings_of [] = []
timings_of (e ∷ es) = onto e.attendance_timing (timings_of es)
  where
    onto : Option AttendanceTiming → List AttendanceTiming → List AttendanceTiming
    onto (some timing) timings = timing ∷ timings
    onto none timings = timings

abbrev pub merged_ids_of : Option (List Text) → List Text
merged_ids_of (some ids) = ids
merged_ids_of none = []

-- What is added to the set of merged ids.
abbrev pub all_ids : List CatalogEvent → List Text
all_ids [] = []
all_ids (e ∷ es) = e.id ∷ (merged_ids_of e.merged_ids ++ all_ids es)

module _ (texts : Texts) (evidence : EvidenceChecks) where
  unfoldable pub event_order : CatalogEvent → CatalogEvent → Bool
  event_order a b =
      let lt = texts.locale_lt in
      let s = or_blank a.source in
      let t = or_blank b.source in
      lt s t || (not (lt t s) && (lt a.url b.url || (not (lt b.url a.url) && lt a.id b.id)))

  abbrev is_standup : CatalogEvent → Bool
  is_standup e = text_eq e.category (codes "Stand-up")

  -- The first of the standup events with evidence, or of the standup events, or of those with
  -- evidence, or of all.
  unfoldable pub representative_of : (first : CatalogEvent) → List CatalogEvent → CatalogEvent
  unfolding text_eq event_order
  representative_of first events =
      let has = evidence.has_positive_standup_evidence in
      let shows = any_of has events in
      let candidates = if shows then keep (λ e. is_standup e && has e) events else [] in
      let categorized = if shows then keep is_standup events else [] in
      let evidenced = if shows then keep has events else [] in
      first_or first (
        sort_by event_order (
          if not (no_elements candidates)
          then candidates
          else if not (no_elements categorized)
          then categorized
          else if not (no_elements evidenced)
          then evidenced
          else events))

  abbrev agreed : List CatalogEvent → List AttendanceTiming → Option AttendanceTiming
  agreed events [] =
      if any_of (λ e. evidence.doors_only e.description) events then some insufficient else none
  agreed events (timing ∷ timings) =
      if every (λ other. text_eq (texts.timing_json other) (texts.timing_json timing)) timings
      then some timing
      else some insufficient

  unfoldable pub attendance_of : List CatalogEvent → Option AttendanceTiming
  unfolding every any_of text_eq
  attendance_of events = agreed events (timings_of events)

  abbrev addresses_of : List (Text × Text) → List CatalogEvent → List (Text × Text)
  addresses_of found [] = found
  addresses_of found (e ∷ es) =
      let with_this = put_text found (evidence.normalized_evidence e.address) e.address in
      addresses_of (if no_elements (evidence.trim e.address) then found else with_this) es

  abbrev pub or_timing : Option AttendanceTiming → Option AttendanceTiming → Option AttendanceTiming
  or_timing (some timing) other = some timing
  or_timing none other = other

  abbrev pub source_field {ℓ} :
      {A : Type ℓ} → (CatalogEvent → Option A) → Option CatalogEvent → Option A
  source_field field (some e) = field e
  source_field field none = none

  -- A session has at least one event, the first.
  unfoldable pub project_resolved_session :
      (first : CatalogEvent)
      → (others : List CatalogEvent) → (session_id venue_id : Text) → CatalogEvent
  unfolding take_units representative_of event_order unique_offers selected_offer attendance_of
  project_resolved_session first others session_id venue_id =
      let ordered = sort_by event_order (first ∷ others) in
      let representative = representative_of first ordered in
      let offers = unique_offers texts ordered in
      let offer = selected_offer texts offers representative in
      let source =
        find_first
          (λ e.
            text_eq e.id offer.id && same_source e.source offer.source && text_eq e.url offer.url)
          ordered in
      let title = evidence.normalize_title_key representative.title representative.category in
      let city = evidence.normalize_identity_text representative.city in
      record representative {
        address =
            if no_elements representative.address
            then only_value (addresses_of [] ordered)
            else representative.address;
        id =
            if no_elements others
            then representative.id
            else codes "session-" ++ take_units 32 session_id;
        source = offer.source;
        url = offer.url;
        price = offer.price;
        currency = offer.currency;
        availability = offer.availability;
        checked_at = offer.checked_at;
        source_session_ids = offer.source_session_ids;
        source_category = source_field (λ e. e.source_category) source;
        source_version = source_field (λ e. e.source_version) source;
        extraction = source_field (λ e. e.extraction) source;
        offers = some offers;
        merged_ids = some (sort_texts (distinct_onto [] (session_id ∷ all_ids ordered)));
        attendance_timing = or_timing (attendance_of ordered) representative.attendance_timing;
        canonical_production_key =
            some (evidence.canonical_hash (codes "production") (city ∷ venue_id ∷ title.key ∷ []));
        canonical_show_key =
            some (evidence.canonical_hash (codes "show") (city ∷ title.category ∷ title.key ∷ []));
      }

-- ===== src/Catalog/Tests.antt =====
-- Runs of the catalog on one concert, whose times are single code units.
use mathlib.Core.List.{Memᴰ}
use event_recommender.Prelude.{
  ℕ, suc, true, false, Option, none, some, List, [], ◌∷◌, if◌then◌else◌, ◌≡◌, ◌≢◌, refl, length,
  any_of, every, All, ok, inl, inr, Bool-cases, arith,
}
use event_recommender.Prelude.Text.{take_units, Text, codes, text_eq, text_lt, text_le, includes}
use event_recommender.Prelude.Number.{Number, num, num_lt, num_eq, is_finite}
use event_recommender.Prelude.Sorting.{sort_by, sort_texts}
use event_recommender.Catalog.Event.{Availability, EventOffer, CatalogEvent, empty_filters}
use event_recommender.Catalog.Eligible.{
  Readings, wrong_kind, wrong_day, wrong_time, in_district, is_servable, is_eligible,
}
use event_recommender.Catalog.Offers.{
  Texts, offers_of, keep, find_first, replaces, put_offer, put_offers, offers_by_id, unique_offers,
  selectable_of, preferred_of, selected_offer, is_comparable,
}
use event_recommender.Catalog.Offers.Once.{has_offer_id, offers_with, unique_offers_once}
use event_recommender.Catalog.Offers.Cheapest.{price_of, IsPriced, selected_offer-IsCheapest}
use event_recommender.Catalog.Project.{
  EvidenceChecks, put_text, event_order, representative_of, attendance_of, project_resolved_session,
}
use event_recommender.Catalog.Build.{
  SessionEvents, Resolution, SearchCatalog, select_version, ambiguous_source_evidence_ids,
  corrected, eligible_events, boundaries, sessions_at, build_versions, build_groups, families_at,
  build_search_catalog, candidates_of, candidate_before, search_catalog_candidates,
}
use event_recommender.Catalog.Build.Fresh.{JsonApart, fresh_candidates, candidates_are_fresh}

abbrev single : Text → Option ℕ
single (t ∷ []) = some t
single _ = none

abbrev plain_readings : Readings
plain_readings = record {
  date_parse = single;
  day = λ t. t ∷ [];
  day_of = λ t. t;
  clock = λ t. t ∷ [];
  supported_format = λ e. true;
  doors_only = λ t. false;
  normalize = λ t. t;
  is_district = λ t. true;
  address_district = λ t. none;
  mentions = λ district text. false;
}

abbrev plain_texts : Texts
plain_texts = record {
  locale_lt = text_lt;
  offer_json = λ offer. offer.id;
  timing_json = λ timing. [];
}

abbrev plain_evidence : EvidenceChecks
plain_evidence = record {
  normalized_evidence = λ t. t;
  has_positive_standup_evidence = λ e. false;
  doors_only = λ t. false;
  normalize_title_key =
      λ title category. record { key = title; category = category; removed_generic_suffix = false };
  normalize_identity_text = λ t. t;
  trim = λ t. t;
  canonical_hash = λ kind parts. kind;
}

abbrev each_alone : List CatalogEvent → List SessionEvents
each_alone [] = []
each_alone (e ∷ es) =
    record { id = e.id; venue_id = e.venue; first = e; others = [] } ∷ each_alone es

abbrev families_alone : List CatalogEvent → List (List CatalogEvent)
families_alone [] = []
families_alone (e ∷ es) = (e ∷ []) ∷ families_alone es

abbrev alone : Resolution
alone = record {
  sessions = each_alone;
  identity_families = families_alone;
  contradicts_itself = λ e. false;
  category_for_event = λ category title description. category;
  events_json = λ es. suc (length es) ∷ [];
  byte_length = length;
  to_iso_string = λ t. t ∷ [];
}

-- Checked at 400000, to begin at 500000.
abbrev concert : CatalogEvent
concert = record {
  id = codes "c1";
  title = codes "Concert";
  description = [];
  starts_at = 500_000 ∷ [];
  venue = codes "Hall";
  city = 304 ∷ codes "stanbul";
  district = codes "Beyoglu";
  address = [];
  price = some (num 100);
  currency = codes "TRY";
  url = codes "u";
  category = codes "Konser";
  availability = Availability.available;
  source = some (codes "biletix");
  source_version = none;
  extraction = none;
  attendance_timing = none;
  source_category = none;
  source_session_ids = none;
  offers = none;
  merged_ids = none;
  canonical_production_key = none;
  canonical_show_key = none;
  checked_at = 400_000 ∷ [];
}

-- The boundary 72 hours after the check adds no version: the concert has begun by then.
abbrev concert_catalog : SearchCatalog
concert_catalog = record {
  materialized_at = 450_000 ∷ [];
  source_status =
      record {
        starts_at = 500_000 ∷ [];
        checked_at = 400_000 ∷ [];
        availability = Availability.available;
      }
      ∷ [];
  groups =
      (record {
        from = 450_000;
        events = sessions_at plain_readings plain_texts plain_evidence alone (concert ∷ []) 450_000;
      }
        ∷ record { from = 500_001; events = [] }
        ∷ [])
      ∷ [];
}

concert_is_built :
    build_search_catalog plain_readings plain_texts plain_evidence alone (concert ∷ []) 450_000
    ≡ ok concert_catalog
unfolding text_eq text_lt text_le includes any_of every num_lt num_eq sort_by sort_texts wrong_kind
    wrong_day wrong_time in_district is_servable is_eligible offers_of keep find_first replaces
    put_offer put_offers offers_by_id unique_offers selectable_of preferred_of selected_offer
    put_text take_units event_order representative_of attendance_of project_resolved_session
    select_version ambiguous_source_evidence_ids corrected eligible_events boundaries sessions_at
    build_versions build_groups build_search_catalog candidates_of search_catalog_candidates
concert_is_built = refl

concert-JsonApart : JsonApart plain_readings plain_texts plain_evidence alone (concert ∷ [])
unfolding sessions_at keep
concert-JsonApart x y h = elim (Bool-cases (is_eligible plain_readings concert empty_filters x)) [
  | inl a ↦ elim (Bool-cases (is_eligible plain_readings concert empty_filters y)) [
    | inl b ↦ rw a (rw b refl)
    | inr b ↦ absurd (ground (arith, rw a at (rw b at h)))
  ]
  | inr a ↦ elim (Bool-cases (is_eligible plain_readings concert empty_filters y)) [
    | inl b ↦ absurd (ground (arith, rw a at (rw b at h)))
    | inr b ↦ rw a (rw b refl)
  ]
]

concert_families :
    families_at plain_readings plain_texts plain_evidence alone (concert ∷ []) 450_000
    ≡ (concert ∷ []) ∷ []
unfolding text_eq text_lt text_le includes any_of every num_lt num_eq sort_by sort_texts wrong_kind
    wrong_day wrong_time in_district is_servable is_eligible offers_of keep find_first replaces
    put_offer put_offers offers_by_id unique_offers selectable_of preferred_of selected_offer
    put_text take_units event_order representative_of attendance_of project_resolved_session
    select_version ambiguous_source_evidence_ids corrected eligible_events boundaries sessions_at
    build_versions build_groups build_search_catalog candidates_of search_catalog_candidates
concert_families = refl

concert_apart :
    All
      (JsonApart plain_readings plain_texts plain_evidence alone)
      (families_at plain_readings plain_texts plain_evidence alone (concert ∷ []) 450_000)
concert_apart = rw concert_families (concert-JsonApart, tt)

nonempty : (xs : List CatalogEvent) → alone.events_json xs ≢ []
nonempty xs h = ground (arith, h)

candidates_are_fresh_example :
    search_catalog_candidates plain_readings plain_texts plain_evidence alone concert_catalog
      empty_filters 460_000
    ≡ ok (
        sort_by (candidate_before plain_readings plain_texts plain_evidence alone) (
          fresh_candidates plain_readings plain_texts plain_evidence alone empty_filters 460_000
            (families_at plain_readings plain_texts plain_evidence alone (concert ∷ []) 450_000)))
candidates_are_fresh_example =
    candidates_are_fresh plain_readings plain_texts plain_evidence alone (λ xs. nonempty xs)
      (concert ∷ []) 450_000 460_000 concert_catalog empty_filters concert_apart (omega arith) refl
      concert_is_built

abbrev seat : (id : Text) → (price : Number) → EventOffer
seat id price = record {
  id = id;
  source_session_ids = none;
  source = some (codes "biletix");
  url = codes "u";
  price = some price;
  currency = codes "TRY";
  checked_at = 400_000 ∷ [];
  category = codes "Konser";
  venue = codes "Hall";
  availability = Availability.available;
}

abbrev seats : List EventOffer
seats = seat (codes "c1") (num 100) ∷ seat (codes "c2") (num 80) ∷ []

seats_are_selectable : selectable_of plain_texts seats ≡ seats
unfolding selectable_of keep any_of
seats_are_selectable = refl

seat_compares :
    is_comparable plain_texts
      (preferred_of plain_texts (selectable_of plain_texts seats) concert)
      (seat (codes "c1") (num 100))
    ≡ true
unfolding selectable_of keep any_of preferred_of find_first text_eq
seat_compares = refl

seats_are-IsPriced : All IsPriced (selectable_of plain_texts seats)
unfolding selectable_of keep any_of is_finite
seats_are-IsPriced = (refl, (refl, tt))

selected_offer-IsCheapest_example :
    (num_lt
        (price_of (seat (codes "c1") (num 100)))
        (price_of (selected_offer plain_texts seats concert))
      ≡ false)
    × (is_comparable plain_texts
          (preferred_of plain_texts (selectable_of plain_texts seats) concert)
          (selected_offer plain_texts seats concert)
        ≡ true)
selected_offer-IsCheapest_example =
    selected_offer-IsCheapest plain_texts seats concert (seat (codes "c1") (num 100))
      seats_are-IsPriced (rw seats_are_selectable (Memᴰ.head refl)) seat_compares

cheaper_seat_selected : selected_offer plain_texts seats concert ≡ seat (codes "c2") (num 80)
unfolding selected_offer selectable_of preferred_of keep any_of find_first text_eq sort_by num_lt
    text_lt
cheaper_seat_selected = refl

unique_offers_once_example :
    offers_with (codes "c1") (unique_offers plain_texts (concert ∷ concert ∷ [])) ≡ (
      if any_of (λ e. any_of (has_offer_id (codes "c1")) (offers_of e)) (concert ∷ concert ∷ [])
      then 1
      else 0)
unique_offers_once_example = unique_offers_once plain_texts (codes "c1") (concert ∷ concert ∷ [])

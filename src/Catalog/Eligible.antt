-- ===== src/Catalog/Eligible.antt =====
-- web/lib/search.ts, lines 960 to 1038: `isEligible`. Times are milliseconds from JavaScript's
-- lowest time value, and `none` is NaN.
use event_recommender.Prelude.{
  ℕ, ◌+◌, Bool, true, false, ◌&&◌, ◌||◌, not, Option, none, some, List, ◌∷◌, if◌then◌else◌, ltb,
}
use event_recommender.Prelude.Text.{Text, codes, text_eq, text_lt, text_le, includes}
use event_recommender.Prelude.Number.{Number, num_lt, num_eq}
use event_recommender.Identity.Listing.{AttendanceTiming, timed_session, admission_window}
use event_recommender.Catalog.Event.{Availability, CatalogEvent, Filters}

-- Date.parse, the days and clocks of Istanbul, hasSupportedEventFormat, sourceTimeIsDoorsOnly,
-- normalize, isIstanbulDistrict, addressDistrict, and the search for a district's name in a text.
pub record Readings : Type 0 where
  pub date_parse : Text → Option ℕ
  pub day : ℕ → Text
  pub day_of : Text → Text
  pub clock : ℕ → Text
  pub supported_format : CatalogEvent → Bool
  pub doors_only : Text → Bool
  pub normalize : Text → Text
  pub is_district : Text → Bool
  pub address_district : Text → Option Text
  pub mentions : (district text : Text) → Bool

-- A string is truthy and passes the test.
abbrev pub if_given : Option Text → (Text → Bool) → Bool
if_given (some (c ∷ t)) test = test (c ∷ t)
if_given _ test = false

abbrev pub is_given : Option Text → Bool
is_given t = if_given t (λ s. true)

abbrev pub is_available : Availability → Bool
is_available Availability.available = true
is_available _ = false

abbrev is_listed : Option (List Text) → Text → Bool
is_listed (some ts) t = includes ts t
is_listed none t = true

abbrev too_dear :
    (price : Option Number) → (currency : Text) → (exclusive : Bool) → Option Number → Bool
too_dear price currency exclusive none = false
too_dear none currency exclusive (some limit) = true
too_dear (some price) currency exclusive (some limit) =
    not (text_eq currency (codes "TRY")) || num_lt limit price || (exclusive && num_eq price limit)

unfoldable pub wrong_kind : CatalogEvent → Filters → Bool
unfolding text_eq
wrong_kind e f =
    if_given f.category (λ c. not (text_eq e.category c))
    || not (is_listed f.categories e.category)
    || includes f.excluded_categories e.category
    || too_dear e.price e.currency f.max_price_exclusive f.max_price

abbrev outside : (first last : Text) → Filters → Bool
outside first last f =
    if_given f.date_from (λ d. text_lt last d) || if_given f.date_to (λ d. text_lt d first)

abbrev is_session : Option AttendanceTiming → Bool
is_session none = true
is_session (some timed_session) = true
is_session (some _) = false

module _ (r : Readings) where
  abbrev day_outside : Option AttendanceTiming → (start : ℕ) → Filters → Bool
  day_outside (some (admission_window valid_from valid_through)) start f =
      outside (r.day_of valid_from) (r.day_of valid_through) f
  day_outside _ start f = outside (r.day start) (r.day start) f

  unfoldable pub wrong_day : CatalogEvent → (start : ℕ) → Filters → Bool
  unfolding text_lt
  wrong_day e start f =
      (is_given f.date_from || is_given f.date_to) && day_outside e.attendance_timing start f

  unfoldable pub wrong_time : CatalogEvent → (start : ℕ) → Filters → Bool
  unfolding text_lt text_le
  wrong_time e start f =
      let local = r.clock start in
      (is_given f.start_time_from || is_given f.start_time_to)
      && (r.doors_only e.description
          || not (is_session e.attendance_timing)
          || if_given f.start_time_from
              (λ t. if f.start_time_from_exclusive then text_le local t else text_lt local t)
          || if_given f.start_time_to
              (λ t. if f.start_time_to_exclusive then text_le t local else text_lt t local))

  abbrev named_by_address : Option Text → (requested venue : Text) → Bool
  named_by_address (some (c ∷ t)) requested venue = text_eq (c ∷ t) requested
  named_by_address _ requested venue = r.mentions requested venue

  abbrev conflicts_with : Option Text → Text → Bool
  conflicts_with (some d) district = not (text_eq d district)
  conflicts_with none district = false

  unfoldable pub in_district : CatalogEvent → Text → Bool
  unfolding text_eq
  in_district e wanted =
      let district = r.normalize e.district in
      let requested = r.normalize wanted in
      let specific = r.is_district district in
      let from_address = r.address_district e.address in
      not (specific && conflicts_with from_address district)
      && (text_eq district requested
          || (not specific && named_by_address from_address requested (r.normalize e.venue)))

  abbrev outside_district : CatalogEvent → Option Text → Bool
  outside_district e wanted = if_given wanted (λ d. not (in_district e d))

  -- Checked in the last 72 hours, or at most five minutes ahead, and not begun.
  abbrev pub in_force : (start checked now : ℕ) → Bool
  in_force start checked now =
      not (ltb start now)
      && not (ltb (checked + 259_200_000) now)
      && not (ltb (now + 300_000) checked)

  -- What an event must be whatever the filters.
  unfoldable pub is_servable : CatalogEvent → Bool
  unfolding text_eq
  is_servable e =
      text_eq e.city (304 ∷ codes "stanbul") && is_available e.availability && r.supported_format e

  abbrev pub eligible_times : Option ℕ → Option ℕ → CatalogEvent → Filters → (now : ℕ) → Bool
  eligible_times (some start) (some checked) e f now =
      in_force start checked now
      && is_servable e
      && not (wrong_kind e f)
      && not (wrong_day e start f)
      && not (wrong_time e start f)
      && not (outside_district e f.district)
  eligible_times _ _ e f now = false

  unfoldable pub is_eligible : CatalogEvent → Filters → (now : ℕ) → Bool
  unfolding is_servable wrong_kind wrong_day wrong_time in_district
  is_eligible e f now =
      eligible_times (r.date_parse e.starts_at) (r.date_parse e.checked_at) e f now

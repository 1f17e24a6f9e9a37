-- ===== src/Catalog/Offers.antt =====
-- web/lib/materialized-catalog.ts, lines 93 to 163: the offers of a session, and the one shown.
-- `Texts` is what this file takes from the platform: localeCompare, and JSON.stringify of an
-- offer and of a timing.
pub mod Once
pub mod Cheapest
use event_recommender.Prelude.{
  Bool, true, false, ◌&&◌, ◌||◌, not, Option, none, some, List, [], ◌∷◌, ◌++◌, if◌then◌else◌,
  any_of,
}
use event_recommender.Prelude.Text.{Text, text_eq, text_lt}
use event_recommender.Prelude.Number.{Number, num, num_lt}
use event_recommender.Prelude.Sorting.{sort_by}
use event_recommender.Identity.Listing.{AttendanceTiming}
use event_recommender.Catalog.Event.{Availability, EventOffer, CatalogEvent}
use event_recommender.Catalog.Eligible.{is_available}

pub record Texts : Type 0 where
  pub locale_lt : Text → Text → Bool
  pub offer_json : EventOffer → Text
  pub timing_json : AttendanceTiming → Text

abbrev pub own_offer : CatalogEvent → EventOffer
own_offer e = record {
  id = e.id;
  source_session_ids = e.source_session_ids;
  source = e.source;
  url = e.url;
  price = e.price;
  currency = e.currency;
  checked_at = e.checked_at;
  category = e.category;
  venue = e.venue;
  availability = e.availability;
}

abbrev offers_or : Option (List EventOffer) → EventOffer → List EventOffer
offers_or (some (offer ∷ offers)) own = offer ∷ offers
offers_or _ own = own ∷ []

unfoldable pub offers_of : CatalogEvent → List EventOffer
offers_of e = offers_or e.offers (own_offer e)

abbrev pub first_or {ℓ} : {A : Type ℓ} → A → List A → A
first_or x [] = x
first_or x (y ∷ ys) = y

-- Array.prototype.filter and Array.prototype.find
unfoldable pub keep {ℓ} : {A : Type ℓ} → (A → Bool) → List A → List A
keep p [] = []
keep p (x ∷ xs) = let rest = keep p xs in if p x then x ∷ rest else rest

unfoldable pub find_first {ℓ} : {A : Type ℓ} → (A → Bool) → List A → Option A
find_first p [] = none
find_first p (x ∷ xs) = let rest = find_first p xs in if p x then some x else rest

abbrev pub has_price : Option Number → Bool
has_price (some price) = true
has_price none = false

abbrev pub price_or_zero : Option Number → Number
price_or_zero (some price) = price
price_or_zero none = num 0

abbrev pub same_availability : Availability → Availability → Bool
same_availability Availability.available Availability.available = true
same_availability Availability.sold_out Availability.sold_out = true
same_availability Availability.cancelled Availability.cancelled = true
same_availability Availability.unknown Availability.unknown = true
same_availability _ _ = false

abbrev pub same_source : Option Text → Option Text → Bool
same_source (some s) (some t) = text_eq s t
same_source none none = true
same_source _ _ = false

abbrev or_option : Option EventOffer → Option EventOffer → Option EventOffer
or_option (some offer) other = some offer
or_option none other = other

abbrev or_offer : Option EventOffer → EventOffer → EventOffer
or_offer (some offer) other = offer
or_offer none other = other

module _ (texts : Texts) where
  -- The later one in time, or at one time the one whose JSON comes first.
  unfoldable pub replaces : (offer current : EventOffer) → Bool
  replaces offer current =
      text_lt current.checked_at offer.checked_at
      || (text_eq offer.checked_at current.checked_at
          && text_lt (texts.offer_json offer) (texts.offer_json current))

  -- The map from identifiers to offers, in order of insertion.
  unfoldable pub put_offer : List EventOffer → EventOffer → List EventOffer
  unfolding replaces
  put_offer [] offer = offer ∷ []
  put_offer (current ∷ rest) offer =
      let others = put_offer rest offer in
      if text_eq current.id offer.id
      then (if replaces offer current then offer ∷ rest else current ∷ rest)
      else current ∷ others

  unfoldable pub put_offers : List EventOffer → List EventOffer → List EventOffer
  put_offers found [] = found
  put_offers found (offer ∷ offers) = put_offers (put_offer found offer) offers

  unfoldable pub offers_by_id : List EventOffer → List CatalogEvent → List EventOffer
  unfolding put_offers offers_of
  offers_by_id found [] = found
  offers_by_id found (e ∷ es) = offers_by_id (put_offers found (offers_of e)) es

  abbrev cheaper : (a b : Option Number) → (a_id b_id : Text) → Bool
  cheaper a b a_id b_id =
      let p = price_or_zero a in
      let q = price_or_zero b in num_lt p q || (not (num_lt q p) && texts.locale_lt a_id b_id)

  abbrev pub offer_before : EventOffer → EventOffer → Bool
  offer_before a b =
      texts.locale_lt a.currency b.currency
      || not (texts.locale_lt b.currency a.currency)
        && ((has_price a.price && not (has_price b.price))
            || not (has_price b.price && not (has_price a.price))
              && cheaper a.price b.price a.id b.id)

  unfoldable pub unique_offers : List CatalogEvent → List EventOffer
  unfolding offers_by_id
  unique_offers es = sort_by offer_before (offers_by_id [] es)

  unfoldable pub selectable_of : List EventOffer → List EventOffer
  unfolding keep any_of
  selectable_of offers =
      if any_of (λ offer. is_available offer.availability) offers
      then keep (λ offer. is_available offer.availability) offers
      else offers

  unfoldable pub preferred_of : List EventOffer → CatalogEvent → EventOffer
  preferred_of selectable e =
      or_offer
        (or_option (find_first (λ offer. text_eq offer.id e.id) selectable) (
          or_option
            (find_first
              (λ offer.
                text_eq offer.url e.url
                && text_eq offer.currency e.currency
                && same_source offer.source e.source)
              selectable)
            (find_first (λ offer. text_eq offer.currency e.currency) selectable)))
        (first_or (own_offer e) selectable)

  abbrev pub is_comparable : (preferred offer : EventOffer) → Bool
  is_comparable preferred offer =
      same_availability offer.availability preferred.availability
      && text_eq offer.currency preferred.currency
      && has_price offer.price

  abbrev pub by_price : EventOffer → EventOffer → Bool
  by_price a b = cheaper a.price b.price a.id b.id

  -- Of an empty list, which no session has, the offer of the event itself.
  unfoldable pub selected_offer : List EventOffer → CatalogEvent → EventOffer
  unfolding selectable_of preferred_of
  selected_offer offers e =
      let selectable = selectable_of offers in
      let preferred = preferred_of selectable e in
      first_or preferred (sort_by by_price (keep (is_comparable preferred) selectable))

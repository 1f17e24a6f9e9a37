-- ===== src/Catalog/Event.antt =====
-- web/lib/types.ts, lines 13 to 24 and 61 to 119: events, offers and filters, with the fields that
-- the catalog reads or writes. A field that may be absent or null is an Option.
use event_recommender.Prelude.{Bool, false, Option, none, List, []}
use event_recommender.Prelude.Text.{Text}
use event_recommender.Prelude.Number.{Number}
use event_recommender.Identity.Listing.{AttendanceTiming}

pub data Availability : Type 0 where
  available sold_out cancelled unknown : Availability

pub record EventOffer : Type 0 where
  pub id : Text
  pub source_session_ids : Option (List Text)
  pub source : Option Text
  pub url : Text
  pub price : Option Number
  pub currency : Text
  pub checked_at : Text
  pub category : Text
  pub venue : Text
  pub availability : Availability

-- EventRecord
pub record CatalogEvent : Type 0 where
  pub id : Text
  pub title : Text
  pub description : Text
  pub starts_at : Text
  pub venue : Text
  pub city : Text
  pub district : Text
  pub address : Text
  pub price : Option Number
  pub currency : Text
  pub url : Text
  pub category : Text
  pub availability : Availability
  pub source : Option Text
  pub source_version : Option Text
  pub extraction : Option Text
  pub attendance_timing : Option AttendanceTiming
  pub source_category : Option Text
  pub source_session_ids : Option (List Text)
  pub offers : Option (List EventOffer)
  pub merged_ids : Option (List Text)
  pub canonical_production_key : Option Text
  pub canonical_show_key : Option Text
  pub checked_at : Text

pub record Filters : Type 0 where
  pub date_from : Option Text
  pub date_to : Option Text
  pub max_price : Option Number
  pub max_price_exclusive : Bool
  pub category : Option Text
  pub excluded_categories : List Text
  pub district : Option Text
  pub start_time_from : Option Text
  pub start_time_to : Option Text
  pub start_time_from_exclusive : Bool
  pub start_time_to_exclusive : Bool
  pub categories : Option (List Text)

abbrev pub empty_filters : Filters
empty_filters = record {
  date_from = none;
  date_to = none;
  max_price = none;
  max_price_exclusive = false;
  category = none;
  excluded_categories = [];
  district = none;
  start_time_from = none;
  start_time_to = none;
  start_time_from_exclusive = false;
  start_time_to_exclusive = false;
  categories = none;
}

-- ===== src/Plan/Evaluate/Event.antt =====
-- web/lib/types.ts, event-labels.ts, lines 21 to 38, and the functions of other files that the
-- check of a plan calls: the event as the planner reads it.
use event_recommender.Prelude.{Bool, Option, List}
use event_recommender.Prelude.Text.{Text}
use event_recommender.Prelude.Number.{Number}
use event_recommender.Plan.Evaluate.{Checked}

pub data Timing : Type 0 where
  timed_session : Timing
  admission_window : (valid_from valid_through : Text) → Timing
  unknown_timing : Timing

pub data LabelAudience : Type 0 where
  general adult_only family children unknown_audience : LabelAudience

pub data LabelPlace : Type 0 where
  istanbul other_city online unknown_place : LabelPlace

-- The labels that the atoms read; the evidence fields are the source text for each label.
pub record EventLabels : Type 0 where
  pub audience : LabelAudience
  pub child_suitable : Number
  pub min_age : Option Number
  pub max_age : Option Number
  pub place : LabelPlace
  pub district : Option Text
  pub category : Option Text
  pub outdoor : Number
  pub seated : Number
  pub audience_evidence : Option Text
  pub age_evidence : Option Text
  pub format_evidence : Option Text
  pub place_evidence : Option Text

-- The fields of an event that the atoms read.
pub record EventRecord : Type 0 where
  pub title : Text
  pub description : Text
  pub starts_at : Text
  pub venue : Text
  pub district : Text
  pub address : Text
  pub price : Option Number
  pub currency : Text
  pub category : Text
  pub source_category : Option Text
  pub attendance_timing : Option Timing
  pub labels : Option EventLabels

pub data RequirementKind : Type 0 where
  genre activity audience content accessibility : RequirementKind

pub data Side : Type 0 where
  europe asia : Side

pub record Checks : Type 0 where
  -- istanbulDay.format and istanbulClock.format of new Date(instant)
  pub day : Text → Text
  pub clock : Text → Text
  -- sourceTimeIsDoorsOnly, checkPredicateEvidence, checkAgeEvidence
  pub doors_only : Text → Bool
  pub predicate : EventRecord → RequirementKind → Text → Checked
  pub age_rule : EventRecord → Number → Checked
  -- isEligible(event, { ...emptyFilters, district }, now)
  pub eligible_in : EventRecord → Text → Bool
  -- eventLocation(event).side; sideNamed; normalize; canonicalDistricts.get
  pub event_side : EventRecord → Option Side
  pub side_named : Text → Option Side
  pub normalize : Text → Text
  pub canonical_district : Text → Option Text
  -- the sentences that name a topic, and those that name an open-air venue, at most three
  pub topic_sentences : EventRecord → Text → List Text
  pub open_air_sentences : EventRecord → List Text
  -- `${number}` and number.toFixed(2)
  pub number_text : Number → Text
  pub to_fixed : Number → Text

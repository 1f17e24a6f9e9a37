-- ===== src/Plan.antt =====
-- web/parser/contract.ts: the plan that the parser, the reducer and the evidence check share.
pub mod Validate
pub mod Stable
pub mod Reduce
pub mod Evaluate
pub mod Search
pub mod Query
mod Tests
mod EventTests
use mathlib.Core.Option.{Option}
use event_recommender.Prelude.{ℕ, ◌+◌, suc, ◌≡◌, refl, ap, List, [], ◌∷◌, Bool, true, false}
use event_recommender.Prelude.Text.{Text}
use event_recommender.Prelude.Number.{Number}

pub data BudgetBasis : Type 0 where
  per_person per_ticket group_total : BudgetBasis

pub data Comparison : Type 0 where
  lt lte gt gte approx : Comparison

pub data Category : Type 0 where
  concert theatre standup workshop exhibition festival sport cinema : Category
  talk dance show course tour museum : Category

pub data Order : Type 0 where
  none soonest cheapest nearest : Order

pub data LocationPrecision : Type 0 where
  district neighborhood side : LocationPrecision

pub data Mood : Type 0 where
  calm intimate : Mood

pub data Companion : Type 0 where
  partner friends family children : Companion

pub data Experience : Type 0 where
  quiet seated outdoors wheelchair_accessible : Experience
  family_friendly uncrowded romantic beginner_friendly : Experience

pub data Content : Type 0 where
  profanity sexual_content : Content

-- `from` and `to` are the source's optional fields; the currency of a budget is always TRY.
pub data Atom : Type 0 where
  budget : (comparison : Comparison) (amount : Number) (basis : BudgetBasis) → Atom
  party : (count : Number) → Atom
  age : (years : Number) → Atom
  mood : (value : Mood) → Atom
  companion : (value : Companion) → Atom
  date : (from until : Text) → Atom
  time : (from until : Option Text) (from_exclusive to_exclusive : Option Bool) → Atom
  location : (name : Text) (precision : LocationPrecision) → Atom
  category : (value : Category) → Atom
  topic : (value : Text) → Atom
  experience : (value : Experience) → Atom
  content : (value : Content) → Atom

pub data Connective : Type 0 where
  all any : Connective

-- The last field is the optional id.
mutual
  pub data Condition : Type 0 where
    atom : Atom → Option Text → Condition
    group : Connective → Conditions → Option Text → Condition
    not : Condition → Option Text → Condition

  pub data Conditions : Type 0 where
    nil : Conditions
    cons : Condition → Conditions → Conditions

abbrev pub to_list : Conditions → List Condition
to_list nil = []
to_list (cons c cs) = c ∷ to_list cs

abbrev pub of_list : List Condition → Conditions
of_list [] = nil
of_list (c ∷ cs) = cons c (of_list cs)

pub of_list-to_list : (cs : Conditions) → of_list (to_list cs) ≡ cs
of_list-to_list nil = refl
of_list-to_list (cons c cs) = ap (cons c) (of_list-to_list cs)

pub to_list-of_list : (cs : List Condition) → to_list (of_list cs) ≡ cs
to_list-of_list [] = refl
to_list-of_list (c ∷ cs) = ap (◌∷◌ c) (to_list-of_list cs)

pub record Plan : Type 0 where
  pub hard : Condition
  pub preferences : List Condition
  pub order : Order

pub record Evidence : Type 0 where
  pub start : ℕ
  pub end : ℕ
  pub text : Text
  pub role : Text
  pub node_id : Option Text

pub record PreviousState : Type 0 where
  pub revision : Number
  pub plan : Plan
  pub evidence : List Evidence

pub data Strength : Type 0 where
  hard preferred : Strength

pub data Operation : Type 0 where
  add : Strength → Condition → Operation
  replace : (target_id : Text) → Condition → Option Strength → Operation
  remove keep : (target_id : Text) → Operation
  reset : Operation
  order : Order → Operation

abbrev pub empty_plan : Plan
empty_plan = record { hard = group all nil Option.none; preferences = []; order = none }

-- The id of a condition, whatever its form.
abbrev pub id_of : Condition → Option Text
id_of (atom a id) = id
id_of (group k cs id) = id
id_of (not c id) = id

-- `{ ...condition, id }`
abbrev pub with_id : Condition → Option Text → Condition
with_id (atom a _) id = atom a id
with_id (group k cs _) id = group k cs id
with_id (not c _) id = not c id

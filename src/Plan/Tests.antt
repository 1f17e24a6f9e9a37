-- ===== src/Plan/Tests.antt =====
-- Runs of the planner at concrete plans, operations and events.
use event_recommender.Prelude.{
  ℕ, arith, ◌+◌, ◌≤◌, ◌/◌, ◌≡◌, ◌↔◌, refl, true, false, Option, some, [], ◌∷◌, ◌++◌, ok,
}
use event_recommender.Prelude.Text.{Text, codes, includes, text_eq}
use event_recommender.Prelude.Number.{
  Number, num, millionths, minus, nan, infinity, minus_infinity, num_le, num_lt, is_integer,
  is_finite,
}
use event_recommender.Prelude.Decimal.{decimal, is_digit}
use event_recommender.Prelude.Js.{Js}
use event_recommender.Plan.{
  budget, party, mood, category, calm, lte, group_total, Category, all, Condition, Plan, of_list,
  hard, PreviousState, Operation, Order,
}
use event_recommender.Plan.Validate.{
  validate_plan, visit, enter, check_id, validate_atom, is_condition_id, is_id_start, is_id_char,
}
use event_recommender.Plan.Validate.WellFormed.{IsWellFormed}
use event_recommender.Plan.Validate.Correct.{validate_plan_iff}
use event_recommender.Plan.Reduce.{
  Work, start, run, apply_operation, apply_operations, check_previous, add_condition,
  clone_without_ids, lookup, find_index, take_out, replace_condition,
}
use event_recommender.Plan.Reduce.Identities.{IsNumbered}
use event_recommender.Plan.Reduce.Ids.{top_ids}
use event_recommender.Plan.Reduce.Start.{start-IsNumbered}
use event_recommender.Plan.Reduce.Numbered.{HasRoom}
use event_recommender.Plan.Reduce.Targets.{run-IsNumbered}
use event_recommender.Plan.Reduce.Corrections.{
  unknown_target, remove_then_missing, replace_keeps_ids,
}
use event_recommender.Plan.Reduce.Additions.{add_twice, reset_clears, cleared}

abbrev number_text : Number → Text
number_text (millionths n) = decimal (n / 1_000_000)
number_text (minus n) = codes "-" ++ decimal (n / 1_000_000 + 1)
number_text nan = codes "NaN"
number_text infinity = codes "Infinity"
number_text minus_infinity = codes "-Infinity"

abbrev js : Js
js = record {
  trim = λ t. t;
  noon_day = λ t. some t;
  quote = λ t. codes "'" ++ t ++ codes "'";
  number_text = number_text;
}

abbrev two_people : Condition
two_people = Condition.atom (party (num 2)) (some (codes "h0"))

abbrev thousand_together : Condition
thousand_together = Condition.atom (budget lte (num 1_000) group_total) (some (codes "h1"))

abbrev calm_place : Condition
calm_place = Condition.atom (mood calm) (some (codes "p0"))

abbrev concert : Condition
concert = Condition.atom (category Category.concert) Option.none

abbrev evening_for_two : Plan
evening_for_two = record {
  hard = Condition.group all (of_list (two_people ∷ thousand_together ∷ [])) Option.none;
  preferences = calm_place ∷ [];
  order = Order.none;
}

evening_is_valid : validate_plan js evening_for_two ≡ ok tt
unfolding validate_plan visit enter check_id validate_atom is_condition_id is_id_start is_id_char
    includes is_integer num_le num_lt is_finite text_eq
evening_is_valid = refl

validate_plan_iff_example :
    (validate_plan js evening_for_two ≡ ok tt) ↔ IsWellFormed js evening_for_two
validate_plan_iff_example = validate_plan_iff js evening_for_two

hard_counter : (start evening_for_two).hard_index ≡ 2
unfolding start is_digit
hard_counter = refl

preferred_counter : (start evening_for_two).preferred_index ≡ 1
unfolding start is_digit
preferred_counter = refl

evening-HasRoom : (steps : ℕ) → steps ≤ 64 → HasRoom steps (start evening_for_two)
evening-HasRoom steps h = record {
  hard_room = omega (arith, hard_counter);
  preferred_room = omega (arith, preferred_counter);
}

evening-IsNumbered : IsNumbered (start evening_for_two)
evening-IsNumbered =
    start-IsNumbered js evening_for_two ((validate_plan_iff js evening_for_two).0 evening_is_valid)
      (evening-HasRoom 1 (omega arith))

abbrev before : Option PreviousState
before = some (record { revision = num 1; plan = evening_for_two; evidence = [] })

abbrev remove_budget : Operation
remove_budget = Operation.remove (codes "h1")

abbrev without_budget : Work
without_budget =
    take_out (record { in_hard = true; index = 1; preferred = false }) (start evening_for_two)

budget_removed : apply_operation js remove_budget (start evening_for_two) ≡ ok without_budget
unfolding apply_operation lookup find_index start text_eq
budget_removed = refl

remove_then_missing_example :
    (apply_operation js remove_budget without_budget ≡ unknown_target)
    × (apply_operation js (Operation.keep (codes "h1")) without_budget ≡ unknown_target)
    × (apply_operation js (Operation.replace (codes "h1") concert Option.none) without_budget
        ≡ unknown_target)
remove_then_missing_example =
    remove_then_missing js (codes "h1") concert Option.none (start evening_for_two) without_budget
      evening-IsNumbered budget_removed

-- The budget is for a concert instead, at the same place.
abbrev concert_instead : Operation
concert_instead = Operation.replace (codes "h1") concert Option.none

abbrev with_concert : Work
with_concert =
    replace_condition (codes "h1") concert Option.none (start evening_for_two)
      (record { in_hard = true; index = 1; preferred = false })

concert_replaces : apply_operation js concert_instead (start evening_for_two) ≡ ok with_concert
unfolding apply_operation lookup find_index start text_eq
concert_replaces = refl

replace_keeps_ids_example :
    (top_ids with_concert.hard ≡ top_ids (start evening_for_two).hard)
    × (top_ids with_concert.preferred ≡ top_ids (start evening_for_two).preferred)
replace_keeps_ids_example =
    replace_keeps_ids js (codes "h1") concert (start evening_for_two) with_concert
      evening-IsNumbered concert_replaces

abbrev concert_added : Work
concert_added = add_condition js hard (clone_without_ids concert) (start evening_for_two)

adding_concert :
    apply_operation js (Operation.add hard concert) (start evening_for_two) ≡ ok concert_added
unfolding apply_operation
adding_concert = refl

added_by_run : run js (Operation.add hard concert ∷ []) (start evening_for_two) ≡ ok concert_added
unfolding run apply_operation
added_by_run = refl

run-IsNumbered_example : IsNumbered concert_added
run-IsNumbered_example =
    run-IsNumbered js (Operation.add hard concert ∷ []) (start evening_for_two) concert_added
      (evening-HasRoom 1 (omega arith)) evening-IsNumbered added_by_run

add_twice_example : apply_operation js (Operation.add hard concert) concert_added ≡ ok concert_added
add_twice_example = add_twice js hard concert (start evening_for_two) concert_added adding_concert

evening_is_previous : check_previous js before ≡ ok tt
unfolding check_previous is_integer num_lt num_le
evening_is_previous = evening_is_valid

reset_clears_example :
    apply_operations js before (Operation.reset ∷ []) ≡ ok (cleared evening_for_two)
reset_clears_example = reset_clears js before evening_is_previous

-- ===== src/Plan/EventTests.antt =====
-- Checks of a concrete event against a concrete plan.
use event_recommender.Prelude.{◌≡◌, ◌↔◌, refl, Bool, true, false, none, some, [], ◌∷◌, ok, arith}
use event_recommender.Prelude.Text.{codes, text_eq}
use event_recommender.Prelude.Number.{Number, num, num_times, num_le, is_finite}
use event_recommender.Plan.{
  Atom, budget, party, lte, group_total, all, any, Condition, Plan, of_list, Order,
}
use event_recommender.Plan.Evaluate.{
  Checked, supported, unknown, evaluate, status_of, plan_party_count, group_status, leaf_status,
  gather_parties,
}
use event_recommender.Plan.Evaluate.Event.{Checks, EventRecord}
use event_recommender.Plan.Evaluate.Facts.{Agrees, Tells, holds, evaluate_sound}
use event_recommender.Plan.Evaluate.Duality.{evaluate-not-not, evaluate-not-group, not_each}
use event_recommender.Plan.Evaluate.Atoms.{atom_result, evaluate_plan}
use event_recommender.Plan.Evaluate.Atoms.Session.{budget_result, compare_price}
use event_recommender.Plan.Search.{
  validate_search_plan, visit, visit_atom, visit_hard, count_budget, count_party, set_add,
}
use event_recommender.Plan.Search.Accepted.{group_totals}
use event_recommender.Plan.Search.Plans.{
  IsSearchPlan, validate_search_plan_iff, group_budget_has_party,
}
use event_recommender.Plan.Search.Budgets.{group_budget_respected}

abbrev nothing_known : Checked
nothing_known = record { status = unknown; evidence = [] }

abbrev checks : Checks
checks = record {
  day = λ t. t;
  clock = λ t. t;
  doors_only = λ t. false;
  predicate = λ e kind value. nothing_known;
  age_rule = λ e years. nothing_known;
  eligible_in = λ e name. text_eq e.district name;
  event_side = λ e. none;
  side_named = λ t. none;
  normalize = λ t. t;
  canonical_district = λ t. none;
  topic_sentences = λ e value. [];
  open_air_sentences = λ e. [];
  number_text = λ n. [];
  to_fixed = λ n. [];
}

abbrev concert_night : EventRecord
concert_night = record {
  title = codes "Caz gecesi";
  description = [];
  starts_at = codes "2026-05-01T18:00:00.000Z";
  venue = codes "Salon";
  district = codes "Beyoğlu";
  address = [];
  price = some (num 400);
  currency = codes "TRY";
  category = codes "Konser";
  source_category = none;
  attendance_timing = none;
  labels = none;
}

abbrev two_people : Condition
two_people = Condition.atom (party (num 2)) none

abbrev together : Condition
together = Condition.atom (budget lte (num 1_000) group_total) none

abbrev for_two : Plan
for_two = record {
  hard = Condition.group all (of_list (two_people ∷ together ∷ [])) none;
  preferences = [];
  order = Order.none;
}

for_two_accepted : validate_search_plan checks for_two ≡ ok tt
unfolding validate_search_plan visit visit_atom visit_hard count_budget count_party set_add
for_two_accepted = refl

for_two_supported : (evaluate_plan checks concert_night for_two).status ≡ supported
unfolding evaluate_plan evaluate atom_result budget_result plan_party_count gather_parties
    group_status leaf_status num_times num_le is_finite text_eq
for_two_supported = refl

group_budget_respected_example :
    (count : Number) × (price : Number) × (plan_party_count for_two ≡ some count)
    × (concert_night.price ≡ some price)
    × (compare_price checks concert_night lte (num_times price count) (num 1_000) ≡ true)
group_budget_respected_example =
    group_budget_respected checks concert_night for_two lte (num 1_000) (two_people ∷ []) [] none
      none refl for_two_accepted for_two_supported

validate_search_plan_iff_example :
    (validate_search_plan checks for_two ≡ ok tt) ↔ IsSearchPlan checks for_two
validate_search_plan_iff_example = validate_search_plan_iff checks for_two

has_budget : ¬ group_totals for_two.hard ≡ 0
unfolding group_totals
has_budget h = omega (arith, h)

group_budget_has_party_example : (count : Number) × (plan_party_count for_two ≡ some count)
group_budget_has_party_example = group_budget_has_party checks for_two for_two_accepted has_budget

-- The facts about the event: it has a price within the budget, and nothing else is asked.
abbrev facts : Atom → Bool
facts (budget comparison amount basis) = true
facts (party count) = true
facts _ = false

abbrev check : Atom → Checked
check = atom_result checks concert_night (some (num 2))

facts_agree : Agrees facts check false for_two.hard
unfolding Agrees atom_result budget_result num_times num_le is_finite text_eq
facts_agree = (
  record { when_supported = λ h. refl; when_contradicted = λ h. cc; when_absent = λ n t u v. cc },
  (
    record { when_supported = λ h. refl; when_contradicted = λ h. cc; when_absent = λ n t u v. cc },
    tt,
  ),
)

evaluate_sound_example :
    Tells (status_of (evaluate check false for_two.hard)) (holds facts for_two.hard)
evaluate_sound_example = evaluate_sound facts check false for_two.hard facts_agree

evaluate-not-not_example :
    status_of (evaluate check false (Condition.not (Condition.not together none) none))
    ≡ status_of (evaluate check false together)
evaluate-not-not_example = evaluate-not-not check false together none none

evaluate-not-group_example :
    status_of (
      evaluate check false
        (Condition.not (Condition.group all (of_list (two_people ∷ together ∷ [])) none) none))
    ≡ status_of (
        evaluate check false
          (Condition.group any (not_each (of_list (two_people ∷ together ∷ []))) none))
evaluate-not-group_example =
    evaluate-not-group check false all (of_list (two_people ∷ together ∷ [])) none none none

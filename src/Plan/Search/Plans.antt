-- ===== src/Plan/Search/Plans.antt =====
-- web/lib/plan-evidence.ts, `validateSearchPlan`: it accepts exactly the plans the search can price and check.
use mathlib.Core.Bool.{not as negate}
use event_recommender.Prelude.{
  ℕ, ◌+◌, ◌≤◌, ◌≡◌, refl, sym, ◌∙◌, ◌↔◌, ◌⊎◌, inl, inr, true, false, List, [], ◌∷◌, some, ok, guard,
  ◌>>◌, >>=-eq-ok, guard-eq-ok, ok-injective, length, arith, leb, ◌==◌, ◌||◌,
}
use event_recommender.Prelude.Number.{Number}
use event_recommender.Plan.{Plan, of_list}
use event_recommender.Plan.Evaluate.Event.{Checks}
use event_recommender.Plan.Evaluate.{only, gather_parties, plan_party_count}
use event_recommender.Plan.Search.{Tally, no_tally, is_nearest, visit, validate_search_plan}
use event_recommender.Plan.Search.Accepted.{
  group_totals, add_all, is_searchable, counted, visit_cases, visit_preferences,
}

-- The conditions on a plan that a search takes.
pub record IsSearchPlan (k : Checks) (plan : Plan) : Type 0 where
  pub ordered : is_nearest plan.order ≡ false
  pub searchable : is_searchable k true plan.hard ≡ true
  pub one_party : length (add_all [] (gather_parties plan.hard)) ≤ 1
  pub priced : (group_totals plan.hard ≡ 0) ⊎ (length (gather_parties plan.hard) ≡ 1)

counts_ok :
    (n budgets parties : ℕ)
    → ((guard (leb n 1) "conflicting unconditional party counts"
          >> guard
              (0 + budgets == 0 || 0 + parties == 1)
              "group total requires exactly one unconditional party count")
        ≡ ok tt)
      ↔ ((n ≤ 1) × ((budgets ≡ 0) ⊎ (parties ≡ 1)))
counts_ok n budgets parties = ground arith

-- The tally of an accepted hard condition.
abbrev tally_of : Plan → Tally
tally_of plan = counted no_tally (gather_parties plan.hard) (group_totals plan.hard)

hard_visit :
    (k : Checks) (plan : Plan) (t : Tally)
    → visit k true true plan.hard no_tally ≡ ok t
    → (is_searchable k true plan.hard ≡ true) × (t ≡ tally_of plan)
hard_visit k plan t h = elim (visit_cases k true plan.hard no_tally) [
  | inl (p, q) ↦ (p, ok-injective (sym h ∙ q))
  | inr (p, q) ↦ elim (q t h) [ ]
]

searchable_visit :
    (k : Checks) (plan : Plan)
    → is_searchable k true plan.hard ≡ true
    → visit k true true plan.hard no_tally ≡ ok (tally_of plan)
searchable_visit k plan h = elim (visit_cases k true plan.hard no_tally) [
  | inl (p, q) ↦ q
  | inr (p, q) ↦ cc
]

validate_search_plan_sound :
    (k : Checks) (plan : Plan) → validate_search_plan k plan ≡ ok tt → IsSearchPlan k plan
unfolding validate_search_plan
validate_search_plan_sound k plan h =
    let (t, h₁, h₂) =
      >>=-eq-ok (guard (negate (is_nearest plan.order)) _ >> visit k true true plan.hard no_tally) _
        h in
    let (ordered, visited) = guard-eq-ok (negate (is_nearest plan.order)) _ _ h₁ in
    let (searchable, same) = hard_visit k plan t visited in
    let h₃ = rw (visit_preferences k true (of_list plan.preferences) t) at h₂ in
    let (one, priced) =
      (counts_ok (length (tally_of plan).party_counts) (group_totals plan.hard)
          (length (gather_parties plan.hard))).0
        (rw same at h₃) in
    record {
      ordered = ground (arith, ordered);
      searchable = searchable;
      one_party = one;
      priced = priced;
    }

validate_search_plan_complete :
    (k : Checks) (plan : Plan) → IsSearchPlan k plan → validate_search_plan k plan ≡ ok tt
unfolding validate_search_plan
validate_search_plan_complete k plan w = rw w.ordered (
    rw (searchable_visit k plan w.searchable) (
      rw (visit_preferences k true (of_list plan.preferences) (tally_of plan)) (
        (counts_ok (length (tally_of plan).party_counts) (group_totals plan.hard)
            (length (gather_parties plan.hard))).1
          (w.one_party, w.priced))))

-- `validateSearchPlan` accepts a plan exactly if the order is not `nearest`, every atom of the
-- hard condition is one that the search can check where it stands, the unconditional party
-- counts name at most one number, and a budget for a group's total, however deep in the hard
-- condition, comes with exactly one unconditional party count.
pub validate_search_plan_iff :
    (k : Checks) (plan : Plan) → (validate_search_plan k plan ≡ ok tt) ↔ IsSearchPlan k plan
validate_search_plan_iff k plan =
    (validate_search_plan_sound k plan, validate_search_plan_complete k plan)

only_one : (ns : List Number) → length ns ≡ 1 → (n : Number) × (only ns ≡ some n)
only_one (n ∷ []) h = (n, refl)
only_one [] h = ground arith
only_one (m ∷ n ∷ ns) h = ground arith

-- In an accepted plan whose hard condition bounds a group's total, the party is known, so that
-- the check of the budget has a number of people to multiply the price by.
pub group_budget_has_party :
    (k : Checks) (plan : Plan)
    → validate_search_plan k plan ≡ ok tt
    → ¬ group_totals plan.hard ≡ 0
    → (count : Number) × (plan_party_count plan ≡ some count)
unfolding plan_party_count
group_budget_has_party k plan h some_budget = elim (validate_search_plan_sound k plan h).priced [
  | inl none_there ↦ elim (some_budget none_there) [ ]
  | inr one ↦ only_one (gather_parties plan.hard) one
]

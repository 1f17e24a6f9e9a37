-- ===== src/Plan/Search/Budgets.antt =====
-- web/lib/plan-evidence.ts: what a supported event says about the budget of an accepted plan.
use event_recommender.Prelude.{
  ◌≡◌, refl, sym, subst, ◌∙◌, inl, inr, true, false, List, [], ◌∷◌, ◌++◌, Option, some, ok,
  Bool-cases, Option-cases, arith,
}
use event_recommender.Prelude.Text.{Text}
use event_recommender.Prelude.Number.{Number, num_times}
use event_recommender.Plan.{Atom, budget, group_total, Comparison, all, Condition, Plan, of_list}
use event_recommender.Plan.Evaluate.Event.{Checks, EventRecord}
use event_recommender.Plan.Evaluate.{
  Status, supported, unknown, contradicted, Checked, status_of, statuses, evaluate, evaluate_each,
  plan_party_count, leaf_status,
}
use event_recommender.Plan.Evaluate.Logic.{meet, meet_all, group-all}
use event_recommender.Plan.Evaluate.Atoms.{atom_result, evaluate_plan}
use event_recommender.Plan.Evaluate.Atoms.Labels.{is_elsewhere}
use event_recommender.Plan.Evaluate.Atoms.Session.{budget_result, compare_price}
use event_recommender.Plan.Search.{validate_search_plan}
use event_recommender.Plan.Search.Accepted.{group_totals}
use event_recommender.Plan.Search.Plans.{group_budget_has_party}

meet-supported : (s t : Status) → meet s t ≡ supported → (s ≡ supported) × (t ≡ supported)
unfolding meet
meet-supported supported t h = (refl, h)
meet-supported unknown supported h = cc
meet-supported unknown unknown h = cc
meet-supported unknown contradicted h = cc
meet-supported contradicted t h = cc

contradicted-ne-supported : ¬ contradicted ≡ supported
contradicted-ne-supported h = cc

-- Every member of a supported conjunction is supported.
member_supported :
    (check : Atom → Checked) (before : List Condition) (c : Condition) (after : List Condition)
    → meet_all (statuses (evaluate_each check false (of_list (before ++ c ∷ after)))) ≡ supported
    → status_of (evaluate check false c) ≡ supported
unfolding evaluate meet_all
member_supported check [] c after h = (meet-supported _ _ h).0
member_supported check (b ∷ before) c after h =
    member_supported check before c after (meet-supported _ _ h).1

conjunct_supported :
    (check : Atom → Checked) (before : List Condition) (c : Condition) (after : List Condition)
    (id : Option Text)
    → status_of (evaluate check false (Condition.group all (of_list (before ++ c ∷ after)) id))
      ≡ supported
    → status_of (evaluate check false c) ≡ supported
unfolding evaluate
conjunct_supported check before c after id h =
    member_supported check before c after (sym (group-all _) ∙ h)

-- The evidence for a plan is supported if the plan is.
plan_supported :
    (k : Checks) (e : EventRecord) (plan : Plan)
    → (evaluate_plan k e plan).status ≡ supported
    → (is_elsewhere e.labels ≡ false)
      × (status_of (evaluate (atom_result k e (plan_party_count plan)) false plan.hard) ≡ supported)
unfolding evaluate_plan
plan_supported k e plan h = elim (Bool-cases (is_elsewhere e.labels)) [
  | inl q ↦ elim (contradicted-ne-supported (rw q at h)) [ ]
  | inr q ↦ (q, rw q at h)
]

has_group_total :
    (comparison : Comparison) (amount : Number) (before after : List Condition)
    (id gid : Option Text)
    → ¬ group_totals (
        Condition.group all
          (of_list (before ++ Condition.atom (budget comparison amount group_total) id ∷ after))
          gid)
      ≡ 0
unfolding group_totals
has_group_total comparison amount [] after id gid h = omega (arith, h)
has_group_total comparison amount (b ∷ before) after id gid h =
    has_group_total comparison amount before after id gid (omega (arith, h))

-- What a supported group budget says of the event.
supported_group_budget :
    (k : Checks) (e : EventRecord) (comparison : Comparison) (amount count : Number)
    → (budget_result k e comparison amount group_total (some count)).status ≡ supported
    → (price : Number) × (e.price ≡ some price)
      × (compare_price k e comparison (num_times price count) amount ≡ true)
unfolding budget_result
supported_group_budget k e comparison amount count h = elim (Option-cases e.price) [
  | inl q ↦ cc
  | inr (price, q) ↦ (price, q, ground arith)
]

-- If a plan is accepted and an event is supported for it, and a budget for the group's total
-- stands among the plan's hard conditions, then the plan states one number of people, the event
-- has a price, and that price times that number is within the budget.
pub group_budget_respected :
    (k : Checks) (e : EventRecord) (plan : Plan) (comparison : Comparison) (amount : Number)
    (before after : List Condition) (id gid : Option Text)
    → plan.hard
      ≡ Condition.group all
          (of_list (before ++ Condition.atom (budget comparison amount group_total) id ∷ after))
          gid
    → validate_search_plan k plan ≡ ok tt
    → (evaluate_plan k e plan).status ≡ supported
    → (count : Number) × (price : Number) × (plan_party_count plan ≡ some count)
      × (e.price ≡ some price)
      × (compare_price k e comparison (num_times price count) amount ≡ true)
unfolding atom_result evaluate leaf_status
group_budget_respected k e plan comparison amount before after id gid root accepted h =
    let (count, known) =
      group_budget_has_party k plan accepted
        (rw root (has_group_total comparison amount before after id gid)) in
    let whole = (plan_supported k e plan h).1 in
    let one =
      conjunct_supported (atom_result k e (plan_party_count plan)) before
        (Condition.atom (budget comparison amount group_total) id) after gid
        (subst
          (λ c. status_of (evaluate (atom_result k e (plan_party_count plan)) false c) ≡ supported)
          root whole) in
    let (price, priced, within) =
      supported_group_budget k e comparison amount count (rw known at one) in
    (count, price, known, priced, within)

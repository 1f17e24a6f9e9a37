-- ===== src/Plan/Search.antt =====
-- web/lib/plan-evidence.ts, lines 415 to 475: the plans that the search accepts.
-- The visitor's counters are a record that is passed from condition to condition.
pub mod Accepted
pub mod Plans
pub mod Budgets
use event_recommender.Prelude.{
  ℕ, ◌+◌, Bool, true, false, ◌&&◌, ◌||◌, not, List, [], ◌∷◌, ◌++◌, is_some, if◌then◌else◌, leb,
  ◌==◌, length, any_of, Result, ok, err, guard, ◌>>=◌, ◌>>◌, String,
}
use event_recommender.Prelude.Number.{Number, nan, num_eq}
use event_recommender.Plan.{
  Atom, budget, party, age, mood, companion, location, experience, BudgetBasis, Comparison,
  LocationPrecision, Experience, Order, Connective, all, Condition, Conditions, Plan, of_list,
}
use event_recommender.Plan.Evaluate.Event.{Checks}

pub record Tally : Type 0 where
  pub parties : ℕ
  pub group_budgets : ℕ
  pub party_counts : List Number

abbrev pub no_tally : Tally
no_tally = record { parties = 0; group_budgets = 0; party_counts = [] }

-- The equality of a Set of numbers.
abbrev same_value : Number → Number → Bool
same_value nan nan = true
same_value a b = num_eq a b

-- partyCounts.add(count)
unfoldable pub set_add : List Number → Number → List Number
unfolding any_of
set_add counts count = if any_of (same_value count) counts then counts else counts ++ count ∷ []

abbrev pub is_group_total : BudgetBasis → Bool
is_group_total BudgetBasis.group_total = true
is_group_total _ = false

abbrev pub is_approx : Comparison → Bool
is_approx Comparison.approx = true
is_approx _ = false

abbrev pub is_all : Connective → Bool
is_all all = true
is_all _ = false

abbrev pub is_nearest : Order → Bool
is_nearest Order.nearest = true
is_nearest _ = false

-- `groupBudgets++` of a budget
unfoldable pub count_budget : BudgetBasis → Tally → Tally
count_budget basis t =
    if is_group_total basis then record t { group_budgets = t.group_budgets + 1 } else t

unfoldable pub count_party : Number → Tally → Tally
count_party count t = record t {
  parties = t.parties + 1;
  party_counts = set_add t.party_counts count;
}

module _ (k : Checks) where
  unfoldable pub is_canonical : Atom → Bool
  unfolding is_some
  is_canonical (location name LocationPrecision.side) = is_some (k.side_named (k.normalize name))
  is_canonical (location name precision) = is_some (k.canonical_district (k.normalize name))
  is_canonical _ = true

  -- The checks of an atom of the hard condition; an atom of a preference passes every one.
  unfoldable pub visit_hard : Bool → Atom → Tally → Result Tally
  unfolding count_budget count_party
  visit_hard unconditional (mood value) t =
      err "moods are ranking preferences, not verified venue properties"
  visit_hard unconditional (party count) t =
      guard unconditional "party cannot be conditional" >> ok (count_party count t)
  visit_hard unconditional (companion value) t =
      guard unconditional "companion cannot be conditional" >> ok t
  visit_hard unconditional (budget comparison amount basis) t =
      guard (not (is_approx comparison)) "approximate hard budgets are unsupported"
      >> ok (count_budget basis t)
  visit_hard unconditional (location name LocationPrecision.neighborhood) t =
      err "neighborhood evidence is unsupported"
  visit_hard unconditional (location name precision) t =
      guard (is_canonical (location name precision)) "noncanonical district is unsupported" >> ok t
  visit_hard unconditional (experience Experience.beginner_friendly) t =
      err "experience evidence is unsupported"
  visit_hard unconditional _ t = ok t

  unfoldable pub visit_atom : Bool → Bool → Atom → Tally → Result Tally
  visit_atom hard unconditional atom t = if hard then visit_hard unconditional atom t else ok t

  unfoldable mutual
    unfolding visit_atom

    pub visit : Bool → Bool → Condition → Tally → Result Tally
    visit hard unconditional (Condition.atom a id) t = visit_atom hard unconditional a t
    visit hard unconditional (Condition.not c id) t = visit hard false c t
    visit hard unconditional (Condition.group conn cs id) t =
        visit_each hard (unconditional && is_all conn) cs t

    pub visit_each : Bool → Bool → Conditions → Tally → Result Tally
    visit_each hard unconditional Conditions.nil t = ok t
    visit_each hard unconditional (Conditions.cons c cs) t =
        visit hard unconditional c t >>= λ u. visit_each hard unconditional cs u

  unfoldable pub validate_search_plan : Plan → Result (Unit {0})
  unfolding visit
  validate_search_plan plan =
      guard (not (is_nearest plan.order)) "nearest order requires user geolocation"
      >> visit true true plan.hard no_tally
      >>= λ t. visit_each false true (of_list plan.preferences) t >>= λ u.
          guard (leb (length u.party_counts) 1) "conflicting unconditional party counts"
          >> guard (u.group_budgets == 0 || u.parties == 1)
              "group total requires exactly one unconditional party count"

-- ===== src/Plan/Evaluate/Atoms/Session.antt =====
-- web/lib/plan-evidence.ts, `atomResult`: the checks of category, date, time and budget.
use mathlib.Core.Bool.{not as negate}
use event_recommender.Prelude.{
  Bool, true, false, ◌&&◌, ◌||◌, Option, none, some, List, [], ◌∷◌, ◌++◌, any_of, if◌then◌else◌,
}
use event_recommender.Prelude.Text.{Text, codes, text_eq, text_lt, text_le, includes}
use event_recommender.Prelude.Number.{Number, is_finite, num_lt, num_le, num_times}
use event_recommender.Plan.{BudgetBasis, Comparison, Category}
use event_recommender.Plan.Validate.{truthy, text_or_empty, is_true}
use event_recommender.Plan.Evaluate.Event.{
  Timing, timed_session, admission_window, EventRecord, Checks,
}
use event_recommender.Plan.Evaluate.{unknown, Checked, no_texts}
use event_recommender.Plan.Evaluate.Atoms.Labels.{
  result, category_labels, canonical_categories, supported_if, filter_in, unique_from, option_list,
  or_else,
}

module _ (k : Checks) (e : EventRecord) where
  labels_of : List Text
  labels_of =
      filter_in canonical_categories
        (e.category ∷ elim e.labels [ none ↦ [] | some l ↦ option_list l.category ])

  unfoldable pub category_result : Category → Checked
  unfolding labels_of filter_in canonical_categories category_labels unique_from any_of
  category_result value =
      result
        (if no_texts labels_of
          then unknown
          else supported_if (any_of (includes (category_labels value)) labels_of))
        (unique_from [] (or_else labels_of (e.category ∷ [])))

  session_day : Text → Text → Checked
  session_day from until =
      let day = k.day e.starts_at in
      result (supported_if (text_le from day && text_le day until)) (day ∷ [])

  unfoldable pub date_result : Text → Text → Checked
  unfolding session_day
  date_result from until = elim e.attendance_timing [
    | some (admission_window valid_from valid_through) ↦
        let first = k.day valid_from in
        let last = k.day valid_through in
        result (supported_if (text_le from last && text_le first until))
          ((first ++ codes "–" ++ last) ∷ [])
    | _ ↦ session_day from until
  ]

  abbrev has_no_session_time : Option Timing → Bool
  has_no_session_time none = false
  has_no_session_time (some timed_session) = false
  has_no_session_time (some _) = true

  abbrev after_from : Option Text → Bool → Text → Bool
  after_from from exclusive clock =
      negate (truthy from)
      || (if exclusive
          then text_lt (text_or_empty from) clock
          else text_le (text_or_empty from) clock)

  abbrev before_to : Option Text → Bool → Text → Bool
  before_to until exclusive clock =
      negate (truthy until)
      || (if exclusive
          then text_lt clock (text_or_empty until)
          else text_le clock (text_or_empty until))

  unfoldable pub time_result : Option Text → Option Text → Option Bool → Option Bool → Checked
  time_result from until from_exclusive to_exclusive =
      let clock = k.clock e.starts_at in
      if k.doors_only e.description || has_no_session_time e.attendance_timing
      then result unknown []
      else result
          (supported_if (
            after_from from (is_true from_exclusive) clock
            && before_to until (is_true to_exclusive) clock))
          (clock ∷ [])

  abbrev pub compare_price : Comparison → Number → Number → Bool
  compare_price Comparison.lt price amount = num_lt price amount
  compare_price Comparison.lte price amount = num_le price amount
  compare_price Comparison.gt price amount = num_lt amount price
  compare_price Comparison.gte price amount = num_le amount price
  compare_price Comparison.approx price amount = num_le amount price

  abbrev is_approx : Comparison → Bool
  is_approx Comparison.approx = true
  is_approx _ = false

  -- The price that the budget bounds: none if it is a group total and the party is unknown.
  abbrev pub bounded_price : BudgetBasis → Option Number → Number → Option Number
  bounded_price BudgetBasis.group_total none price = none
  bounded_price BudgetBasis.group_total (some count) price = some (num_times price count)
  bounded_price _ party_count price = some price

  abbrev known_price : Number → Comparison → Number → BudgetBasis → Option Number → Checked
  known_price price comparison amount basis party_count =
      elim (bounded_price basis party_count price) [
        | none ↦ result unknown []
        | some total ↦
            result (supported_if (compare_price comparison total amount))
              ((k.number_text total ++ codes " TRY") ∷ [])
      ]

  unfoldable pub budget_result : Comparison → Number → BudgetBasis → Option Number → Checked
  budget_result comparison amount basis party_count = elim e.price [
    | none ↦ result unknown []
    | some price ↦
        if is_approx comparison
          || negate (text_eq e.currency (codes "TRY"))
          || negate (is_finite price)
        then result unknown []
        else known_price price comparison amount basis party_count
  ]

-- ===== src/Plan/Evaluate/Atoms.antt =====
-- web/lib/plan-evidence.ts, lines 50 to 66, 119 to 335 and 402 to 413: the check of one atom
-- against one event. The checks of other files, the searches for words in the source text and
-- the clock of Istanbul are the functions of `Checks`.
pub mod Labels
pub mod Audience
pub mod Session
pub mod Location
use mathlib.Core.Bool.{not as negate}
use event_recommender.Prelude.{
  Bool, true, false, ◌&&◌, ◌||◌, Option, none, some, List, [], ◌∷◌, ◌++◌, every, any_of, is_some,
  if◌then◌else◌,
}
use event_recommender.Prelude.Text.{Text, codes, text_eq, text_lt, text_le, includes}
use event_recommender.Prelude.Number.{Number, num, millionths, is_finite, num_lt, num_le, num_times}
use event_recommender.Plan.{
  Atom, budget, party, age, mood, companion, date, time, location, category, topic, experience,
  content, BudgetBasis, Comparison, Category, LocationPrecision, Companion, Experience, Content,
  Condition, Plan,
}
use event_recommender.Plan.Validate.{truthy, text_or_empty, is_true}
use event_recommender.Plan.Evaluate.Event.{
  Timing, timed_session, admission_window, LabelAudience, general, adult_only, family, children,
  LabelPlace, istanbul, other_city, online, unknown_place, EventLabels, EventRecord,
  RequirementKind, Side, europe, asia, Checks,
}
use event_recommender.Plan.Evaluate.{
  Status, supported, unknown, contradicted, is_supported, is_unknown, Checked, PlanEvidence,
  status_of, no_texts, evaluate, plan_party_count,
}
use event_recommender.Plan.Evaluate.Atoms.Labels.{
  result, label_evidence, label_support, child_suitable_from, child_unsuitable_to, category_labels,
  canonical_categories, genre_topics, supported_if, filter_in, unique_from, option_list, number_or,
  or_else, is_adult_only, is_for_children, admits_adults, is_elsewhere, place_word, option_test,
  or_text, labelled_district, place_word_of, place_evidence_of, format_evidence_of, outdoor_of,
  seated_of,
}
use event_recommender.Plan.Evaluate.Atoms.Audience.{child_audience, age_result}
use event_recommender.Plan.Evaluate.Atoms.Session.{
  category_result, date_result, time_result, budget_result,
}
use event_recommender.Plan.Evaluate.Atoms.Location.{location_result}

module _ (k : Checks) (e : EventRecord) where
  unfoldable pub topic_result : Text → Checked
  unfolding genre_topics
  topic_result value =
      let sentences = k.topic_sentences e value in
      if includes genre_topics value
      then k.predicate e RequirementKind.genre value
      else result (if no_texts sentences then unknown else supported) sentences

  abbrev open_air_result : List Text → Checked
  open_air_result [] =
      if num_le label_support (outdoor_of e.labels)
      then result supported
          (label_evidence (format_evidence_of e.labels ∷ some (codes "labeled outdoor") ∷ []))
      else result unknown []
  open_air_result (t ∷ ts) = result supported (t ∷ ts)

  seated_result : Checked
  seated_result =
      let check = k.predicate e RequirementKind.activity (codes "seated") in
      if is_unknown check.status && num_le label_support (seated_of e.labels)
      then result supported
          (label_evidence (format_evidence_of e.labels ∷ some (codes "labeled seated") ∷ []))
      else check

  unfoldable pub experience_result : Experience → Checked
  unfolding seated_result label_evidence
  experience_result Experience.outdoors = open_air_result (k.open_air_sentences e)
  experience_result Experience.seated = seated_result
  experience_result Experience.quiet = k.predicate e RequirementKind.activity (codes "quiet")
  experience_result Experience.romantic = k.predicate e RequirementKind.activity (codes "romantic")
  experience_result Experience.uncrowded =
      k.predicate e RequirementKind.activity (codes "uncrowded")
  experience_result Experience.family_friendly =
      k.predicate e RequirementKind.audience (codes "family_friendly")
  experience_result Experience.wheelchair_accessible =
      k.predicate e RequirementKind.accessibility (codes "step_free")
  experience_result Experience.beginner_friendly = result unknown []

  unfoldable pub content_result : Content → Checked
  content_result Content.profanity = k.predicate e RequirementKind.content (codes "swearing")
  content_result Content.sexual_content =
      k.predicate e RequirementKind.content (codes "sexual_content")

  unfoldable pub atom_result : Option Number → Atom → Checked
  unfolding category_result date_result time_result budget_result location_result topic_result
      experience_result content_result child_audience age_result
  atom_result party_count (category value) = category_result k e value
  atom_result party_count (date from until) = date_result k e from until
  atom_result party_count (time from until from_exclusive to_exclusive) =
      time_result k e from until from_exclusive to_exclusive
  atom_result party_count (budget comparison amount basis) =
      budget_result k e comparison amount basis party_count
  atom_result party_count (location name precision) = location_result k e name precision
  atom_result party_count (topic value) = topic_result value
  atom_result party_count (experience value) = experience_result value
  atom_result party_count (content value) = content_result value
  atom_result party_count (party count) = result supported []
  atom_result party_count (companion Companion.children) = child_audience k e
  atom_result party_count (companion Companion.family) = child_audience k e
  atom_result party_count (companion value) = result supported []
  atom_result party_count (age years) = age_result k e years
  atom_result party_count (mood value) = result unknown []

-- { status, evidence }
pub record PlanEvaluation : Type 0 where
  pub status : Status
  pub evidence : PlanEvidence

unfoldable pub evaluate_plan : Checks → EventRecord → Plan → PlanEvaluation
unfolding evaluate plan_party_count
evaluate_plan k e plan =
    let evidence = evaluate (atom_result k e (plan_party_count plan)) false plan.hard in
    if is_elsewhere e.labels
    then record { status = contradicted; evidence = evidence }
    else record { status = status_of evidence; evidence = evidence }

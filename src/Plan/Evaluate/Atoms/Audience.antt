-- ===== src/Plan/Evaluate/Atoms/Audience.antt =====
-- web/lib/plan-evidence.ts, lines 127 to 163 and 320 to 332: the checks of age and of children.
use mathlib.Core.Bool.{not as negate}
use event_recommender.Prelude.{
  ◌&&◌, ◌||◌, Option, none, some, [], ◌∷◌, ◌++◌, is_some, if◌then◌else◌,
}
use event_recommender.Prelude.Text.{codes}
use event_recommender.Prelude.Number.{Number, num, num_lt, num_le}
use event_recommender.Plan.Evaluate.Event.{EventLabels, EventRecord, RequirementKind, Checks}
use event_recommender.Plan.Evaluate.{
  supported, unknown, contradicted, is_supported, is_unknown, Checked, no_texts,
}
use event_recommender.Plan.Evaluate.Atoms.Labels.{
  result, label_evidence, child_suitable_from, child_unsuitable_to, supported_if, number_or,
  or_else, is_adult_only, is_for_children, admits_adults, option_test,
}

module _ (k : Checks) (e : EventRecord) where
  child_label : EventLabels → Checked
  child_label l =
      let evidence = label_evidence (l.audience_evidence ∷ l.age_evidence ∷ []) in
      let measured = (codes "child-suitable " ++ k.to_fixed l.child_suitable) ∷ [] in
      if is_adult_only l.audience || option_test l.min_age (num_le (num 13))
      then result contradicted evidence
      else if is_for_children l.audience
      then result supported evidence
      else if option_test l.min_age (λ n. num_le n (num 10))
          || num_le child_suitable_from l.child_suitable
      then result supported (or_else evidence measured)
      else if num_le l.child_suitable child_unsuitable_to
      then result contradicted measured
      else result unknown evidence

  unfoldable pub child_audience : Checked
  unfolding child_label label_evidence
  child_audience = elim e.labels [
    | none ↦
        let check = k.predicate e RequirementKind.audience (codes "family_friendly") in
        result (if is_supported check.status then supported else unknown) check.evidence
    | some l ↦ child_label l
  ]

  -- No label states an age: the rules in the source text decide, and then the audience.
  stated_age : Option EventLabels → Number → Checked
  stated_age none years = k.age_rule e years
  stated_age (some l) years =
      let stated = k.age_rule e years in
      if negate (is_unknown stated.status) || negate (no_texts stated.evidence)
      then stated
      else if num_lt years (num 13)
      then child_audience
      else if admits_adults l.audience
      then result supported (label_evidence (l.audience_evidence ∷ []))
      else result unknown []

  labelled_age : EventLabels → Number → Checked
  labelled_age l years =
      if is_some l.min_age || is_some l.max_age
      then result
          (supported_if (
            num_le (number_or l.min_age (num 0)) years
            && num_le years (number_or l.max_age (num 120))))
          (label_evidence (l.age_evidence ∷ []))
      else if is_adult_only l.audience && num_lt years (num 18)
      then result contradicted (label_evidence (l.audience_evidence ∷ []))
      else stated_age (some l) years

  unfoldable pub age_result : Number → Checked
  unfolding labelled_age stated_age label_evidence is_some
  age_result years = elim e.labels [ none ↦ stated_age none years | some l ↦ labelled_age l years ]

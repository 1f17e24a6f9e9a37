-- ===== src/Plan/Evaluate/Atoms/Location.antt =====
-- web/lib/plan-evidence.ts, `atomResult`: the check of a location.
use event_recommender.Prelude.{Bool, true, false, Option, none, some, [], ◌∷◌, if◌then◌else◌}
use event_recommender.Prelude.Text.{Text, text_eq}
use event_recommender.Plan.{LocationPrecision}
use event_recommender.Plan.Validate.{truthy}
use event_recommender.Plan.Evaluate.Event.{EventRecord, Side, europe, asia, Checks}
use event_recommender.Plan.Evaluate.{supported, unknown, contradicted, Checked}
use event_recommender.Plan.Evaluate.Atoms.Labels.{
  result, label_evidence, supported_if, is_elsewhere, or_text, labelled_district, place_word_of,
  place_evidence_of,
}

module _ (k : Checks) (e : EventRecord) where
  abbrev same_side : Side → Side → Bool
  same_side europe europe = true
  same_side asia asia = true
  same_side _ _ = false

  -- event.district || event.address || event.venue
  abbrev whereabouts : Text
  whereabouts = or_text e.district (or_text e.address e.venue)

  -- eventLocation(event).side, or that of the labelled district
  located_side : Option Side
  located_side = elim (k.event_side e) [
    | some s ↦ some s
    | none ↦ elim (labelled_district e.labels) [
      | none ↦ none
      | some d ↦ k.event_side (record e { district = d })
    ]
  ]

  side_result : Text → Checked
  side_result name = elim (k.side_named (k.normalize name)) [
    | none ↦ result unknown []
    | some wanted ↦ elim located_side [
      | none ↦ result unknown []
      | some actual ↦ result (supported_if (same_side actual wanted)) (whereabouts ∷ [])
    ]
  ]

  labelled_place : Text → Checked
  labelled_place name = elim (labelled_district e.labels) [
    | none ↦ result unknown (if truthy (some e.district) then e.district ∷ [] else [])
    | some labelled ↦
        result (supported_if (text_eq (k.normalize labelled) (k.normalize name)))
          (label_evidence (some labelled ∷ place_evidence_of e.labels ∷ []))
  ]

  district_result : Text → Checked
  district_result name =
      if k.eligible_in e name
      then result supported (whereabouts ∷ [])
      else elim (k.canonical_district (k.normalize e.district)) [
        | none ↦ labelled_place name
        | some own ↦
            if k.eligible_in e own then result contradicted (own ∷ []) else labelled_place name
      ]

  unfoldable pub location_result : Text → LocationPrecision → Checked
  unfolding side_result district_result labelled_place located_side label_evidence
  location_result name precision =
      if is_elsewhere e.labels
      then result contradicted
          (label_evidence (place_word_of e.labels ∷ place_evidence_of e.labels ∷ []))
      else elim precision [
        | LocationPrecision.neighborhood ↦ result unknown []
        | LocationPrecision.side ↦ side_result name
        | LocationPrecision.district ↦ district_result name
      ]

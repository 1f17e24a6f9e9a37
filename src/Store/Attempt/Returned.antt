-- ===== src/Store/Attempt/Returned.antt =====
-- web/lib/store.gcp.ts, `publicationAttempt`: the object that it returns.
use event_recommender.Prelude.{
  ◌≡◌, refl, sym, ap, subst, ◌∙◌, Bool, true, false, Option, some, is_some,
}
use event_recommender.Prelude.Text.{Text, codes, text_eq}
use event_recommender.Prelude.Number.{num}
use event_recommender.Prelude.Value.{Value, Fields, no_fields, with_field, field}
use event_recommender.Store.Attempt.{
  Stored, stored_of, fields_of, with_defined, has_invalid_field, is_contradictory,
  publication_attempt, returned,
}
use event_recommender.Store.Attempt.Accepted.{IsDiagnosis, publication_attempt_iff}

-- The last fields, with the one that may be missing before them.
last_fields : Stored → Fields
last_fields s =
    with_field (codes "outcome") s.outcome
      (with_field (codes "failureCode") s.failure_code no_fields)

field-started :
    (v : Value) (s : Stored)
    → field
        (codes "phaseStartedElapsedMs")
        (with_defined (codes "phaseStartedElapsedMs") v (last_fields s))
      ≡ v
unfolding field with_defined last_fields text_eq
field-started Value.undefined s = refl
field-started Value.null s = refl
field-started (Value.boolean b) s = refl
field-started (Value.number n) s = refl
field-started (Value.text t) s = refl
field-started (Value.array vs) s = refl
field-started (Value.object f) s = refl

field-outcome :
    (v : Value) (s : Stored)
    → field (codes "outcome") (with_defined (codes "phaseStartedElapsedMs") v (last_fields s))
      ≡ s.outcome
unfolding field with_defined last_fields text_eq
field-outcome Value.undefined s = refl
field-outcome Value.null s = refl
field-outcome (Value.boolean b) s = refl
field-outcome (Value.number n) s = refl
field-outcome (Value.text t) s = refl
field-outcome (Value.array vs) s = refl
field-outcome (Value.object f) s = refl

field-failure :
    (v : Value) (s : Stored)
    → field (codes "failureCode") (with_defined (codes "phaseStartedElapsedMs") v (last_fields s))
      ≡ s.failure_code
unfolding field with_defined last_fields text_eq
field-failure Value.undefined s = refl
field-failure Value.null s = refl
field-failure (Value.boolean b) s = refl
field-failure (Value.number n) s = refl
field-failure (Value.text t) s = refl
field-failure (Value.array vs) s = refl
field-failure (Value.object f) s = refl

abbrev with_four : Stored → (version started outcome failure : Value) → Stored
with_four s version started outcome failure = record s {
  schema_version = version;
  phase_started_elapsed_ms = started;
  outcome = outcome;
  failure_code = failure;
}

abbrev tail_of : Stored → Fields
tail_of s = with_defined (codes "phaseStartedElapsedMs") s.phase_started_elapsed_ms (last_fields s)

read_back :
    (s : Stored)
    → stored_of (fields_of s)
      ≡ with_four s
          (Value.number (num 1))
          (field (codes "phaseStartedElapsedMs") (tail_of s))
          (field (codes "outcome") (tail_of s))
          (field (codes "failureCode") (tail_of s))
unfolding stored_of fields_of field text_eq last_fields
read_back s = refl

-- Reading the rebuilt object gives the properties that it was built from.
stored_of-fields_of :
    (s : Stored) → s.schema_version ≡ Value.number (num 1) → stored_of (fields_of s) ≡ s
stored_of-fields_of s version =
    let v = s.phase_started_elapsed_ms in
    read_back s
    ∙ ap
        (λ x.
          with_four s (Value.number (num 1)) x (field (codes "outcome") (tail_of s))
            (field (codes "failureCode") (tail_of s)))
        (field-started v s)
    ∙ ap (λ x. with_four s (Value.number (num 1)) v x (field (codes "failureCode") (tail_of s)))
        (field-outcome v s)
    ∙ ap (λ x. with_four s (Value.number (num 1)) v s.outcome x) (field-failure v s)
    ∙ ap (λ x. with_four s x v s.outcome s.failure_code) (sym version)

returned_is :
    (invalid contradictory : Bool) (v u : Value)
    → returned invalid contradictory v ≡ some u
    → (returned invalid contradictory v ≡ some v) × (u ≡ v)
returned_is true contradictory v u h = cc
returned_is false true v u h = cc
returned_is false false v u h = (refl, cc)

-- What the validator makes of an object with the properties `s`.
abbrev answer : (is_timestamp : Text → Bool) → Stored → Option Value
answer is_timestamp s =
    returned (has_invalid_field is_timestamp s) (is_contradictory s.outcome s.failure_code s.phase)
      (Value.object (fields_of s))

-- The result is an object with the same values of the fifteen properties as the stored one,
-- whatever else stood there, and the validator returns that object as it is.
pub publication_attempt-twice :
    (is_timestamp : Text → Bool) (f : Fields) (u : Value)
    → publication_attempt is_timestamp (Value.object f) ≡ some u
    → ((g : Fields) × (u ≡ Value.object g) × (stored_of g ≡ stored_of f))
      × (publication_attempt is_timestamp u ≡ some u)
unfolding publication_attempt is_some
publication_attempt-twice is_timestamp f u h =
    let s = stored_of f in
    let accepted : is_some (publication_attempt is_timestamp (Value.object f)) ≡ true =
      ap is_some h in
    let d : IsDiagnosis is_timestamp s =
      (publication_attempt_iff is_timestamp (Value.object f)).0 accepted in
    let same = stored_of-fields_of s d.version in
    let (again, e) = returned_is _ _ _ u h in
    (
      (fields_of s, e, same),
      subst (λ w. publication_attempt is_timestamp w ≡ some w) (sym e)
          (subst (λ r. answer is_timestamp r ≡ some (Value.object (fields_of s))) (sym same) again),
    )

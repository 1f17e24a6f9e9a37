-- ===== src/Store/Attempt.antt =====
-- web/lib/store.gcp.ts, lines 98 to 178: the validator of the stored record of a checkpoint's
-- publication. `is_timestamp` tells whether `new Date(Date.parse(t)).toISOString() === t`.
pub mod Values
pub mod States
pub mod Accepted
pub mod Returned
use event_recommender.Prelude.{
  ℕ, ◌+◌, ◌*◌, Bool, true, false, ◌&&◌, ◌||◌, not, Option, none, some, List, [], ◌∷◌, every, length,
  if◌then◌else◌, leb, ◌==◌,
}
use event_recommender.Prelude.Text.{Text, codes, text_eq, includes}
use event_recommender.Prelude.Number.{Number, num, num_le, num_lt, num_eq}
use event_recommender.Prelude.Value.{Value, Fields, no_fields, with_field, field}
use event_recommender.Store.Leases.{is_safe_integer}

-- publicationPhases
abbrev pub publication_phases : List Text
publication_phases =
    codes "source_heads"
    ∷ codes "source_reads"
    ∷ codes "materialize"
    ∷ codes "write_search"
    ∷ codes "write_checkpoint"
    ∷ codes "activate"
    ∷ codes "complete"
    ∷ []

-- publicationFailures
abbrev pub publication_failures : List Text
publication_failures =
    codes "request_aborted" ∷ codes "deadline_exceeded" ∷ codes "publication_failed" ∷ []

abbrev pub publication_outcomes : List Text
publication_outcomes = codes "running" ∷ codes "succeeded" ∷ codes "failed" ∷ []

-- The properties of the object that are read, `undefined` where there is none.
pub record Stored : Type 0 where
  pub schema_version : Value
  pub attempt_id : Value
  pub deployment_revision : Value
  pub report_finished_at : Value
  pub started_at : Value
  pub phase : Value
  pub sources_total : Value
  pub sources_read : Value
  pub events : Value
  pub search_bytes : Value
  pub checkpoint_bytes : Value
  pub elapsed_ms : Value
  pub phase_started_elapsed_ms : Value
  pub outcome : Value
  pub failure_code : Value

unfoldable pub stored_of : Fields → Stored
unfolding field
stored_of f = record {
  schema_version = field (codes "schemaVersion") f;
  attempt_id = field (codes "attemptId") f;
  deployment_revision = field (codes "deploymentRevision") f;
  report_finished_at = field (codes "reportFinishedAt") f;
  started_at = field (codes "startedAt") f;
  phase = field (codes "phase") f;
  sources_total = field (codes "sourcesTotal") f;
  sources_read = field (codes "sourcesRead") f;
  events = field (codes "events") f;
  search_bytes = field (codes "searchBytes") f;
  checkpoint_bytes = field (codes "checkpointBytes") f;
  elapsed_ms = field (codes "elapsedMs") f;
  phase_started_elapsed_ms = field (codes "phaseStartedElapsedMs") f;
  outcome = field (codes "outcome") f;
  failure_code = field (codes "failureCode") f;
}

-- [a-f0-9]
abbrev pub is_hex : ℕ → Bool
is_hex c = (leb b'a' c && leb c b'f') || (leb b'0' c && leb c b'9')

-- revisionPattern
unfoldable pub is_revision : Text → Bool
unfolding every
is_revision t = length t == 40 && every is_hex t

-- What stands at a place of an attempt's id.
abbrev id_char : ℕ → ℕ → Bool
id_char place c =
    if place == 8 || place == 13 || place == 18 || place == 23
    then c == b'-'
    else if place == 14
    then c == b'4'
    else if place == 19
    then c == b'8' || c == b'9' || c == b'a' || c == b'b'
    else is_hex c

every_from : ℕ → Text → Bool
every_from place [] = true
every_from place (c ∷ t) = id_char place c && every_from (place + 1) t

-- attemptIdPattern
unfoldable pub is_attempt_id : Text → Bool
unfolding every_from
is_attempt_id t = length t == 36 && every_from 0 t

abbrev pub max_count : ℕ
max_count = 100_000

abbrev pub max_bytes : ℕ
max_bytes = 536_870_912

abbrev pub max_elapsed : ℕ
max_elapsed = 86_400_000

abbrev pub is_null : Value → Bool
is_null Value.null = true
is_null _ = false

abbrev pub is_undefined : Value → Bool
is_undefined Value.undefined = true
is_undefined _ = false

-- value === n
abbrev pub is_number : ℕ → Value → Bool
is_number n (Value.number m) = num_eq m (num n)
is_number n _ = false

-- typeof value === 'string' && test(value)
abbrev pub is_text_where : (Text → Bool) → Value → Bool
is_text_where test (Value.text t) = test t
is_text_where test _ = false

-- value === name
abbrev pub is_name : Text → Value → Bool
is_name name (Value.text t) = text_eq t name
is_name name _ = false

unfoldable pub count : Value → (maximum : ℕ) → Bool
count (Value.number n) maximum = is_safe_integer n && num_le (num 0) n && num_le n (num maximum)
count _ maximum = false

-- a > b, of numbers
abbrev pub exceeds : Value → Value → Bool
exceeds (Value.number a) (Value.number b) = num_lt b a
exceeds _ _ = false

-- The first test fails: each field by itself, and the counts and times that bound one another.
unfoldable pub has_invalid_field : (is_timestamp : Text → Bool) → Stored → Bool
has_invalid_field is_timestamp s =
    not (is_number 1 s.schema_version)
    || not (is_text_where is_attempt_id s.attempt_id)
    || (not (is_null s.deployment_revision)
        && not (is_text_where is_revision s.deployment_revision))
    || not (is_text_where is_timestamp s.report_finished_at)
    || not (is_text_where is_timestamp s.started_at)
    || not (is_text_where (includes publication_phases) s.phase)
    || not (count s.sources_total max_count)
    || not (count s.sources_read max_count)
    || exceeds s.sources_read s.sources_total
    || not (count s.events max_count)
    || (not (is_null s.search_bytes) && not (count s.search_bytes max_bytes))
    || (not (is_null s.checkpoint_bytes) && not (count s.checkpoint_bytes max_bytes))
    || not (count s.elapsed_ms max_elapsed)
    || (not (is_undefined s.phase_started_elapsed_ms)
        && (not (count s.phase_started_elapsed_ms max_elapsed)
            || exceeds s.phase_started_elapsed_ms s.elapsed_ms))
    || not (is_text_where (includes publication_outcomes) s.outcome)
    || (not (is_null s.failure_code)
        && not (is_text_where (includes publication_failures) s.failure_code))

-- The second test fails: the outcome, the failure code and the phase disagree.
unfoldable pub is_contradictory : (outcome failure_code phase : Value) → Bool
is_contradictory outcome failure_code phase =
    (is_name (codes "running") outcome
      && (not (is_null failure_code) || is_name (codes "complete") phase))
    || (is_name (codes "succeeded") outcome
        && (not (is_null failure_code) || not (is_name (codes "complete") phase)))
    || (is_name (codes "failed") outcome && is_null failure_code)

-- The field is only written if it is defined.
unfoldable pub with_defined : Text → Value → Fields → Fields
with_defined key v rest = if is_undefined v then rest else with_field key v rest

-- The object that is returned.
unfoldable pub fields_of : Stored → Fields
unfolding with_defined
fields_of s = with_field (codes "schemaVersion") (Value.number (num 1)) (
    with_field (codes "attemptId") s.attempt_id (
      with_field (codes "deploymentRevision") s.deployment_revision (
        with_field (codes "reportFinishedAt") s.report_finished_at (
          with_field (codes "startedAt") s.started_at (
            with_field (codes "phase") s.phase (
              with_field (codes "sourcesTotal") s.sources_total (
                with_field (codes "sourcesRead") s.sources_read (
                  with_field (codes "events") s.events (
                    with_field (codes "searchBytes") s.search_bytes (
                      with_field (codes "checkpointBytes") s.checkpoint_bytes (
                        with_field (codes "elapsedMs") s.elapsed_ms (
                          with_defined (codes "phaseStartedElapsedMs") s.phase_started_elapsed_ms (
                            with_field (codes "outcome") s.outcome (
                              with_field (codes "failureCode") s.failure_code
                                no_fields))))))))))))))

abbrev returned : Bool → Bool → Value → Option Value
returned invalid contradictory v = if invalid then none else if contradictory then none else some v

unfoldable pub publication_attempt : (is_timestamp : Text → Bool) → Value → Option Value
unfolding stored_of fields_of has_invalid_field is_contradictory
publication_attempt is_timestamp (Value.object f) =
    let s = stored_of f in
    returned (has_invalid_field is_timestamp s) (is_contradictory s.outcome s.failure_code s.phase)
      (Value.object (fields_of s))
publication_attempt is_timestamp _ = none

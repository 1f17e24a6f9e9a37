-- ===== src/Store/Attempt/Accepted.antt =====
-- web/lib/store.gcp.ts, `publicationAttempt`: which values it accepts, and what it returns.
use event_recommender.Prelude.{
  ℕ, ◌≤◌, ◌≡◌, ◌⊎◌, ◌↔◌, refl, sym, subst, ap, inl, inr, Bool, true, false, ◌&&◌, ◌||◌, not, none,
  arith, is_some,
}
use event_recommender.Prelude.Text.{Text, includes}
use event_recommender.Prelude.Number.{nan, infinity, minus_infinity, millionths, minus, num, num_eq}
use event_recommender.Prelude.Value.{Value}
use event_recommender.Store.Attempt.{
  Stored, stored_of, fields_of, count, exceeds, is_null, is_undefined, is_number, is_text_where,
  publication_phases, publication_failures, publication_outcomes, is_attempt_id, is_revision,
  has_invalid_field, is_contradictory, publication_attempt, returned,
}
use event_recommender.Store.Attempt.States.{State, State-iff}
use event_recommender.Store.Attempt.Values.{
  IsText, IsCount, IsNullOr, text_iff, count_iff, exceeds_iff, IsNullOr-iff,
}

-- What the validator promises of the properties of an object.
pub record IsDiagnosis (is_timestamp : Text → Bool) (s : Stored) : Type 0 where
  pub version : s.schema_version ≡ Value.number (num 1)
  pub named : IsText (λ t. is_attempt_id t ≡ true) s.attempt_id
  pub revised : IsNullOr (IsText (λ t. is_revision t ≡ true)) s.deployment_revision
  pub reported : IsText (λ t. is_timestamp t ≡ true) s.report_finished_at
  pub started : IsText (λ t. is_timestamp t ≡ true) s.started_at
  pub total : ℕ
  pub is_total : IsCount 100_000 s.sources_total total
  pub read : ℕ
  pub is_read : IsCount 100_000 s.sources_read read
  pub read_within : read ≤ total
  pub counted : (n : ℕ) × IsCount 100_000 s.events n
  pub searched : IsNullOr (λ v. (n : ℕ) × IsCount 536_870_912 v n) s.search_bytes
  pub checked : IsNullOr (λ v. (n : ℕ) × IsCount 536_870_912 v n) s.checkpoint_bytes
  pub elapsed : ℕ
  pub is_elapsed : IsCount 86_400_000 s.elapsed_ms elapsed
  pub phase_started :
      (s.phase_started_elapsed_ms ≡ Value.undefined)
      ⊎ (n : ℕ) × IsCount 86_400_000 s.phase_started_elapsed_ms n × (n ≤ elapsed)
  pub state : State s.outcome s.failure_code s.phase

or_iff : (a b : Bool) → ((a || b) ≡ false) ↔ ((a ≡ false) × (b ≡ false))
or_iff a b = ground arith

one_of : (v : Value) → is_number 1 v ≡ true → v ≡ Value.number (num 1)
unfolding num_eq
one_of (Value.number (millionths m)) h = ap (λ k. Value.number (millionths k)) (ground arith)
one_of (Value.number (minus m)) h = cc
one_of (Value.number nan) h = cc
one_of (Value.number infinity) h = cc
one_of (Value.number minus_infinity) h = cc
one_of (Value.text t) h = cc
one_of Value.undefined h = cc
one_of Value.null h = cc
one_of (Value.boolean b) h = cc
one_of (Value.array vs) h = cc
one_of (Value.object f) h = cc

is_one_iff : (v : Value) → (not (is_number 1 v) ≡ false) ↔ (v ≡ Value.number (num 1))
unfolding num_eq
is_one_iff v =
    (λ h. one_of v (ground arith), λ h. subst (λ u. not (is_number 1 u) ≡ false) (sym h) refl)

undefined_cases : (v : Value) → (is_undefined v ≡ false) ⊎ (v ≡ Value.undefined)
undefined_cases Value.undefined = inr refl
undefined_cases Value.null = inl refl
undefined_cases (Value.boolean b) = inl refl
undefined_cases (Value.number n) = inl refl
undefined_cases (Value.text t) = inl refl
undefined_cases (Value.array vs) = inl refl
undefined_cases (Value.object f) = inl refl

-- The test of `phaseStartedElapsedMs`.
within_iff :
    (v e : Value) (elapsed : ℕ)
    → IsCount 86_400_000 e elapsed
    → ((not (is_undefined v) && (not (count v 86_400_000) || exceeds v e)) ≡ false)
      ↔ ((v ≡ Value.undefined) ⊎ (n : ℕ) × IsCount 86_400_000 v n × (n ≤ elapsed))
within_iff v e elapsed is_elapsed = (there, back)
  where
    there :
        (not (is_undefined v) && (not (count v 86_400_000) || exceeds v e)) ≡ false
        → (v ≡ Value.undefined) ⊎ (n : ℕ) × IsCount 86_400_000 v n × (n ≤ elapsed)
    there h = elim (undefined_cases v) [
      | inr u ↦ inl u
      | inl d ↦
          let (c, x) = (or_iff (not (count v 86_400_000)) (exceeds v e)).0 (rw d at h) in
          let (n, is_n) = (count_iff v 86_400_000 (omega arith)).0 c in
          inr (n, is_n, (exceeds_iff is_n is_elapsed).0 x)
    ]

    back :
        (v ≡ Value.undefined) ⊎ (n : ℕ) × IsCount 86_400_000 v n × (n ≤ elapsed)
        → (not (is_undefined v) && (not (count v 86_400_000) || exceeds v e)) ≡ false
    back (inl u) = rw u refl
    back (inr (n, is_n, le)) =
        let c = (count_iff v 86_400_000 (omega arith)).1 (n, is_n) in
        let x = (exceeds_iff is_n is_elapsed).1 le in ground arith

absent_or_text :
    (test : Text → Bool) (v : Value)
    → ((not (is_null v) && not (is_text_where test v)) ≡ false)
      ↔ IsNullOr (IsText (λ t. test t ≡ true)) v
absent_or_text test = IsNullOr-iff (λ v. not (is_text_where test v)) (text_iff test)

absent_or_bytes :
    (v : Value)
    → ((not (is_null v) && not (count v 536_870_912)) ≡ false)
      ↔ IsNullOr (λ u. (n : ℕ) × IsCount 536_870_912 u n) v
absent_or_bytes =
    IsNullOr-iff (λ v. not (count v 536_870_912)) (λ v. count_iff v 536_870_912 (omega arith))

module _ (is_timestamp : Text → Bool) (s : Stored) where
  -- The two tests let pass only diagnoses,
  IsDiagnosis-of_tests :
      has_invalid_field is_timestamp s ≡ false
      → is_contradictory s.outcome s.failure_code s.phase ≡ false
      → IsDiagnosis is_timestamp s
  unfolding has_invalid_field
  IsDiagnosis-of_tests h agreed =
      let (r₁₅, g₇) = (or_iff _ _).0 h in
      let (r₁₄, g₆) = (or_iff _ _).0 r₁₅ in
      let (r₁₃, g₅) = (or_iff _ _).0 r₁₄ in
      let (r₁₂, g₄) = (or_iff _ _).0 r₁₃ in
      let (r₁₁, g₃) = (or_iff _ _).0 r₁₂ in
      let (r₁₀, g₂) = (or_iff _ _).0 r₁₁ in
      let (r₉, g₁) = (or_iff _ _).0 r₁₀ in
      let (r₈, f₉) = (or_iff _ _).0 r₉ in
      let (r₇, f₈) = (or_iff _ _).0 r₈ in
      let (r₆, f₇) = (or_iff _ _).0 r₇ in
      let (r₅, f₆) = (or_iff _ _).0 r₆ in
      let (r₄, f₅) = (or_iff _ _).0 r₅ in
      let (r₃, f₄) = (or_iff _ _).0 r₄ in
      let (r₂, f₃) = (or_iff _ _).0 r₃ in
      let (f₁, f₂) = (or_iff _ _).0 r₂ in
      let (total, is_total) = (count_iff s.sources_total 100_000 (omega arith)).0 f₇ in
      let (read, is_read) = (count_iff s.sources_read 100_000 (omega arith)).0 f₈ in
      let (elapsed, is_elapsed) = (count_iff s.elapsed_ms 86_400_000 (omega arith)).0 g₄ in
      record {
        version = (is_one_iff s.schema_version).0 f₁;
        named = (text_iff is_attempt_id s.attempt_id).0 f₂;
        revised = (absent_or_text is_revision s.deployment_revision).0 f₃;
        reported = (text_iff is_timestamp s.report_finished_at).0 f₄;
        started = (text_iff is_timestamp s.started_at).0 f₅;
        total = total;
        is_total = is_total;
        read = read;
        is_read = is_read;
        read_within = (exceeds_iff is_read is_total).0 f₉;
        counted = (count_iff s.events 100_000 (omega arith)).0 g₁;
        searched = (absent_or_bytes s.search_bytes).0 g₂;
        checked = (absent_or_bytes s.checkpoint_bytes).0 g₃;
        elapsed = elapsed;
        is_elapsed = is_elapsed;
        phase_started =
            (within_iff s.phase_started_elapsed_ms s.elapsed_ms elapsed is_elapsed).0 g₅;
        state = (State-iff s.outcome s.failure_code s.phase).1 (record {
          in_outcomes = (text_iff (includes publication_outcomes) s.outcome).0 g₆;
          in_failures = (absent_or_text (includes publication_failures) s.failure_code).0 g₇;
          in_phases = (text_iff (includes publication_phases) s.phase).0 f₆;
          agreed = agreed;
        });
      }

  -- and all of them.
  tests_of_diagnosis :
      IsDiagnosis is_timestamp s
      → (has_invalid_field is_timestamp s ≡ false)
        × (is_contradictory s.outcome s.failure_code s.phase ≡ false)
  unfolding has_invalid_field
  tests_of_diagnosis d =
      let a = (State-iff s.outcome s.failure_code s.phase).0 d.state in
      let r₁ =
        none_of ((is_one_iff s.schema_version).1 d.version)
          ((text_iff is_attempt_id s.attempt_id).1 d.named) in
      let r₂ = none_of r₁ ((absent_or_text is_revision s.deployment_revision).1 d.revised) in
      let r₃ = none_of r₂ ((text_iff is_timestamp s.report_finished_at).1 d.reported) in
      let r₄ = none_of r₃ ((text_iff is_timestamp s.started_at).1 d.started) in
      let r₅ = none_of r₄ ((text_iff (includes publication_phases) s.phase).1 a.in_phases) in
      let r₆ = none_of r₅ (is_count_of s.sources_total d.is_total) in
      let r₇ = none_of r₆ (is_count_of s.sources_read d.is_read) in
      let r₈ = none_of r₇ ((exceeds_iff d.is_read d.is_total).1 d.read_within) in
      let r₉ = none_of r₈ (is_count_of s.events d.counted.1) in
      let r₁₀ = none_of r₉ ((absent_or_bytes s.search_bytes).1 d.searched) in
      let r₁₁ = none_of r₁₀ ((absent_or_bytes s.checkpoint_bytes).1 d.checked) in
      let r₁₂ =
        none_of r₁₁
          ((count_iff s.elapsed_ms 86_400_000 (omega arith)).1 (d.elapsed, d.is_elapsed)) in
      let r₁₃ = none_of r₁₂ (
        (within_iff s.phase_started_elapsed_ms s.elapsed_ms d.elapsed d.is_elapsed).1
          d.phase_started) in
      let r₁₄ =
        none_of r₁₃ ((text_iff (includes publication_outcomes) s.outcome).1 a.in_outcomes) in
      (
        none_of r₁₄
            ((absent_or_text (includes publication_failures) s.failure_code).1 a.in_failures),
        a.agreed,
      )
    where
      none_of : {a b : Bool} → a ≡ false → b ≡ false → (a || b) ≡ false
      none_of e f = ground arith

      is_count_of : (v : Value) {n : ℕ} → IsCount 100_000 v n → not (count v 100_000) ≡ false
      is_count_of v {n} h = (count_iff v 100_000 (omega arith)).1 (n, h)

-- The value is an object, and its properties satisfy what the validator promises.
abbrev pub IsDiagnosisValue : (is_timestamp : Text → Bool) → Value → Type 0
IsDiagnosisValue is_timestamp (Value.object f) = IsDiagnosis is_timestamp (stored_of f)
IsDiagnosisValue is_timestamp _ = ⊥

some_iff :
    (invalid contradictory : Bool) (v : Value)
    → (is_some (returned invalid contradictory v) ≡ true)
      ↔ ((invalid ≡ false) × (contradictory ≡ false))
unfolding is_some
some_iff invalid contradictory v = ground arith

not_returned : ¬ is_some {A = Value} none ≡ true
unfolding is_some
not_returned h = cc

-- The validator accepts a value exactly if it is an object with schema version 1, an id and a
-- revision (or null) of the right form, two timestamps, counts of sources and events up to 100000,
-- no more sources read than there are, sizes (or null) up to 512 MB, an elapsed time of at most a
-- day that no defined start of the phase exceeds, and an outcome, a failure code and a phase that
-- agree: running before the last phase without a failure, done in the last one, or failed.
pub publication_attempt_iff :
    (is_timestamp : Text → Bool) (v : Value)
    → (is_some (publication_attempt is_timestamp v) ≡ true) ↔ IsDiagnosisValue is_timestamp v
unfolding publication_attempt
publication_attempt_iff is_timestamp (Value.object f) =
    let s = stored_of f in
    let (there, back) =
      some_iff (has_invalid_field is_timestamp s)
        (is_contradictory s.outcome s.failure_code s.phase) (Value.object (fields_of s)) in
    (
      λ h. let (valid, agreed) = there h in IsDiagnosis-of_tests is_timestamp s valid agreed,
      λ d. back (tests_of_diagnosis is_timestamp s d),
    )
publication_attempt_iff is_timestamp Value.undefined =
    (λ h. absurd (not_returned h), λ h. elim h [ ])
publication_attempt_iff is_timestamp Value.null = (λ h. absurd (not_returned h), λ h. elim h [ ])
publication_attempt_iff is_timestamp (Value.boolean b) =
    (λ h. absurd (not_returned h), λ h. elim h [ ])
publication_attempt_iff is_timestamp (Value.number n) =
    (λ h. absurd (not_returned h), λ h. elim h [ ])
publication_attempt_iff is_timestamp (Value.text t) =
    (λ h. absurd (not_returned h), λ h. elim h [ ])
publication_attempt_iff is_timestamp (Value.array vs) =
    (λ h. absurd (not_returned h), λ h. elim h [ ])

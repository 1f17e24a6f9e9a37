-- ===== src/Store/Attempt/States.antt =====
-- web/lib/store.gcp.ts, `publicationAttempt`: the outcomes, failure codes and phases that agree.
use event_recommender.Prelude.{
  ◌≡◌, ◌⊎◌, ◌↔◌, refl, sym, subst, inl, inr, true, false, [], ◌∷◌, Bool-cases, arith,
}
use event_recommender.Prelude.Text.{Text, codes, text_eq, text_eq_iff, includes}
use event_recommender.Prelude.Value.{Value}
use event_recommender.Store.Attempt.{
  publication_phases, publication_failures, publication_outcomes, is_contradictory,
}
use event_recommender.Store.Attempt.Values.{IsText, is_text, IsNullOr, is_nothing, is_just}

-- The outcome, the failure code and the phase of an attempt: under way in a phase before the last,
-- done, or failed for a reason.
pub data State : (outcome failure_code phase : Value) → Type 0 where
  is_running :
      (phase : Text)
      → includes publication_phases phase ≡ true
      → text_eq phase (codes "complete") ≡ false
      → State (Value.text (codes "running")) Value.null (Value.text phase)
  is_done : State (Value.text (codes "succeeded")) Value.null (Value.text (codes "complete"))
  is_failed :
      (code phase : Text)
      → includes publication_failures code ≡ true
      → includes publication_phases phase ≡ true
      → State (Value.text (codes "failed")) (Value.text code) (Value.text phase)

-- A text of a list of three.
one_of_three : (a b c t : Text) → includes (a ∷ b ∷ c ∷ []) t ≡ true → (t ≡ a) ⊎ (t ≡ b) ⊎ (t ≡ c)
unfolding includes
one_of_three a b c t h = elim (Bool-cases (text_eq a t)) [
  | inl e ↦ inl (sym ((text_eq_iff a t).0 e))
  | inr e ↦ elim (Bool-cases (text_eq b t)) [
    | inl f ↦ inr (inl (sym ((text_eq_iff b t).0 f)))
    | inr f ↦ inr (inr (sym ((text_eq_iff c t).0 (ground arith))))
  ]
]

-- Each outcome with the values that the last test admits.
State-running :
    (f : Value) (p : Text)
    → includes publication_phases p ≡ true
    → is_contradictory (Value.text (codes "running")) f (Value.text p) ≡ false
    → State (Value.text (codes "running")) f (Value.text p)
unfolding is_contradictory text_eq
State-running Value.null p hp h = is_running p hp (ground arith)
State-running Value.undefined p hp h = cc
State-running (Value.boolean b) p hp h = cc
State-running (Value.number n) p hp h = cc
State-running (Value.text t) p hp h = cc
State-running (Value.array vs) p hp h = cc
State-running (Value.object fs) p hp h = cc

State-done :
    (f : Value) (p : Text)
    → is_contradictory (Value.text (codes "succeeded")) f (Value.text p) ≡ false
    → State (Value.text (codes "succeeded")) f (Value.text p)
unfolding is_contradictory text_eq
State-done Value.null p h =
    let last : p ≡ codes "complete" = (text_eq_iff p (codes "complete")).0 (ground arith) in
    subst (λ q. State (Value.text (codes "succeeded")) Value.null (Value.text q)) (sym last) is_done
State-done Value.undefined p h = cc
State-done (Value.boolean b) p h = cc
State-done (Value.number n) p h = cc
State-done (Value.text t) p h = cc
State-done (Value.array vs) p h = cc
State-done (Value.object fs) p h = cc

IsFailure : Value → Type 0
IsFailure = IsNullOr (IsText (λ t. includes publication_failures t ≡ true))

State-failed :
    (f : Value) (p : Text)
    → IsFailure f
    → includes publication_phases p ≡ true
    → is_contradictory (Value.text (codes "failed")) f (Value.text p) ≡ false
    → State (Value.text (codes "failed")) f (Value.text p)
unfolding is_contradictory text_eq IsFailure
State-failed _ p is_nothing hp h = cc
State-failed _ p (is_just _ (is_text t ht)) hp h = is_failed t p ht hp

-- The values of the three fields that the tests of single fields and the last test let pass.
pub record Agree (o f p : Value) : Type 0 where
  pub in_outcomes : IsText (λ t. includes publication_outcomes t ≡ true) o
  pub in_failures : IsNullOr (IsText (λ t. includes publication_failures t ≡ true)) f
  pub in_phases : IsText (λ t. includes publication_phases t ≡ true) p
  pub agreed : is_contradictory o f p ≡ false

State-of_outcome :
    (o : Text) (f : Value) (p : Text)
    → includes publication_outcomes o ≡ true
    → IsFailure f
    → includes publication_phases p ≡ true
    → is_contradictory (Value.text o) f (Value.text p) ≡ false
    → State (Value.text o) f (Value.text p)
State-of_outcome o f p ho hf hp h =
    elim (one_of_three (codes "running") (codes "succeeded") (codes "failed") o ho) [
      | inl e ↦
          subst (λ t. State (Value.text t) f (Value.text p)) (sym e)
            (State-running f p hp
              (subst (λ t. is_contradictory (Value.text t) f (Value.text p) ≡ false) e h))
      | inr (inl e) ↦
          subst (λ t. State (Value.text t) f (Value.text p)) (sym e)
            (State-done f p
              (subst (λ t. is_contradictory (Value.text t) f (Value.text p) ≡ false) e h))
      | inr (inr e) ↦
          subst (λ t. State (Value.text t) f (Value.text p)) (sym e)
            (State-failed f p hf hp
              (subst (λ t. is_contradictory (Value.text t) f (Value.text p) ≡ false) e h))
    ]

State-of_texts :
    (o f p : Value)
    → IsText (λ t. includes publication_outcomes t ≡ true) o
    → IsFailure f
    → IsText (λ t. includes publication_phases t ≡ true) p
    → is_contradictory o f p ≡ false
    → State o f p
State-of_texts _ f _ (is_text o ho) hf (is_text p hp) h = State-of_outcome o f p ho hf hp h

Agree-of : (o f p : Value) → State o f p → Agree o f p
unfolding is_contradictory includes text_eq
Agree-of _ _ _ (is_running p hp other) = record {
  in_outcomes = is_text (codes "running") refl;
  in_failures = is_nothing;
  in_phases = is_text p hp;
  agreed = rw other refl;
}
Agree-of _ _ _ is_done = record {
  in_outcomes = is_text (codes "succeeded") refl;
  in_failures = is_nothing;
  in_phases = is_text (codes "complete") refl;
  agreed = refl;
}
Agree-of _ _ _ (is_failed c p hc hp) = record {
  in_outcomes = is_text (codes "failed") refl;
  in_failures = is_just (Value.text c) (is_text c hc);
  in_phases = is_text p hp;
  agreed = refl;
}

pub State-iff : (o f p : Value) → State o f p ↔ Agree o f p
unfolding IsFailure
State-iff o f p =
    (Agree-of o f p, λ a. State-of_texts o f p a.in_outcomes a.in_failures a.in_phases a.agreed)

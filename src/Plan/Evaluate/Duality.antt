-- ===== src/Plan/Evaluate/Duality.antt =====
-- Double negation and De Morgan's laws for the evidence tree.
use mathlib.Core.Bool.{not as negate}
use event_recommender.Prelude.{◌≡◌, refl, sym, ap, ◌∙◌, Bool, true, false, Option, none, arith}
use event_recommender.Prelude.Text.{Text}
use event_recommender.Plan.{Atom, Condition, Conditions, nil, cons, Connective, all, any}
use event_recommender.Plan.Evaluate.{
  Status, supported, unknown, contradicted, Checked, status_of, statuses, opposite, evaluate,
  evaluate_each,
}
use event_recommender.Plan.Evaluate.Logic.{meet, join, meet_all, join_all, group-all, group-any}

opposite-opposite : (s : Status) → opposite (opposite s) ≡ s
unfolding opposite
opposite-opposite supported = refl
opposite-opposite unknown = refl
opposite-opposite contradicted = refl

negate-negate : (b : Bool) → negate (negate b) ≡ b
negate-negate true = refl
negate-negate false = refl

-- A double negation has the status of the condition itself.
pub evaluate-not-not :
    (check : Atom → Checked) (negated : Bool) (c : Condition) (i j : Option Text)
    → status_of (evaluate check negated (Condition.not (Condition.not c i) j))
      ≡ status_of (evaluate check negated c)
unfolding evaluate
evaluate-not-not check negated c i j =
    opposite-opposite _ ∙ ap (λ n. status_of (evaluate check n c)) (negate-negate negated)

-- The negation of each condition of a list.
unfoldable pub not_each : Conditions → Conditions
not_each nil = nil
not_each (cons c cs) = cons (Condition.not c none) (not_each cs)

opposite-meet : (s t : Status) → opposite (meet s t) ≡ join (opposite s) (opposite t)
unfolding opposite meet join
opposite-meet s t = ground arith

opposite-join : (s t : Status) → opposite (join s t) ≡ meet (opposite s) (opposite t)
unfolding opposite meet join
opposite-join s t = ground arith

not_every :
    (check : Atom → Checked) (negated : Bool) (cs : Conditions)
    → join_all (statuses (evaluate_each check negated (not_each cs)))
      ≡ opposite (meet_all (statuses (evaluate_each check (negate negated) cs)))
unfolding evaluate evaluate_each opposite meet_all join_all not_each
not_every check negated nil = refl
not_every check negated (cons c cs) =
    ap (join _) (not_every check negated cs) ∙ sym (opposite-meet _ _)

not_some :
    (check : Atom → Checked) (negated : Bool) (cs : Conditions)
    → meet_all (statuses (evaluate_each check negated (not_each cs)))
      ≡ opposite (join_all (statuses (evaluate_each check (negate negated) cs)))
unfolding evaluate evaluate_each opposite meet_all join_all not_each
not_some check negated nil = refl
not_some check negated (cons c cs) =
    ap (meet _) (not_some check negated cs) ∙ sym (opposite-join _ _)

-- The other connective.
abbrev pub dual : Connective → Connective
dual all = any
dual any = all

-- The negation of a group has the status of the group of the negations under the other
-- connective, at either polarity.
pub evaluate-not-group :
    (check : Atom → Checked) (negated : Bool) (k : Connective) (cs : Conditions)
    (i j l : Option Text)
    → status_of (evaluate check negated (Condition.not (Condition.group k cs i) j))
      ≡ status_of (evaluate check negated (Condition.group (dual k) (not_each cs) l))
unfolding evaluate
evaluate-not-group check negated all cs i j l =
    ap opposite (group-all _) ∙ sym (not_every check negated cs) ∙ sym (group-any _)
evaluate-not-group check negated any cs i j l =
    ap opposite (group-any _) ∙ sym (not_some check negated cs) ∙ sym (group-all _)

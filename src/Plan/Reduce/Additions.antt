-- ===== src/Plan/Reduce/Additions.antt =====
-- What the reducer does with additions and resets.
use mathlib.Core.List.{append-nil}
use event_recommender.Prelude.{
  ◌≡◌, refl, sym, ap, ap₂, ◌∙◌, inl, inr, Bool, true, Option, none, some, List, [], ◌∷◌, ◌++◌,
  arith, ok, guard-eq-ok, ok-injective, subst, Bool-cases, any_of,
}
use event_recommender.Prelude.Text.{Text, text_eq_refl}
use event_recommender.Prelude.Distinct.{IsDistinct, IsDistinct-left}
use event_recommender.Prelude.Js.{Js}
use event_recommender.Plan.{
  Condition, Conditions, nil, cons, Connective, Order, Plan, PreviousState, Strength, Operation,
  empty_plan, with_id,
}
use event_recommender.Plan.Validate.{is_all, validate_plan}
use event_recommender.Plan.Validate.WellFormed.{
  IsWellFormed, Fits, FitsEach, ids, ids_each, own_id, size, size_each,
}
use event_recommender.Plan.Validate.Correct.{validate_plan_iff}
use event_recommender.Plan.Reduce.{
  Work, clone_without_ids, clone_each, holds_already, add_condition, apply_operation, run, finish,
  plan_of, check_previous, apply_operations, with_children,
}

mutual
  unfolding clone_without_ids clone_each

  clone_clone : (c : Condition) → clone_without_ids (clone_without_ids c) ≡ clone_without_ids c
  clone_clone (Condition.atom a id) = refl
  clone_clone (Condition.not c id) = ap (λ d. Condition.not d none) (clone_clone c)
  clone_clone (Condition.group k cs id) = ap (λ ds. Condition.group k ds none) (clone_each_clone cs)

  clone_each_clone : (cs : Conditions) → clone_each (clone_each cs) ≡ clone_each cs
  clone_each_clone nil = refl
  clone_each_clone (cons c cs) = ap₂ cons (clone_clone c) (clone_each_clone cs)

clone-with_id :
    (c : Condition) (id : Option Text) → clone_without_ids (with_id c id) ≡ clone_without_ids c
unfolding clone_without_ids
clone-with_id (Condition.atom a x) id = refl
clone-with_id (Condition.not c x) id = refl
clone-with_id (Condition.group k cs x) id = refl

any_of_snoc :
    (p : Condition → Bool) (cs : List Condition) (c : Condition)
    → p c ≡ true
    → any_of p (cs ++ c ∷ []) ≡ true
unfolding any_of
any_of_snoc p [] c h = ground arith
any_of_snoc p (d ∷ cs) c h = ground (arith, any_of_snoc p cs c h)

holds_added :
    (js : Js) (c : Condition) (id : Option Text) (cs : List Condition)
    → holds_already js (clone_without_ids c) (cs ++ with_id (clone_without_ids c) id ∷ []) ≡ true
unfolding holds_already
holds_added js c id cs =
    any_of_snoc _ cs (with_id (clone_without_ids c) id)
      (rw (clone-with_id (clone_without_ids c) id) (rw (clone_clone c) (text_eq_refl _)))

add_condition_twice :
    (js : Js) (s : Strength) (c : Condition) (w : Work)
    → add_condition js s (clone_without_ids c) (add_condition js s (clone_without_ids c) w)
      ≡ add_condition js s (clone_without_ids c) w
unfolding add_condition
add_condition_twice js Strength.hard c w =
    elim (Bool-cases (holds_already js (clone_without_ids c) w.hard)) [
      | inl old ↦ rw old (rw old refl)
      | inr new ↦ rw new (rw (holds_added js c _ w.hard) refl)
    ]
add_condition_twice js Strength.preferred c w =
    elim (Bool-cases (holds_already js (clone_without_ids c) w.preferred)) [
      | inl old ↦ rw old (rw old refl)
      | inr new ↦ rw new (rw (holds_added js c _ w.preferred) refl)
    ]

-- Adding a condition that was just added, at the same strength, changes nothing.
pub add_twice :
    (js : Js) (s : Strength) (c : Condition) (w w' : Work)
    → apply_operation js (Operation.add s c) w ≡ ok w'
    → apply_operation js (Operation.add s c) w' ≡ ok w'
unfolding apply_operation
add_twice js s c w w' e =
    subst (λ u. ok (add_condition js s (clone_without_ids c) u) ≡ ok u) (ok-injective e)
      (ap ok (add_condition_twice js s c w))

empty_plan-IsWellFormed : (js : Js) → IsWellFormed js empty_plan
unfolding Fits FitsEach size size_each ids ids_each
empty_plan-IsWellFormed js = record {
  root = refl;
  fits_hard = (omega arith, tt, inl refl, tt);
  fits_preferences = tt;
  small = omega arith;
  distinct = tt;
}

previous-IsWellFormed :
    (js : Js) (previous : Option PreviousState)
    → check_previous js previous ≡ ok tt
    → IsWellFormed js (plan_of previous)
unfolding check_previous
previous-IsWellFormed js none h = empty_plan-IsWellFormed js
previous-IsWellFormed js (some p) h =
    let (revision, valid) = guard-eq-ok _ "invalid prior revision" (validate_plan js p.plan) h in
    (validate_plan_iff js p.plan).0 valid

abbrev pub cleared : Plan → Plan
cleared plan = record { hard = with_children plan.hard []; preferences = []; order = Order.none }

cleared_of :
    (js : Js) (hard : Condition)
    → is_all hard ≡ true
    → Fits js hard 0 true
    → IsDistinct (ids hard)
    → IsWellFormed js
        (record { hard = with_children hard []; preferences = []; order = Order.none })
unfolding Fits FitsEach size size_each ids ids_each
cleared_of js (Condition.group Connective.all cs id) root fits distinct = record {
  root = refl;
  fits_hard = (omega arith, fits.1, inl refl, tt);
  fits_preferences = tt;
  small = omega arith;
  distinct =
      subst IsDistinct (sym (append-nil (own_id id ++ []) ∙ append-nil (own_id id)))
        (IsDistinct-left (own_id id) (ids_each cs) distinct);
}
cleared_of js (Condition.group Connective.any cs id) root fits distinct = cc
cleared_of js (Condition.atom a id) root fits distinct = cc
cleared_of js (Condition.not c id) root fits distinct = cc

-- A reset succeeds on every state that the reducer accepts, and leaves nothing but the root.
pub reset_clears :
    (js : Js) (previous : Option PreviousState)
    → check_previous js previous ≡ ok tt
    → apply_operations js previous (Operation.reset ∷ []) ≡ ok (cleared (plan_of previous))
unfolding apply_operations run apply_operation finish
reset_clears js previous h =
    let before = previous-IsWellFormed js previous h in
    let clear =
      cleared_of js (plan_of previous).hard before.root before.fits_hard
        (IsDistinct-left _ _ before.distinct) in
    rw h (rw before.root (rw ((validate_plan_iff js (cleared (plan_of previous))).1 clear) refl))

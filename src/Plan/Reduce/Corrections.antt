-- ===== src/Plan/Reduce/Corrections.antt =====
-- What corrections do to the conditions that they name.
use event_recommender.Prelude.{
  ◌≡◌, refl, false, Option, none, some, Result, ok, err, >>=-eq-ok, ok-injective, subst,
}
use event_recommender.Prelude.Text.{Text, includes}
use event_recommender.Prelude.Js.{Js}
use event_recommender.Plan.{Condition, Strength, Operation}
use event_recommender.Plan.Reduce.{
  Work, Target, lookup, take_out, put_at, replace_condition, apply_operation, clone_without_ids,
}
use event_recommender.Plan.Reduce.Ids.{top_ids, id_of-with_id, splice_found, top_ids-assign}
use event_recommender.Plan.Reduce.Identities.{IsNumbered}
use event_recommender.Plan.Reduce.Targets.{
  Located, in_hard, in_preferred, located, missed, missed_absent,
}

abbrev pub unknown_target {ℓ} : {A : Type ℓ} → Result A
unknown_target = err "unknown/non-top-level correction target"

lookup_missing :
    (id : Text) (w : Work)
    → includes (top_ids w.hard) id ≡ false
    → includes (top_ids w.preferred) id ≡ false
    → lookup id w ≡ unknown_target
unfolding lookup
lookup_missing id w h p = rw (missed id w.hard h) (rw (missed id w.preferred p) refl)

taken_hard :
    {w : Work} {id : Text} {t : Target}
    → IsNumbered w
    → Located w id t
    → includes (top_ids (take_out t w).hard) id ≡ false
unfolding take_out
taken_hard {w} {id} n (in_hard h here apart) = splice_found id h w.hard n.hard_distinct here
taken_hard {w} {id} n (in_preferred p f there) = missed_absent id w.hard f

taken_preferred :
    {w : Work} {id : Text} {t : Target}
    → IsNumbered w
    → Located w id t
    → includes (top_ids (take_out t w).preferred) id ≡ false
unfolding take_out
taken_preferred {w} {id} n (in_hard h here apart) = apart
taken_preferred {w} {id} n (in_preferred p f there) =
    splice_found id p w.preferred n.preferred_distinct there

-- In a state with distinct ids, after a removal that succeeds every operation that names the
-- removed id is refused.
pub remove_then_missing :
    (js : Js) (id : Text) (c : Condition) (s : Option Strength) (w w' : Work)
    → IsNumbered w
    → apply_operation js (Operation.remove id) w ≡ ok w'
    → (apply_operation js (Operation.remove id) w' ≡ unknown_target)
      × (apply_operation js (Operation.keep id) w' ≡ unknown_target)
      × (apply_operation js (Operation.replace id c s) w' ≡ unknown_target)
unfolding apply_operation
remove_then_missing js id c s w w' n e =
    let (t, at, e') = >>=-eq-ok (lookup id w) _ e in
    let l = located id t n at in
    let gone : lookup id (take_out t w) ≡ unknown_target =
      lookup_missing id (take_out t w) (taken_hard n l) (taken_preferred n l) in
    let gone' : lookup id w' ≡ unknown_target =
      subst (λ u. lookup id u ≡ unknown_target) (ok-injective e') gone in
    (rw gone', rw gone', rw gone')

replaced_in_place :
    {w : Work} {id : Text} {t : Target} (c : Condition)
    → Located w id t
    → (top_ids (replace_condition id c none w t).hard ≡ top_ids w.hard)
      × (top_ids (replace_condition id c none w t).preferred ≡ top_ids w.preferred)
unfolding replace_condition put_at
replaced_in_place {w} {id} c (in_hard h here apart) =
    (top_ids-assign id h _ w.hard (id_of-with_id (clone_without_ids c) (some id)) here, refl)
replaced_in_place {w} {id} c (in_preferred p f there) =
    (refl, top_ids-assign id p _ w.preferred (id_of-with_id (clone_without_ids c) (some id)) there)

-- In a state with distinct ids, a correction without a new strength leaves every id where it is.
pub replace_keeps_ids :
    (js : Js) (id : Text) (c : Condition) (w w' : Work)
    → IsNumbered w
    → apply_operation js (Operation.replace id c none) w ≡ ok w'
    → (top_ids w'.hard ≡ top_ids w.hard) × (top_ids w'.preferred ≡ top_ids w.preferred)
unfolding apply_operation
replace_keeps_ids js id c w w' n e =
    let (t, at, e') = >>=-eq-ok (lookup id w) _ e in
    subst (λ u. (top_ids u.hard ≡ top_ids w.hard) × (top_ids u.preferred ≡ top_ids w.preferred))
      (ok-injective e') (replaced_in_place c (located id t n at))

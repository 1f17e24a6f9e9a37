-- ===== src/Plan/Reduce/Targets.antt =====
-- The operations of the reducer that name a condition by its id: remove, keep and replace.
use event_recommender.Prelude.{
  ℕ, suc, length, ◌≡◌, refl, sym, ◌∙◌, inl, inr, Bool, true, false, Option, none, some, List, [],
  ◌∷◌, Option-cases, Bool-cases, arith, ok, >>=-eq-ok, ok-injective, is_some, subst,
}
use event_recommender.Prelude.Text.{Text, includes}
use event_recommender.Prelude.Js.{Js}
use event_recommender.Plan.{Condition, Strength, Operation, id_of}
use event_recommender.Plan.Reduce.{
  find_index, Work, Target, lookup, take_out, put_at, push, replace_condition, apply_operation, run,
  clone_without_ids, as_preferred, same,
}
use event_recommender.Plan.Reduce.Ids.{
  top_ids, id_of-with_id, found_iff, splice_found, top_ids-assign,
}
use event_recommender.Plan.Reduce.Identities.{IsNumbered, absent_of_apart, All_includes}
use event_recommender.Plan.Reduce.Numbered.{
  push_hard, push_preferred, splice_hard, splice_preferred, same_hard, same_preferred,
  add_condition-IsNumbered, add_condition-HasRoom, HasRoom, HasRoom-less,
}

found :
    (id : Text) (cs : List Condition) (n : ℕ)
    → find_index id cs ≡ some n
    → includes (top_ids cs) id ≡ true
unfolding is_some
found id cs n e = sym (found_iff id cs) ∙ rw e refl

pub missed :
    (id : Text) (cs : List Condition) → includes (top_ids cs) id ≡ false → find_index id cs ≡ none
unfolding is_some
missed id cs h = ground (arith, found_iff id cs)

pub missed_absent :
    (id : Text) (cs : List Condition) → find_index id cs ≡ none → includes (top_ids cs) id ≡ false
unfolding is_some
missed_absent id cs h = sym (found_iff id cs) ∙ rw h refl

abbrev pub hard_target : ℕ → Target
hard_target h = record { in_hard = true; index = h; preferred = false }

abbrev pub preferred_target : ℕ → Target
preferred_target p = record { in_hard = false; index = p; preferred = true }

-- Where an id is found, in a state in which the two lists share no id.
pub data Located (w : Work) (id : Text) : Target → Type 0 where
  in_hard :
      (h : ℕ)
      → find_index id w.hard ≡ some h
      → includes (top_ids w.preferred) id ≡ false
      → Located w id (hard_target h)
  in_preferred :
      (p : ℕ)
      → find_index id w.hard ≡ none
      → find_index id w.preferred ≡ some p
      → Located w id (preferred_target p)

pub located :
    {w : Work} (id : Text) (t : Target) → IsNumbered w → lookup id w ≡ ok t → Located w id t
unfolding lookup is_some
located {w} id t n e = elim (Option-cases (find_index id w.hard)) [
  | inr (h, here) ↦
      let apart = absent_of_apart _ _ id n.apart (found id w.hard h here) in
      subst (Located w id) (ground (arith, missed id w.preferred apart)) (in_hard h here apart)
  | inl gone ↦ elim (Option-cases (find_index id w.preferred)) [
    | inr (p, there) ↦ subst (Located w id) (ground arith) (in_preferred p gone there)
    | inl nowhere ↦ absurd (ground arith)
  ]
]

take_out-IsNumbered :
    {w : Work} {id : Text} {t : Target} → IsNumbered w → Located w id t → IsNumbered (take_out t w)
unfolding take_out
take_out-IsNumbered n (in_hard h e a) = splice_hard n h
take_out-IsNumbered n (in_preferred p e f) = splice_preferred n p

put_at-IsNumbered :
    {w : Work} {id : Text} {t : Target} (c : Condition)
    → IsNumbered w
    → id_of c ≡ some id
    → Located w id t
    → IsNumbered (put_at t c w)
unfolding put_at
put_at-IsNumbered {w} {id} c n e (in_hard h found_hard a) =
    same_hard n _ (top_ids-assign id h c w.hard e found_hard)
put_at-IsNumbered {w} {id} c n e (in_preferred p f found_preferred) =
    same_preferred n _ (top_ids-assign id p c w.preferred e found_preferred)

-- The condition moves to the other list.
move-IsNumbered :
    {w : Work} {id : Text} {t : Target} (c : Condition) (to_preferred : Bool)
    → IsNumbered w
    → id_of c ≡ some id
    → Located w id t
    → same to_preferred t.preferred ≡ false
    → IsNumbered (push to_preferred c (take_out t w))
unfolding push take_out
move-IsNumbered {w} {id} c true n e (in_hard h here apart) moved =
    push_preferred (splice_hard n h) c id e (splice_found id h w.hard n.hard_distinct here) apart
      (All_includes _ _ id n.hard_below (found id w.hard h here))
move-IsNumbered c false n e (in_hard h here apart) moved = cc
move-IsNumbered c true n e (in_preferred p f there) moved = cc
move-IsNumbered {w} {id} c false n e (in_preferred p f there) moved =
    push_hard (splice_preferred n p) c id e (missed_absent id w.hard f)
      (splice_found id p w.preferred n.preferred_distinct there)
      (All_includes _ _ id n.preferred_below (found id w.preferred p there))

replace_condition-IsNumbered :
    {w : Work} {id : Text} {t : Target} (c : Condition) (s : Option Strength)
    → IsNumbered w
    → Located w id t
    → IsNumbered (replace_condition id c s w t)
unfolding replace_condition
replace_condition-IsNumbered {w} {id} {t} c s n l =
    let e = id_of-with_id (clone_without_ids c) (some id) in
    elim (Bool-cases (same (as_preferred s t) t.preferred)) [
      | inl stays ↦ rw stays (put_at-IsNumbered _ n e l)
      | inr moves ↦ rw moves (move-IsNumbered _ (as_preferred s t) n e l moves)
    ]

pub apply_operation-IsNumbered :
    (js : Js) (op : Operation) {w w' : Work}
    → HasRoom 1 w
    → IsNumbered w
    → apply_operation js op w ≡ ok w'
    → IsNumbered w'
unfolding apply_operation
apply_operation-IsNumbered js Operation.reset r n e = subst IsNumbered (ok-injective e) (record {
  hard_distinct = tt;
  preferred_distinct = tt;
  apart = tt;
  hard_below = tt;
  preferred_below = tt;
})
apply_operation-IsNumbered js (Operation.order value) r n e =
    subst IsNumbered (ok-injective e) (record {
      hard_distinct = n.hard_distinct;
      preferred_distinct = n.preferred_distinct;
      apart = n.apart;
      hard_below = n.hard_below;
      preferred_below = n.preferred_below;
    })
apply_operation-IsNumbered js (Operation.add s c) r n e =
    subst IsNumbered (ok-injective e) (add_condition-IsNumbered js s (clone_without_ids c) r n)
apply_operation-IsNumbered js (Operation.remove id) {w} r n e =
    let (t, at, e') = >>=-eq-ok (lookup id w) _ e in
    subst IsNumbered (ok-injective e') (take_out-IsNumbered n (located id t n at))
apply_operation-IsNumbered js (Operation.keep id) {w} r n e =
    let (t, at, e') = >>=-eq-ok (lookup id w) _ e in subst IsNumbered (ok-injective e') n
apply_operation-IsNumbered js (Operation.replace id c s) {w} r n e =
    let (t, at, e') = >>=-eq-ok (lookup id w) _ e in
    subst IsNumbered (ok-injective e') (replace_condition-IsNumbered c s n (located id t n at))

-- The counters stand where they stood.
record SameCounters (w w' : Work) : Type 0 where
  hard_same : w'.hard_index ≡ w.hard_index
  preferred_same : w'.preferred_index ≡ w.preferred_index

SameCounters-HasRoom : {n : ℕ} {w w' : Work} → SameCounters w w' → HasRoom (suc n) w → HasRoom n w'
SameCounters-HasRoom s r = record {
  hard_room = omega (arith, s.hard_same, r.hard_room);
  preferred_room = omega (arith, s.preferred_same, r.preferred_room);
}

take_out-SameCounters : (t : Target) (w : Work) → SameCounters w (take_out t w)
unfolding take_out
take_out-SameCounters t w = elim (Bool-cases t.in_hard) [
  | inl e ↦ rw e (record { hard_same = refl; preferred_same = refl })
  | inr e ↦ rw e (record { hard_same = refl; preferred_same = refl })
]

put_at-SameCounters : (t : Target) (c : Condition) (w : Work) → SameCounters w (put_at t c w)
unfolding put_at
put_at-SameCounters t c w = elim (Bool-cases t.in_hard) [
  | inl e ↦ rw e (record { hard_same = refl; preferred_same = refl })
  | inr e ↦ rw e (record { hard_same = refl; preferred_same = refl })
]

push-SameCounters :
    (b : Bool) (c : Condition) {w w' : Work} → SameCounters w w' → SameCounters w (push b c w')
unfolding push
push-SameCounters true c s = record { hard_same = s.hard_same; preferred_same = s.preferred_same }
push-SameCounters false c s = record { hard_same = s.hard_same; preferred_same = s.preferred_same }

replace_condition-SameCounters :
    (id : Text) (c : Condition) (s : Option Strength) (w : Work) (t : Target)
    → SameCounters w (replace_condition id c s w t)
unfolding replace_condition
replace_condition-SameCounters id c s w t =
    elim (Bool-cases (same (as_preferred s t) t.preferred)) [
      | inl stays ↦ rw stays (put_at-SameCounters t _ w)
      | inr moves ↦ rw moves (push-SameCounters _ _ (take_out-SameCounters t w))
    ]

apply_operation-HasRoom :
    (js : Js) (op : Operation) (steps : ℕ) {w w' : Work}
    → HasRoom (suc steps) w
    → apply_operation js op w ≡ ok w'
    → HasRoom steps w'
unfolding apply_operation
apply_operation-HasRoom js Operation.reset n r e =
    subst (HasRoom n) (ok-injective e)
      (SameCounters-HasRoom (record { hard_same = refl; preferred_same = refl }) r)
apply_operation-HasRoom js (Operation.order value) n r e =
    subst (HasRoom n) (ok-injective e)
      (SameCounters-HasRoom (record { hard_same = refl; preferred_same = refl }) r)
apply_operation-HasRoom js (Operation.add s c) n r e =
    subst (HasRoom n) (ok-injective e) (add_condition-HasRoom js s (clone_without_ids c) n r)
apply_operation-HasRoom js (Operation.remove id) n {w} r e =
    let (t, at, e') = >>=-eq-ok (lookup id w) _ e in
    subst (HasRoom n) (ok-injective e') (SameCounters-HasRoom (take_out-SameCounters t w) r)
apply_operation-HasRoom js (Operation.keep id) n {w} r e =
    let (t, at, e') = >>=-eq-ok (lookup id w) _ e in
    subst (HasRoom n) (ok-injective e') (HasRoom-less (omega arith) r)
apply_operation-HasRoom js (Operation.replace id c s) n {w} r e =
    let (t, at, e') = >>=-eq-ok (lookup id w) _ e in
    subst (HasRoom n) (ok-injective e')
      (SameCounters-HasRoom (replace_condition-SameCounters id c s w t) r)

-- Whatever the operations, where both counters are below 2^53 by at least the number of the
-- operations, a run that does not throw leaves no two top-level conditions with one id, and every
-- number in an id `h…` or `p…` stays below the counter that gives the next.
pub run-IsNumbered :
    (js : Js) (ops : List Operation) (w w' : Work)
    → HasRoom (length ops) w
    → IsNumbered w
    → run js ops w ≡ ok w'
    → IsNumbered w'
unfolding run
run-IsNumbered js [] w w' r n e = subst IsNumbered (ok-injective e) n
run-IsNumbered js (op ∷ ops) w w' r n e =
    let (u, applied, rest) = >>=-eq-ok (apply_operation js op w) _ e in
    run-IsNumbered js ops u w' (apply_operation-HasRoom js op (length ops) r applied)
      (apply_operation-IsNumbered js op (HasRoom-less (omega arith) r) n applied) rest

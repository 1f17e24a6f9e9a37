-- ===== src/Plan/Validate/Correct.antt =====
-- `validatePlan` accepts exactly the well-formed plans.
use mathlib.Core.Bool.{not as negate, ◌||◌}
use mathlib.Core.List.{append-nil, append_assoc}
use event_recommender.Prelude.{
  ℕ, ◌+◌, ◌≤◌, ◌≡◌, ◌⊎◌, sym, ap, subst, ◌∙◌, ◌↔◌, Bool, true, false, Option, none, some, List, [],
  ◌∷◌, ◌++◌, ok, >>=-eq-ok, guard-eq-ok, ok-injective, arith,
}
use event_recommender.Prelude.Text.{Text, includes}
use event_recommender.Prelude.Distinct.{
  IsDistinct, IsDistinct-regroup, IsDistinct-snoc, IsDistinct-left, includes_before,
}
use event_recommender.Prelude.Js.{Js}
use event_recommender.Plan.{Condition, Conditions, nil, cons, Plan, of_list}
use event_recommender.Plan.Validate.{
  validate_atom, is_condition_id, is_empty, is_all, Seen, enter, check_id, visit, visit_each,
  validate_plan, nothing_seen,
}
use event_recommender.Plan.Validate.WellFormed.{
  size, size_each, own_id, ids, ids_each, HasGoodId, Fits, FitsEach, IsWellFormed,
}

-- The state after conditions with the ids `new` and `n` nodes.
abbrev after : Seen → List Text → ℕ → Seen
after s new n = record { ids = s.ids ++ new; nodes = s.nodes + n }

record Visited (s s' : Seen) (new : List Text) (n : ℕ) : Type 0 where
  after_ids : s'.ids ≡ s.ids ++ new
  after_nodes : s'.nodes ≡ s.nodes + n
  bound : s.nodes ≤ 256 → s'.nodes ≤ 256
  distinct : IsDistinct s.ids → IsDistinct s'.ids

Visited-refl : (s : Seen) → Visited s s [] 0
Visited-refl s = record {
  after_ids = sym (append-nil s.ids);
  after_nodes = omega arith;
  bound = λ h. h;
  distinct = λ d. d;
}

Visited-trans :
    {s t u : Seen} {a b : List Text} {m n : ℕ}
    → Visited s t a m
    → Visited t u b n
    → Visited s u (a ++ b) (m + n)
Visited-trans {s} {t} {u} {a} {b} v w = record {
  after_ids = w.after_ids ∙ ap (λ l. l ++ b) v.after_ids ∙ append_assoc s.ids a b;
  after_nodes = omega (arith, v.after_nodes, w.after_nodes);
  bound = λ h. w.bound (v.bound h);
  distinct = λ d. w.distinct (v.distinct d);
}

enter_none :
    (d : ℕ) (s s' : Seen)
    → enter none d s ≡ ok s'
    → (d ≤ 12) × (s.nodes + 1 ≤ 256) × (s' ≡ record s { nodes = s.nodes + 1 })
unfolding enter check_id
enter_none d s s' h = ground arith

enter-some :
    (id : Text) (d : ℕ) (s s' : Seen)
    → enter (some id) d s ≡ ok s'
    → (d ≤ 12)
      × (s.nodes + 1 ≤ 256)
      × (is_condition_id id ≡ true)
      × (includes s.ids id ≡ false)
      × (s' ≡ after s (id ∷ []) 1)
unfolding enter check_id
enter-some id d s s' h = ground arith

enter_sound :
    (id : Option Text) (d : ℕ) (s s' : Seen)
    → enter id d s ≡ ok s'
    → (d ≤ 12) × HasGoodId id × Visited s s' (own_id id) 1
enter_sound none d s s' h =
    let (deep, small, e) = enter_none d s s' h in
    (
      deep,
      tt,
      record {
        after_ids = ap (λ t. t.ids) e ∙ sym (append-nil s.ids);
        after_nodes = ap (λ t. t.nodes) e;
        bound = λ k. rw (ap (λ t. t.nodes) e) small;
        distinct = λ k. rw (ap (λ t. t.ids) e) k;
      },
    )
enter_sound (some id) d s s' h =
    let (deep, small, good, fresh, e) = enter-some id d s s' h in
    (
      deep,
      good,
      record {
        after_ids = ap (λ t. t.ids) e;
        after_nodes = ap (λ t. t.nodes) e;
        bound = λ k. rw (ap (λ t. t.nodes) e) small;
        distinct = λ k. rw (ap (λ t. t.ids) e) (IsDistinct-snoc s.ids id k fresh);
      },
    )

mutual
  unfolding visit visit_each Fits FitsEach ids ids_each size size_each

  visit_sound :
      (js : Js) (c : Condition) (d : ℕ) (e : Bool) (s s' : Seen)
      → visit js c d e s ≡ ok s'
      → Fits js c d e × Visited s s' (ids c) (size c)
  visit_sound js (Condition.atom a id) d e s s' h =
      let (t, entered, h₁) = >>=-eq-ok (enter id d s) _ h in
      let (u, valid, h₂) = >>=-eq-ok (validate_atom js a) _ h₁ in
      let (deep, good, v) = enter_sound id d s t entered in
      ((deep, good, ground arith), subst (λ r. Visited s r (own_id id) 1) (ok-injective h₂) v)
  visit_sound js (Condition.not c id) d e s s' h =
      let (t, entered, h₁) = >>=-eq-ok (enter id d s) _ h in
      let (deep, good, v) = enter_sound id d s t entered in
      let (fits, w) = visit_sound js c (d + 1) false t s' h₁ in
      ((deep, good, fits), Visited-trans v w)
  visit_sound js (Condition.group k cs id) d e s s' h =
      let (t, entered, h₁) = >>=-eq-ok (enter id d s) _ h in
      let (deep, good, v) = enter_sound id d s t entered in
      let (filled, h₂) =
        guard-eq-ok (e || negate (is_empty cs)) "empty connective" (visit_each js cs (d + 1) t)
          h₁ in
      let some_child : (e ≡ true) ⊎ (is_empty cs ≡ false) = ground arith in
      let (fits, w) = visit_each_sound js cs (d + 1) t s' h₂ in
      ((deep, good, some_child, fits), Visited-trans v w)

  visit_each_sound :
      (js : Js) (cs : Conditions) (d : ℕ) (s s' : Seen)
      → visit_each js cs d s ≡ ok s'
      → FitsEach js cs d × Visited s s' (ids_each cs) (size_each cs)
  visit_each_sound js nil d s s' h =
      (tt, subst (λ r. Visited s r [] 0) (ok-injective h) (Visited-refl s))
  visit_each_sound js (cons c cs) d s s' h =
      let (t, visited, h₁) = >>=-eq-ok (visit js c d false s) _ h in
      let (fits, v) = visit_sound js c d false s t visited in
      let (fits_each, w) = visit_each_sound js cs d t s' h₁ in
      ((fits, fits_each), Visited-trans v w)

enter_complete :
    (id : Option Text) (d : ℕ) (s : Seen)
    → d ≤ 12
    → HasGoodId id
    → s.nodes + 1 ≤ 256
    → IsDistinct (s.ids ++ own_id id)
    → enter id d s ≡ ok (after s (own_id id) 1)
unfolding enter check_id
enter_complete none d s deep good small distinct = ground (arith, append-nil s.ids)
enter_complete (some id) d s deep good small distinct =
    ground (arith, includes_before s.ids [] id distinct)

after-after :
    (s : Seen) (a b : List Text) (m n : ℕ) → after (after s a m) b n ≡ after s (a ++ b) (m + n)
after-after s a b m n = ground (arith, append_assoc s.ids a b)

size-pos : (c : Condition) → 1 ≤ size c
unfolding size
size-pos (Condition.atom a id) = omega arith
size-pos (Condition.not c id) = omega arith
size-pos (Condition.group k cs id) = omega arith

mutual
  unfolding visit visit_each Fits FitsEach ids ids_each size size_each

  visit_complete :
      (js : Js) (c : Condition) (d : ℕ) (e : Bool) (s : Seen)
      → Fits js c d e
      → s.nodes + size c ≤ 256
      → IsDistinct (s.ids ++ ids c)
      → visit js c d e s ≡ ok (after s (ids c) (size c))
  visit_complete js (Condition.atom a id) d e s (deep, good, valid) small distinct =
      rw (enter_complete id d s deep good small distinct, valid)
  visit_complete js (Condition.not c id) d e s (deep, good, fits) small distinct =
      let split = IsDistinct-regroup s.ids (own_id id) (ids c) distinct in
      let here = enter_complete id d s deep good (omega arith) (IsDistinct-left _ _ split) in
      rw here (
        visit_complete js c (d + 1) false (after s (own_id id) 1) fits (omega arith) split
        ∙ ap ok (after-after s (own_id id) (ids c) 1 (size c)))
  visit_complete js (Condition.group k cs id) d e s (deep, good, filled, fits) small distinct =
      let split = IsDistinct-regroup s.ids (own_id id) (ids_each cs) distinct in
      let here = enter_complete id d s deep good (omega arith) (IsDistinct-left _ _ split) in
      let open_group : (e || negate (is_empty cs)) ≡ true = ground arith in
      rw here (
        rw open_group (
          visit_each_complete js cs (d + 1) (after s (own_id id) 1) fits (omega arith) split
          ∙ ap ok (after-after s (own_id id) (ids_each cs) 1 (size_each cs))))

  visit_each_complete :
      (js : Js) (cs : Conditions) (d : ℕ) (s : Seen)
      → FitsEach js cs d
      → s.nodes + size_each cs ≤ 256
      → IsDistinct (s.ids ++ ids_each cs)
      → visit_each js cs d s ≡ ok (after s (ids_each cs) (size_each cs))
  visit_each_complete js nil d s fits small distinct = ground (arith, append-nil s.ids)
  visit_each_complete js (cons c cs) d s (fits, fits_each) small distinct =
      let split = IsDistinct-regroup s.ids (ids c) (ids_each cs) distinct in
      let here = visit_complete js c d false s fits (omega arith) (IsDistinct-left _ _ split) in
      rw here (
        visit_each_complete js cs d (after s (ids c) (size c)) fits_each (omega arith) split
        ∙ ap ok (after-after s (ids c) (ids_each cs) (size c) (size_each cs)))

validate_plan_sound : (js : Js) (plan : Plan) → validate_plan js plan ≡ ok tt → IsWellFormed js plan
unfolding validate_plan
validate_plan_sound js plan h =
    let (root, h₁) = guard-eq-ok (is_all plan.hard) "invalid plan" _ h in
    let (s, visited, h₂) = >>=-eq-ok (visit js plan.hard 0 true nothing_seen) _ h₁ in
    let (s', rest, h₃) = >>=-eq-ok (visit_each js (of_list plan.preferences) 0 s) _ h₂ in
    let (fits, v) = visit_sound js plan.hard 0 true nothing_seen s visited in
    let (fits_each, w) = visit_each_sound js (of_list plan.preferences) 0 s s' rest in
    let both = Visited-trans v w in
    record {
      root = root;
      fits_hard = fits;
      fits_preferences = fits_each;
      small = omega (arith, both.after_nodes, both.bound (omega arith));
      distinct = rw both.after_ids at (both.distinct tt);
    }

validate_plan_complete :
    (js : Js) (plan : Plan) → IsWellFormed js plan → validate_plan js plan ≡ ok tt
unfolding validate_plan
validate_plan_complete js plan w =
    let hard =
      visit_complete js plan.hard 0 true nothing_seen w.fits_hard (omega (arith, w.small))
        (IsDistinct-left _ _ w.distinct) in
    let each =
      visit_each_complete js (of_list plan.preferences) 0
        (after nothing_seen (ids plan.hard) (size plan.hard)) w.fits_preferences
        (omega (arith, w.small)) w.distinct in
    rw w.root (rw hard (rw each))

-- The validator accepts a plan exactly if its hard root is an `all`, every condition stands at
-- most 12 deep and has a well-spelled id or none, its atom is valid, no connective but the hard
-- root is empty, there are at most 256 conditions, and no id occurs twice.
pub validate_plan_iff :
    (js : Js) (plan : Plan) → (validate_plan js plan ≡ ok tt) ↔ IsWellFormed js plan
validate_plan_iff js plan = (validate_plan_sound js plan, validate_plan_complete js plan)

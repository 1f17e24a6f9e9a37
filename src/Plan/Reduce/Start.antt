-- ===== src/Plan/Reduce/Start.antt =====
-- The reducer's first state: a well-formed plan has distinct ids, numbered below the counters.
use mathlib.Core.List.{append_assoc}
use event_recommender.Prelude.{
  ℕ, ◌≤◌, ◌<◌, ◌≡◌, refl, ap, true, false, Option, none, some, List, [], ◌∷◌, ◌++◌, All, All-append,
  All-left, All-right, All-mono, arith, subst,
}
use event_recommender.Prelude.Text.{Text, includes}
use event_recommender.Prelude.Distinct.{
  IsDistinct, includes-append, IsDistinct-left, IsDistinct-right,
}
use event_recommender.Prelude.Double.{exact_limit, le-double_of}
use event_recommender.Prelude.Js.{Js}
use event_recommender.Plan.{
  Condition, Conditions, nil, cons, Connective, Order, Plan, id_of, to_list, of_list,
  to_list-of_list,
}
use event_recommender.Plan.Validate.{is_all}
use event_recommender.Plan.Validate.WellFormed.{IsWellFormed, own_id, ids, ids_each}
use event_recommender.Plan.Reduce.{above_indices, next_index, successor, option_index, start}
use event_recommender.Plan.Reduce.Ids.{top_ids, top_ids-append}
use event_recommender.Plan.Reduce.Identities.{IsBelow, IsAbsent, IsNumbered}
use event_recommender.Plan.Reduce.Numbered.{HasRoom}

-- The ids below the root of a condition.
inner_ids : Condition → List Text
inner_ids (Condition.atom a id) = []
inner_ids (Condition.group k cs id) = ids_each cs
inner_ids (Condition.not c id) = ids c

ids_split : (c : Condition) → ids c ≡ own_id (id_of c) ++ inner_ids c
unfolding ids inner_ids
ids_split (Condition.atom a none) = refl
ids_split (Condition.atom a (some id)) = refl
ids_split (Condition.group k cs id) = refl
ids_split (Condition.not c id) = refl

absent_top :
    (cs : Conditions) (x : Text)
    → includes (ids_each cs) x ≡ false
    → includes (top_ids (to_list cs)) x ≡ false
unfolding ids_each includes
absent_top nil x h = refl
absent_top (cons c cs) x h = ground (
  arith,
  ids_split c,
  includes-append (ids c) (ids_each cs) x,
  ap (λ l. includes l x) (ids_split c),
  includes-append (own_id (id_of c)) (inner_ids c) x,
  includes-append (own_id (id_of c)) (top_ids (to_list cs)) x,
  absent_top cs x,
)

-- In a distinct list nothing of the one part is in the other.
apart_of_distinct : (xs ys : List Text) → IsDistinct (xs ++ ys) → All (IsAbsent ys) xs
apart_of_distinct [] ys d = tt
apart_of_distinct (x ∷ xs) ys d =
    (ground (arith, includes-append xs ys x), apart_of_distinct xs ys d.1)

IsDistinct-append :
    (xs ys : List Text)
    → IsDistinct xs
    → IsDistinct ys
    → All (IsAbsent ys) xs
    → IsDistinct (xs ++ ys)
IsDistinct-append [] ys dx dy a = dy
IsDistinct-append (x ∷ xs) ys dx dy a =
    (ground (arith, includes-append xs ys x), IsDistinct-append xs ys dx.1 dy a.1)

IsDistinct-top : (cs : Conditions) → IsDistinct (ids_each cs) → IsDistinct (top_ids (to_list cs))
unfolding ids_each
IsDistinct-top nil d = tt
IsDistinct-top (cons c cs) d =
    let d' = subst (λ l. IsDistinct (l ++ ids_each cs)) (ids_split c) d in
    let own =
      IsDistinct-left (own_id (id_of c)) (inner_ids c)
        (IsDistinct-left (own_id (id_of c) ++ inner_ids c) (ids_each cs) d') in
    IsDistinct-append (own_id (id_of c)) (top_ids (to_list cs)) own
      (IsDistinct-top cs (IsDistinct-right (ids c) (ids_each cs) d))
      (All-mono (IsAbsent (ids_each cs)) (IsAbsent (top_ids (to_list cs))) (own_id (id_of c))
        (absent_top cs)
        (All-left (IsAbsent (ids_each cs)) (own_id (id_of c)) (inner_ids c)
          (apart_of_distinct _ (ids_each cs) d')))

top_All : (P : Text → Type 0) (cs : Conditions) → All P (ids_each cs) → All P (top_ids (to_list cs))
unfolding ids_each
top_All P nil h = tt
top_All P (cons c cs) h =
    All-append P (own_id (id_of c)) (top_ids (to_list cs))
      (All-left P (own_id (id_of c)) (inner_ids c)
        (subst (All P) (ids_split c) (All-left P (ids c) (ids_each cs) h)))
      (top_All P cs (All-right P (ids c) (ids_each cs) h))

own-IsBelow :
    (h p : ℕ) (o : Option Text)
    → successor (option_index b'h' o) ≤ h
    → successor (option_index b'p' o) ≤ p
    → All (IsBelow h p) (own_id o)
own-IsBelow h p none a b = tt
own-IsBelow h p (some id) a b = ((a, b), tt)

numbers-IsBelow :
    (h p : ℕ) (cs : List Condition)
    → above_indices b'h' cs ≤ h
    → above_indices b'p' cs ≤ p
    → All (IsBelow h p) (top_ids cs)
unfolding above_indices
numbers-IsBelow h p [] a b = tt
numbers-IsBelow h p (c ∷ cs) a b =
    All-append (IsBelow h p) (own_id (id_of c)) (top_ids cs)
      (own-IsBelow h p (id_of c) (omega arith) (omega arith))
      (numbers-IsBelow h p cs (omega arith) (omega arith))

-- A counter below 2^53 is above every index.
above_indices-le :
    (prefix : ℕ) (cs : List Condition)
    → next_index prefix cs < exact_limit
    → above_indices prefix cs ≤ next_index prefix cs
unfolding next_index
above_indices-le prefix cs h = le-double_of (above_indices prefix cs) h

lists-IsNumbered :
    (cs : Conditions) (ps : List Condition) (order : Order)
    → next_index b'h' (to_list cs ++ ps) < exact_limit
    → next_index b'p' (to_list cs ++ ps) < exact_limit
    → IsDistinct (ids_each cs ++ ids_each (of_list ps))
    → IsNumbered (record {
      hard = to_list cs;
      preferred = ps;
      order = order;
      hard_index = next_index b'h' (to_list cs ++ ps);
      preferred_index = next_index b'p' (to_list cs ++ ps);
    })
lists-IsNumbered cs ps order hh hp d =
    let listed : top_ids (to_list (of_list ps)) ≡ top_ids ps = ap top_ids (to_list-of_list ps) in
    let below =
      subst
        (All (IsBelow (next_index b'h' (to_list cs ++ ps)) (next_index b'p' (to_list cs ++ ps))))
        (top_ids-append (to_list cs) ps)
        (numbers-IsBelow (next_index b'h' (to_list cs ++ ps)) (next_index b'p' (to_list cs ++ ps))
          (to_list cs ++ ps) (above_indices-le b'h' _ hh) (above_indices-le b'p' _ hp)) in
    let apart = top_All (IsAbsent (ids_each (of_list ps))) cs (apart_of_distinct _ _ d) in
    record {
      hard_distinct = IsDistinct-top cs (IsDistinct-left _ _ d);
      preferred_distinct =
          subst IsDistinct listed
            (IsDistinct-top (of_list ps) (IsDistinct-right (ids_each cs) _ d));
      apart =
          subst (λ l. All (IsAbsent l) (top_ids (to_list cs))) listed
            (All-mono (IsAbsent (ids_each (of_list ps))) (IsAbsent (top_ids (to_list (of_list ps))))
              (top_ids (to_list cs)) (absent_top (of_list ps)) apart);
      hard_below = All-left _ (top_ids (to_list cs)) (top_ids ps) below;
      preferred_below = All-right _ (top_ids (to_list cs)) (top_ids ps) below;
    }

start_of :
    (hard : Condition) (ps : List Condition) (order : Order)
    → is_all hard ≡ true
    → HasRoom 1 (start (record { hard = hard; preferences = ps; order = order }))
    → IsDistinct (ids hard ++ ids_each (of_list ps))
    → IsNumbered (start (record { hard = hard; preferences = ps; order = order }))
unfolding start ids
start_of (Condition.group Connective.all cs id) ps order r room d =
    lists-IsNumbered cs ps order (omega (arith, room.hard_room))
      (omega (arith, room.preferred_room))
      (IsDistinct-right (own_id id) (ids_each cs ++ ids_each (of_list ps))
        (subst IsDistinct (append_assoc (own_id id) (ids_each cs) (ids_each (of_list ps))) d))
start_of (Condition.group Connective.any cs id) ps order r room d = cc
start_of (Condition.atom a id) ps order r room d = cc
start_of (Condition.not c id) ps order r room d = cc

pub start-IsNumbered :
    (js : Js) (plan : Plan)
    → IsWellFormed js plan
    → HasRoom 1 (start plan)
    → IsNumbered (start plan)
start-IsNumbered js plan w room =
    start_of plan.hard plan.preferences plan.order w.root room w.distinct

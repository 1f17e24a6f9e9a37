-- ===== src/Plan/Reduce/Numbered.antt =====
-- Every operation of the reducer keeps the top-level ids distinct and numbered.
use event_recommender.Prelude.{
  ℕ, suc, ◌+◌, ◌≤◌, ◌≡◌, inl, inr, false, some, List, [], ◌∷◌, ◌++◌, All-append, All-mono,
  Bool-cases, arith,
}
use event_recommender.Prelude.Text.{Text, includes}
use event_recommender.Prelude.Distinct.{IsDistinct-snoc}
use event_recommender.Prelude.Double.{exact_limit, double_of-exact}
use event_recommender.Prelude.Js.{Js}
use event_recommender.Plan.{Condition, Strength, id_of, with_id}
use event_recommender.Plan.Reduce.{new_id, splice, Work, add_condition, holds_already}
use event_recommender.Plan.Reduce.Ids.{
  top_ids, id_of-with_id, includes-splice, All-splice, IsDistinct-splice,
}
use event_recommender.Plan.Reduce.Identities.{
  IsBelow, IsAbsent, IsNumbered, IsAbsent-snoc, hard_new-IsBelow, preferred_new-IsBelow,
  hard_new_absent, preferred_new_absent, top_ids_snoc,
}

-- Counters may move on.
weaken :
    {w : Work} (h p : ℕ)
    → w.hard_index ≤ h
    → w.preferred_index ≤ p
    → IsNumbered w
    → IsNumbered (record w { hard_index = h; preferred_index = p })
weaken h p hh hp n = record {
  hard_distinct = n.hard_distinct;
  preferred_distinct = n.preferred_distinct;
  apart = n.apart;
  hard_below = All-mono _ (IsBelow h p) _ (λ id b. omega arith) n.hard_below;
  preferred_below = All-mono _ (IsBelow h p) _ (λ id b. omega arith) n.preferred_below;
}

module _ {w : Work} (n : IsNumbered w) where
  pub push_hard :
      (c : Condition) (id : Text)
      → id_of c ≡ some id
      → includes (top_ids w.hard) id ≡ false
      → includes (top_ids w.preferred) id ≡ false
      → IsBelow w.hard_index w.preferred_index id
      → IsNumbered (record w { hard = w.hard ++ c ∷ [] })
  push_hard c id e fresh apart below = record {
    hard_distinct = rw (top_ids_snoc w.hard c id e) (IsDistinct-snoc _ id n.hard_distinct fresh);
    preferred_distinct = n.preferred_distinct;
    apart = rw (top_ids_snoc w.hard c id e) (
        All-append (IsAbsent (top_ids w.preferred)) (top_ids w.hard) (id ∷ []) n.apart (apart, tt));
    hard_below = rw (top_ids_snoc w.hard c id e) (
        All-append (IsBelow w.hard_index w.preferred_index) (top_ids w.hard) (id ∷ []) n.hard_below
          (below, tt));
    preferred_below = n.preferred_below;
  }

  pub push_preferred :
      (c : Condition) (id : Text)
      → id_of c ≡ some id
      → includes (top_ids w.hard) id ≡ false
      → includes (top_ids w.preferred) id ≡ false
      → IsBelow w.hard_index w.preferred_index id
      → IsNumbered (record w { preferred = w.preferred ++ c ∷ [] })
  push_preferred c id e apart fresh below = record {
    hard_distinct = n.hard_distinct;
    preferred_distinct =
        rw (top_ids_snoc w.preferred c id e) (IsDistinct-snoc _ id n.preferred_distinct fresh);
    apart =
        rw (top_ids_snoc w.preferred c id e)
          (IsAbsent-snoc (top_ids w.hard) (top_ids w.preferred) id n.apart apart);
    hard_below = n.hard_below;
    preferred_below = rw (top_ids_snoc w.preferred c id e) (
        All-append (IsBelow w.hard_index w.preferred_index) (top_ids w.preferred) (id ∷ [])
          n.preferred_below (below, tt));
  }

  pub splice_hard : (k : ℕ) → IsNumbered (record w { hard = splice k w.hard })
  splice_hard k = record {
    hard_distinct = IsDistinct-splice k w.hard n.hard_distinct;
    preferred_distinct = n.preferred_distinct;
    apart = All-splice (IsAbsent (top_ids w.preferred)) k w.hard n.apart;
    hard_below = All-splice _ k w.hard n.hard_below;
    preferred_below = n.preferred_below;
  }

  pub splice_preferred : (k : ℕ) → IsNumbered (record w { preferred = splice k w.preferred })
  splice_preferred k = record {
    hard_distinct = n.hard_distinct;
    preferred_distinct = IsDistinct-splice k w.preferred n.preferred_distinct;
    apart =
        All-mono _ (IsAbsent (top_ids (splice k w.preferred))) _
          (λ id. includes-splice k w.preferred id) n.apart;
    hard_below = n.hard_below;
    preferred_below = All-splice _ k w.preferred n.preferred_below;
  }

  pub same_hard :
      (cs : List Condition) → top_ids cs ≡ top_ids w.hard → IsNumbered (record w { hard = cs })
  same_hard cs e = record {
    hard_distinct = rw e n.hard_distinct;
    preferred_distinct = n.preferred_distinct;
    apart = rw e n.apart;
    hard_below = rw e n.hard_below;
    preferred_below = n.preferred_below;
  }

  pub same_preferred :
      (cs : List Condition)
      → top_ids cs ≡ top_ids w.preferred
      → IsNumbered (record w { preferred = cs })
  same_preferred cs e = record {
    hard_distinct = n.hard_distinct;
    preferred_distinct = rw e n.preferred_distinct;
    apart = rw e n.apart;
    hard_below = n.hard_below;
    preferred_below = rw e n.preferred_below;
  }

-- Neither counter can leave the exact range in so many steps.
pub record HasRoom (steps : ℕ) (w : Work) : Type 0 where
  pub hard_room : w.hard_index + steps ≤ exact_limit
  pub preferred_room : w.preferred_index + steps ≤ exact_limit

pub HasRoom-less : {n m : ℕ} {w : Work} → m ≤ n → HasRoom n w → HasRoom m w
HasRoom-less h r = record {
  hard_room = omega (arith, r.hard_room);
  preferred_room = omega (arith, r.preferred_room);
}

pub add_condition-IsNumbered :
    (js : Js) (s : Strength) (c : Condition) {w : Work}
    → HasRoom 1 w
    → IsNumbered w
    → IsNumbered (add_condition js s c w)
unfolding add_condition
add_condition-IsNumbered js Strength.hard c {w} r n =
    let h : w.hard_index ≤ exact_limit = omega (arith, r.hard_room) in
    elim (Bool-cases (holds_already js c w.hard)) [
      | inl old ↦ rw old n
      | inr new ↦ rw new (
          rw (double_of-exact (suc w.hard_index) (omega (arith, r.hard_room))) (
            push_hard (weaken (suc w.hard_index) w.preferred_index (omega arith) (omega arith) n)
              (with_id c (some (new_id js b'h' w.hard_index))) (new_id js b'h' w.hard_index)
              (id_of-with_id c _)
              (hard_new_absent js w.hard_index w.preferred_index _ h n.hard_below)
              (hard_new_absent js w.hard_index w.preferred_index _ h n.preferred_below)
              (hard_new-IsBelow js w.hard_index w.preferred_index h)))
    ]
add_condition-IsNumbered js Strength.preferred c {w} r n =
    let h : w.preferred_index ≤ exact_limit = omega (arith, r.preferred_room) in
    elim (Bool-cases (holds_already js c w.preferred)) [
      | inl old ↦ rw old n
      | inr new ↦ rw new (
          rw (double_of-exact (suc w.preferred_index) (omega (arith, r.preferred_room))) (
            push_preferred
              (weaken w.hard_index (suc w.preferred_index) (omega arith) (omega arith) n)
              (with_id c (some (new_id js b'p' w.preferred_index)))
              (new_id js b'p' w.preferred_index) (id_of-with_id c _)
              (preferred_new_absent js w.hard_index w.preferred_index _ h n.hard_below)
              (preferred_new_absent js w.hard_index w.preferred_index _ h n.preferred_below)
              (preferred_new-IsBelow js w.hard_index w.preferred_index h)))
    ]

pub add_condition-HasRoom :
    (js : Js) (s : Strength) (c : Condition) {w : Work} (steps : ℕ)
    → HasRoom (suc steps) w
    → HasRoom steps (add_condition js s c w)
unfolding add_condition
add_condition-HasRoom js Strength.hard c {w} steps r =
    elim (Bool-cases (holds_already js c w.hard)) [
      | inl old ↦ rw old (HasRoom-less (omega arith) r)
      | inr new ↦ rw new (
          rw (double_of-exact (suc w.hard_index) (omega (arith, r.hard_room))) (record {
            hard_room = omega (arith, r.hard_room);
            preferred_room = omega (arith, r.preferred_room);
          }))
    ]
add_condition-HasRoom js Strength.preferred c {w} steps r =
    elim (Bool-cases (holds_already js c w.preferred)) [
      | inl old ↦ rw old (HasRoom-less (omega arith) r)
      | inr new ↦ rw new (
          rw (double_of-exact (suc w.preferred_index) (omega (arith, r.preferred_room))) (record {
            hard_room = omega (arith, r.hard_room);
            preferred_room = omega (arith, r.preferred_room);
          }))
    ]

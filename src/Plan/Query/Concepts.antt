-- ===== src/Plan/Query/Concepts.antt =====
-- web/lib/plan-query.ts, `planRetrievalQuery`: it names what the plan asks for, and nothing that it
-- asks to avoid.
use mathlib.Core.List.{Memᴰ}
use mathlib.Core.List.Memᴰ
use event_recommender.Prelude.{
  Bool, true, false, Option, ◌≡◌, refl, subst, ◌↔◌, inl, inr, Bool-cases,
}
use event_recommender.Prelude.Text.{Text}
use event_recommender.Prelude.Number.{Number}
use event_recommender.Plan.{Atom, Connective, Condition, Conditions, to_list}
use event_recommender.Plan.Query.{
  is_concept, opposite_polarity, atom_text, positive_concepts, concepts_of_each,
}

module _ (number_text : Number → Text) where
  -- A concept stands in the condition, below an even number of negations if `positive`.
  pub data Names (t : Text) : (positive : Bool) → Condition → Type 0 where
    here :
        {a : Atom} {id : Option Text}
        → is_concept a ≡ true
        → t ≡ atom_text number_text a
        → Names t true (Condition.atom a id)
    negated :
        {positive : Bool} {c : Condition} {id : Option Text}
        → Names t (opposite_polarity positive) c
        → Names t positive (Condition.not c id)
    grouped :
        {positive : Bool} {c : Condition} {k : Connective} {cs : Conditions} {id : Option Text}
        → Memᴰ c (to_list cs)
        → Names t positive c
        → Names t positive (Condition.group k cs id)

  mutual
    unfolding positive_concepts concepts_of_each

    concepts-Names :
        (c : Condition) (positive : Bool) (t : Text)
        → Memᴰ t (positive_concepts number_text c positive)
        → Names t positive c
    concepts-Names (Condition.not c id) positive t m =
        negated (concepts-Names c (opposite_polarity positive) t m)
    concepts-Names (Condition.group k cs id) positive t m =
        let (c, (within, named)) = each-Names cs positive t m in grouped within named
    concepts-Names (Condition.atom a id) true t m = elim (Bool-cases (is_concept a)) [
      | inl e ↦ here e (Memᴰ.eq_of_singleton (rw e at m))
      | inr e ↦ absurd (Memᴰ.not-nil (rw e at m))
    ]
    concepts-Names (Condition.atom a id) false t m = absurd (Memᴰ.not-nil m)

    each-Names :
        (cs : Conditions) (positive : Bool) (t : Text)
        → Memᴰ t (concepts_of_each number_text cs positive)
        → (c : Condition) × (Memᴰ c (to_list cs) × Names t positive c)
    each-Names Conditions.nil positive t m = absurd (Memᴰ.not-nil m)
    each-Names (Conditions.cons c cs) positive t m =
        elim (Memᴰ.append_cases (positive_concepts number_text c positive) m) [
          | inl first ↦ (c, (Memᴰ.head refl, concepts-Names c positive t first))
          | inr later ↦
              let (d, (within, named)) = each-Names cs positive t later in
              (d, (Memᴰ.tail within, named))
        ]

  each_member :
      (cs : Conditions) (c : Condition) (positive : Bool) (t : Text)
      → Memᴰ c (to_list cs)
      → Memᴰ t (positive_concepts number_text c positive)
      → Memᴰ t (concepts_of_each number_text cs positive)
  unfolding positive_concepts concepts_of_each
  each_member Conditions.nil c positive t within m = absurd (Memᴰ.not-nil within)
  each_member (Conditions.cons d ds) c positive t (Memᴰ.head e) m =
      Memᴰ.append_left (concepts_of_each number_text ds positive)
        (subst (λ x. Memᴰ t (positive_concepts number_text x positive)) e m)
  each_member (Conditions.cons d ds) c positive t (Memᴰ.tail within) m =
      Memᴰ.append_right (positive_concepts number_text d positive)
        (each_member ds c positive t within m)

  Names-member :
      (t : Text) (positive : Bool) (c : Condition)
      → Names t positive c
      → Memᴰ t (positive_concepts number_text c positive)
  unfolding positive_concepts concepts_of_each
  Names-member t positive c (here e same) = rw e (Memᴰ.head same)
  Names-member t positive c (negated n) = Names-member t _ _ n
  Names-member t positive c (grouped within n) =
      each_member _ _ positive t within (Names-member t positive _ n)

  -- A text is one of the concepts of a condition exactly if an atom of a kind that is searched
  -- for, with this text, stands in it below an even number of negations.
  pub positive_concepts_iff :
      (c : Condition) (t : Text) → Memᴰ t (positive_concepts number_text c true) ↔ Names t true c
  positive_concepts_iff c t = (concepts-Names c true t, Names-member t true c)

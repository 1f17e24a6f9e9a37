-- ===== src/Plan/Validate/WellFormed.antt =====
-- What a well-formed plan is, apart from the code of `validatePlan`.
use event_recommender.Prelude.{
  ℕ, ◌+◌, ◌≤◌, ◌≡◌, ◌⊎◌, Bool, true, false, Option, none, some, List, [], ◌∷◌, ◌++◌, ok,
}
use event_recommender.Prelude.Text.{Text}
use event_recommender.Prelude.Distinct.{IsDistinct}
use event_recommender.Prelude.Js.{Js}
use event_recommender.Plan.{Condition, Conditions, nil, cons, Plan, of_list}
use event_recommender.Plan.Validate.{validate_atom, is_condition_id, is_empty, is_all}

-- The number of conditions in a tree.
unfoldable mutual
  pub size : Condition → ℕ
  size (Condition.atom a id) = 1
  size (Condition.group k cs id) = 1 + size_each cs
  size (Condition.not c id) = 1 + size c

  pub size_each : Conditions → ℕ
  size_each nil = 0
  size_each (cons c cs) = size c + size_each cs

abbrev pub own_id : Option Text → List Text
own_id none = []
own_id (some id) = id ∷ []

-- The ids in a tree, from the root down and from left to right.
unfoldable mutual
  pub ids : Condition → List Text
  ids (Condition.atom a id) = own_id id
  ids (Condition.group k cs id) = own_id id ++ ids_each cs
  ids (Condition.not c id) = own_id id ++ ids c

  pub ids_each : Conditions → List Text
  ids_each nil = []
  ids_each (cons c cs) = ids c ++ ids_each cs

abbrev pub HasGoodId : Option Text → Type 0
HasGoodId none = Unit
HasGoodId (some id) = is_condition_id id ≡ true

-- Depths, ids, atoms and connectives of the tree at depth `d` are as they must be.
unfoldable mutual
  pub Fits : Js → Condition → ℕ → Bool → Type 0
  Fits js (Condition.atom a id) d e = (d ≤ 12) × HasGoodId id × (validate_atom js a ≡ ok tt)
  Fits js (Condition.group k cs id) d e =
      (d ≤ 12) × HasGoodId id × ((e ≡ true) ⊎ (is_empty cs ≡ false)) × FitsEach js cs (d + 1)
  Fits js (Condition.not c id) d e = (d ≤ 12) × HasGoodId id × Fits js c (d + 1) false

  pub FitsEach : Js → Conditions → ℕ → Type 0
  FitsEach js nil d = Unit
  FitsEach js (cons c cs) d = Fits js c d false × FitsEach js cs d

pub record IsWellFormed (js : Js) (plan : Plan) : Type 0 where
  pub root : is_all plan.hard ≡ true
  pub fits_hard : Fits js plan.hard 0 true
  pub fits_preferences : FitsEach js (of_list plan.preferences) 0
  pub small : size plan.hard + size_each (of_list plan.preferences) ≤ 256
  pub distinct : IsDistinct (ids plan.hard ++ ids_each (of_list plan.preferences))

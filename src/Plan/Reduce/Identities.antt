-- ===== src/Plan/Reduce/Identities.antt =====
-- The invariant of the reducer: no two top-level conditions share an id, and every number that
-- was given out lies below its counter.
use event_recommender.Prelude.{
  ℕ, suc, ◌≤◌, ◌≡◌, ◌≢◌, refl, ◌∙◌, inl, inr, true, false, none, some, List, [], ◌∷◌, ◌++◌, All,
  Bool-cases, arith,
}
use event_recommender.Prelude.Text.{Text, text_eq, text_eq_iff, includes}
use event_recommender.Prelude.Distinct.{IsDistinct, includes-append, text_eq_sym}
use event_recommender.Prelude.Double.{exact_limit}
use event_recommender.Prelude.Js.{Js}
use event_recommender.Plan.{Condition, id_of}
use event_recommender.Plan.Reduce.{index_of, new_id, number_digits, successor, Work}
use event_recommender.Plan.Reduce.Ids.{top_ids, top_ids-append, index_of-new_id}

abbrev pub IsBelow : ℕ → ℕ → Text → Type 0
IsBelow h p id = (successor (index_of b'h' id) ≤ h) × (successor (index_of b'p' id) ≤ p)

-- `id` is in none of the ids.
abbrev pub IsAbsent : List Text → Text → Type 0
IsAbsent ids id = includes ids id ≡ false

pub record IsNumbered (w : Work) : Type 0 where
  pub hard_distinct : IsDistinct (top_ids w.hard)
  pub preferred_distinct : IsDistinct (top_ids w.preferred)
  pub apart : All (IsAbsent (top_ids w.preferred)) (top_ids w.hard)
  pub hard_below : All (IsBelow w.hard_index w.preferred_index) (top_ids w.hard)
  pub preferred_below : All (IsBelow w.hard_index w.preferred_index) (top_ids w.preferred)

absent_of_All :
    (P : Text → Type 0) (ids : List Text) (x : Text) → All P ids → ¬ P x → includes ids x ≡ false
unfolding includes
absent_of_All P [] x h n = refl
absent_of_All P (id ∷ ids) x h n = elim (Bool-cases (text_eq id x)) [
  | inl e ↦ absurd (n (rw ((text_eq_iff id x).0 e) at h.0))
  | inr e ↦ rw e (absent_of_All P ids x h.1 n)
]

-- Where `x` is in none of `hs`, no id of `hs` is `x`.
pub IsAbsent-snoc :
    (hs ps : List Text) (x : Text)
    → All (IsAbsent ps) hs
    → includes hs x ≡ false
    → All (IsAbsent (ps ++ x ∷ [])) hs
unfolding includes
IsAbsent-snoc [] ps x h n = tt
IsAbsent-snoc (id ∷ hs) ps x h n = (
  ground (arith, includes-append ps (x ∷ []) id, text_eq_sym x id),
  IsAbsent-snoc hs ps x h.1 (ground arith),
)

pub absent_of_apart :
    (hs ps : List Text) (x : Text)
    → All (IsAbsent ps) hs
    → includes hs x ≡ true
    → includes ps x ≡ false
unfolding includes
absent_of_apart [] ps x h e = cc
absent_of_apart (id ∷ hs) ps x h e = elim (Bool-cases (text_eq id x)) [
  | inl eq ↦ rw ((text_eq_iff id x).0 eq) at h.0
  | inr ne ↦ absent_of_apart hs ps x h.1 (ground arith)
]

index_of_other :
    (js : Js) (prefix other n : ℕ) → prefix ≢ other → index_of other (new_id js prefix n) ≡ none
unfolding index_of new_id
index_of_other js prefix other n h = go (number_digits js n)
  where
    go : (s : Text) → index_of other (prefix ∷ s) ≡ none
    go [] = refl
    go (d ∷ s) = ground arith

-- A new id of either kind is below the counter that has moved on, and in no list.
module _ (js : Js) where
  pub hard_new-IsBelow : (h p : ℕ) → h ≤ exact_limit → IsBelow (suc h) p (new_id js b'h' h)
  hard_new-IsBelow h p exact = (
    rw (index_of-new_id js b'h' h exact) (omega arith),
    rw (index_of_other js b'h' b'p' h (omega arith)) (omega arith),
  )

  pub preferred_new-IsBelow : (h p : ℕ) → p ≤ exact_limit → IsBelow h (suc p) (new_id js b'p' p)
  preferred_new-IsBelow h p exact = (
    rw (index_of_other js b'p' b'h' p (omega arith)) (omega arith),
    rw (index_of-new_id js b'p' p exact) (omega arith),
  )

  pub hard_new_absent :
      (h p : ℕ) (ids : List Text)
      → h ≤ exact_limit
      → All (IsBelow h p) ids
      → includes ids (new_id js b'h' h) ≡ false
  hard_new_absent h p ids exact b =
      absent_of_All (IsBelow h p) ids (new_id js b'h' h) b
        (λ low. absurd (omega (arith, rw (index_of-new_id js b'h' h exact) at low.0)))

  pub preferred_new_absent :
      (h p : ℕ) (ids : List Text)
      → p ≤ exact_limit
      → All (IsBelow h p) ids
      → includes ids (new_id js b'p' p) ≡ false
  preferred_new_absent h p ids exact b =
      absent_of_All (IsBelow h p) ids (new_id js b'p' p) b
        (λ low. absurd (omega (arith, rw (index_of-new_id js b'p' p exact) at low.1)))

pub top_ids_snoc :
    (cs : List Condition) (c : Condition) (id : Text)
    → id_of c ≡ some id
    → top_ids (cs ++ c ∷ []) ≡ top_ids cs ++ id ∷ []
top_ids_snoc cs c id e = top_ids-append cs (c ∷ []) ∙ rw e refl

pub All_includes :
    (P : Text → Type 0) (ids : List Text) (x : Text) → All P ids → includes ids x ≡ true → P x
unfolding includes
All_includes P [] x h e = cc
All_includes P (id ∷ ids) x h e = elim (Bool-cases (text_eq id x)) [
  | inl eq ↦ rw ((text_eq_iff id x).0 eq) at h.0
  | inr ne ↦ All_includes P ids x h.1 (ground arith)
]

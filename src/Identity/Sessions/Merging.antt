-- ===== src/Identity/Sessions/Merging.antt =====
-- collector/identity/resolve.ts, the loop over the accepted pairs: components hold compatible
-- listings only.
use event_recommender.Prelude.{
  ℕ, ◌<◌, Bool, true, false, Option, none, some, List, [], ◌∷◌, if◌then◌else◌, ◌==◌, ==_iff, ◌≡◌,
  sym, ap, subst, ◌∙◌, ◌⊎◌, inl, inr, Bool-cases, Option-cases, All, every, arith,
}
use event_recommender.Prelude.Text.{Text, text_eq, text_eq_iff}
use event_recommender.Identity.Sets.{Sets, find, members, lower_of, higher_of}
use event_recommender.Identity.Sets.Roots.{root}
use event_recommender.Identity.Sets.Partition.{
  contains, IsPartition, SamePartition, find_root, find_same, SamePartition-trans,
}
use event_recommender.Identity.Listing.{IdentityListing, Rules}
use event_recommender.Identity.Assess.{IdentityDecision, Rule}
use event_recommender.Identity.Assess.Compatible.{Compatible}
use event_recommender.Identity.Assess.Symmetry.{Compatible-sym}
use event_recommender.Identity.Pairs.{Ledger, decision_of, is_merged, key_of}
use event_recommender.Identity.Pairs.Keys.{has_separator, pair_key-injective}
use event_recommender.Identity.Pairs.Accepted.{InRange, Grounded}
use event_recommender.Identity.Sessions.{Graph, reject, collision, settle_pair, merge_pair}

pub every-contains :
    (p : ℕ → Bool) (xs : List ℕ) (i : ℕ) → every p xs ≡ true → contains xs i ≡ true → p i ≡ true
unfolding every contains
every-contains p [] i h k = ground arith
every-contains p (x ∷ xs) i h k = elim (Bool-cases (x == i)) [
  | inl e ↦ ap p (sym ((==_iff x i).0 e)) ∙ ground (arith, h)
  | inr e ↦ every-contains p xs i (ground (arith, h)) (ground (arith, k, e))
]

decision_of-All :
    (P : Text × IdentityDecision → Type 0) (ledger : Ledger) (key : Text) (d : IdentityDecision)
    → All P ledger
    → decision_of ledger key ≡ some d
    → (k : Text) × ((k ≡ key) × P (k, d))
unfolding decision_of
decision_of-All P [] key d h e = ground arith
decision_of-All P ((k, decision) ∷ rest) key d h e = elim (Bool-cases (text_eq k key)) [
  | inl same ↦
      let e' : some decision ≡ some d = rw same at e in
      (k, ((text_eq_iff k key).0 same, subst (λ o. held o) e' h.0))
  | inr other ↦ decision_of-All P rest key d h.1 (rw other at e)
]
  where
    held : Option IdentityDecision → Type 0
    held none = Unit
    held (some x) = P (k, x)

-- Two indices that are in one component after a union were in one before, or in the two.
pub joined_cases :
    (a b x y : ℕ)
    → (if x == higher_of a b then lower_of a b else x)
      ≡ (if y == higher_of a b then lower_of a b else y)
    → (x ≡ y) ⊎ (((x ≡ a) × (y ≡ b)) ⊎ ((x ≡ b) × (y ≡ a)))
joined_cases a b x y h = ground arith

module _ (rules : Rules) (count : ℕ) (listing : ℕ → IdentityListing) (venue : Text → Text)
    (seed : Text → Option Text) where
  abbrev pub identifier : ℕ → Text
  identifier i = (listing i).listing_id

  -- No two listings share an identifier.
  abbrev pub AreDistinct : Type 0
  AreDistinct = (i j : ℕ) → i < count → j < count → identifier i ≡ identifier j → i ≡ j

  abbrev pub AreClean : Type 0
  AreClean = (i : ℕ) → i < count → has_separator (identifier i) ≡ false

  abbrev pub Agree : ℕ → ℕ → Type 0
  Agree i j = (InRange count (i, j)) × Compatible rules venue (listing i) (listing j)

  pub reject-Grounded :
      (ledger : Ledger) (key : Text) (reason : Rule)
      → All (Grounded rules count listing venue seed) ledger
      → All (Grounded rules count listing venue seed) (reject ledger key reason)
  unfolding reject
  reject-Grounded [] key reason h = tt
  reject-Grounded ((k, d) ∷ rest) key reason h = elim (Bool-cases (text_eq k key)) [
    | inl e ↦ rw e (
      record {
        pair = h.0.pair;
        in_range = h.0.in_range;
        key = h.0.key;
        compatible = λ bad. ground (arith, bad);
      },
      h.1,
    )
    | inr e ↦ rw e (h.0, reject-Grounded rest key reason h.1)
  ]

  moved :
      (a b i j : ℕ)
      → a ≡ i
      → b ≡ j
      → Compatible rules venue (listing a) (listing b)
      → Compatible rules venue (listing i) (listing j)
  moved a b i j e f c =
      subst (λ x. Compatible rules venue (listing x) (listing j)) e
        (subst (λ y. Compatible rules venue (listing a) (listing y)) f c)

  -- The map finds the decision on these two listings, and not that on others.
  pub merged-Compatible :
      AreDistinct
      → AreClean
      → (ledger : Ledger) (i j : ℕ) → All (Grounded rules count listing venue seed) ledger
      → i < count
      → j < count
      → is_merged (decision_of ledger (key_of rules count listing venue seed (i, j))) ≡ true
      → Compatible rules venue (listing i) (listing j)
  merged-Compatible distinct clean ledger i j h hi hj m =
      elim (Option-cases (decision_of ledger (key_of rules count listing venue seed (i, j)))) [
        | inl e ↦ absurd (ground (arith, sym (ap is_merged e) ∙ m))
        | inr (d, e) ↦
            let (k, (same, g)) =
              decision_of-All (Grounded rules count listing venue seed) ledger _ d h e in
            let c = g.compatible (sym (ap is_merged e) ∙ m) in
            elim (pair_key-injective (identifier g.pair.0) (identifier g.pair.1) (identifier i)
              (identifier j) (clean g.pair.0 g.in_range.0) (clean g.pair.1 g.in_range.1)
              (clean i hi) (clean j hj) (sym g.key ∙ same)) [
                | inl (first, second) ↦
                    moved g.pair.0 g.pair.1 i j (distinct g.pair.0 i g.in_range.0 hi first)
                      (distinct g.pair.1 j g.in_range.1 hj second) c
                | inr (first, second) ↦ Compatible-sym rules venue (listing j) (listing i) (
                    moved g.pair.0 g.pair.1 j i (distinct g.pair.0 j g.in_range.0 hj first)
                      (distinct g.pair.1 i g.in_range.1 hi second) c)
              ]
      ]

  -- What is left of a pair once its members and its roots are found.
  abbrev pub found : (v : Sets) (pair : ℕ × ℕ) (g : Graph) (a b : ℕ) (left right : List ℕ) → Graph
  found v pair g a b left right =
      if a == b
      then record g { sets = v }
      else settle_pair rules count listing venue seed
          (collision rules count listing venue seed g.ledger left right) pair
          (record g { sets = v })

  -- Paths are shorter, and the members are those of the two roots.
  pub merge_pair_lem :
      (l r : ℕ) (g : Graph)
      → IsPartition g.sets
      → (v : Sets) × (SamePartition g.sets v
          × (merge_pair rules count listing venue seed (l, r) g
              ≡ found v
                  (l, r)
                  g
                  (root g.sets.parent l)
                  (root g.sets.parent r)
                  (g.sets.component_members (root g.sets.parent l))
                  (g.sets.component_members (root g.sets.parent r))))
  unfolding merge_pair members
  merge_pair_lem l r g p =
      let s = (find g.sets l).1 in
      let t = (find s r).1 in
      let u = (find t l).1 in
      let v = (find u r).1 in
      let to_s = find_same g.sets l p.forest in
      let to_t = SamePartition-trans g.sets s t to_s (find_same s r to_s.forest) in
      let to_u = SamePartition-trans g.sets t u to_t (find_same t l to_t.forest) in
      let to_v = SamePartition-trans g.sets u v to_u (find_same u r to_u.forest) in
      let a = find_root t l ∙ to_t.roots l in
      let b = find_root u r ∙ to_u.roots r in
      let left = ap s.component_members (find_root g.sets l) ∙ to_s.lists (root g.sets.parent l) in
      let right =
        ap t.component_members (find_root s r ∙ to_s.roots r) ∙ to_t.lists (root g.sets.parent r) in
      (v, (to_v, λ i. found v (l, r) g (a i) (b i) (left i) (right i)))

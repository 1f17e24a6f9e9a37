-- ===== src/Identity/Sessions/Agreement.antt =====
-- collector/identity/resolve.ts, `merged`: two listings of a component agree.
use event_recommender.Prelude.{
  ℕ, ◌<◌, true, Option, none, some, List, [], ◌∷◌, ◌==◌, ==_iff, ◌≡◌, ◌≢◌, refl, sym, ap, subst,
  ◌∙◌, inl, inr, Bool-cases, All, arith,
}
use event_recommender.Prelude.Text.{Text}
use event_recommender.Identity.Sets.{Sets, union, new_sets}
use event_recommender.Identity.Sets.Roots.{root, root_top}
use event_recommender.Identity.Sets.Partition.{
  contains, IsPartition, SamePartition, new_sets-IsPartition, SamePartition-IsPartition,
  union-Joined,
}
use event_recommender.Identity.Listing.{IdentityListing, Rules}
use event_recommender.Identity.Assess.{Rule}
use event_recommender.Identity.Assess.Symmetry.{Compatible-sym}
use event_recommender.Identity.Pairs.{Ledger, decided}
use event_recommender.Identity.Pairs.Accepted.{InRange, Grounded, decided-IsGrounded}
use event_recommender.Identity.Sessions.{
  Graph, all_merged, collision, settle_pair, merge_pair, merge_pairs, merged,
}
use event_recommender.Identity.Sessions.Merging.{
  every-contains, joined_cases, AreDistinct, AreClean, Agree, reject-Grounded, merged-Compatible,
  merge_pair_lem,
}

module _ (rules : Rules) (count : ℕ) (listing : ℕ → IdentityListing) (venue : Text → Text)
    (seed : Text → Option Text) (distinct : AreDistinct rules count listing venue seed)
    (clean : AreClean rules count listing venue seed) where
  pub record IsMerged (g : Graph) : Type 0 where
    pub partition : IsPartition g.sets
    pub agree :
        (i j : ℕ)
        → i ≢ j
        → root g.sets.parent i ≡ root g.sets.parent j
        → Agree rules count listing venue seed i j
    pub ledger : All (Grounded rules count listing venue seed) g.ledger

  no_collision :
      (ledger : Ledger) (left right : List ℕ)
      → collision rules count listing venue seed ledger left right ≡ none
      → all_merged rules count listing venue seed ledger left right ≡ true
  unfolding collision
  no_collision ledger left right h = ground arith

  Agree-sym :
      (i j : ℕ)
      → Agree rules count listing venue seed i j
      → Agree rules count listing venue seed j i
  Agree-sym i j ((hi, hj), c) = ((hj, hi), Compatible-sym rules venue (listing i) (listing j) c)

  shorter-IsMerged :
      (g : Graph) (v : Sets)
      → SamePartition g.sets v
      → IsMerged g
      → IsMerged (record g { sets = v })
  shorter-IsMerged g v same m = record {
    partition = SamePartition-IsPartition g.sets v same m.partition;
    agree = λ i j apart e. m.agree i j apart (sym (same.roots i) ∙ e ∙ same.roots j);
    ledger = m.ledger;
  }

  -- An index of a component is that of a listing when another of the component is.
  in_range :
      (g : Graph) (l i : ℕ)
      → IsMerged g
      → l < count
      → root g.sets.parent i ≡ root g.sets.parent l
      → i < count
  in_range g l i m h e = elim (Bool-cases (i == l)) [
    | inl same ↦ omega (arith, (==_iff i l).0 same, h)
    | inr other ↦ (m.agree i l (λ eq. ground (arith, eq, other)) e).0.0
  ]

  -- Two listings, one of each of the two components.
  across :
      (g : Graph) (l r i j : ℕ)
      → IsMerged g
      → InRange count (l, r)
      → all_merged rules count listing venue seed g.ledger
          (g.sets.component_members (root g.sets.parent l))
          (g.sets.component_members (root g.sets.parent r))
        ≡ true
      → root g.sets.parent i ≡ root g.sets.parent l
      → root g.sets.parent j ≡ root g.sets.parent r
      → Agree rules count listing venue seed i j
  unfolding all_merged
  across g l r i j m h all ei ej =
      let hi = in_range g l i m h.0 ei in
      let hj = in_range g r j m h.1 ej in
      let in_left =
        ap (λ t. contains (g.sets.component_members t) i) (sym ei) ∙ m.partition.complete i in
      let in_right =
        ap (λ t. contains (g.sets.component_members t) j) (sym ej) ∙ m.partition.complete j in
      let row = every-contains _ (g.sets.component_members (root g.sets.parent l)) i all in_left in
      let cell =
        every-contains _ (g.sets.component_members (root g.sets.parent r)) j row in_right in
      (
        (hi, hj),
        merged-Compatible rules count listing venue seed distinct clean g.ledger i j m.ledger hi hj
            cell,
      )

  union-IsMerged :
      (g : Graph) (v : Sets) (l r : ℕ)
      → IsMerged g
      → SamePartition g.sets v
      → InRange count (l, r)
      → all_merged rules count listing venue seed g.ledger
          (g.sets.component_members (root g.sets.parent l))
          (g.sets.component_members (root g.sets.parent r))
        ≡ true
      → IsMerged (record g { sets = union v l r })
  union-IsMerged g v l r m same h all =
      let short = shorter-IsMerged g v same m in
      let joined = union-Joined v l r short.partition in
      record {
        partition = joined.partition;
        agree = λ i j apart e.
            elim (joined_cases (root v.parent l) (root v.parent r) (root v.parent i)
              (root v.parent j) (sym (joined.roots i) ∙ e ∙ joined.roots j)) [
                | inl one ↦ short.agree i j apart one
                | inr (inl (il, jr)) ↦
                    across g l r i j m h all (sym (same.roots i) ∙ il ∙ same.roots l)
                      (sym (same.roots j) ∙ jr ∙ same.roots r)
                | inr (inr (ir, jl)) ↦ Agree-sym j i (
                    across g l r j i m h all (sym (same.roots j) ∙ jl ∙ same.roots l)
                      (sym (same.roots i) ∙ ir ∙ same.roots r))
              ];
        ledger = m.ledger;
      }

  merge_pair-IsMerged :
      (pair : ℕ × ℕ) (g : Graph)
      → InRange count pair
      → IsMerged g
      → IsMerged (merge_pair rules count listing venue seed pair g)
  merge_pair-IsMerged (l, r) g h m =
      let (v, (same, e)) = merge_pair_lem rules count listing venue seed l r g m.partition in
      let left = g.sets.component_members (root g.sets.parent l) in
      let right = g.sets.component_members (root g.sets.parent r) in
      subst IsMerged (sym e) (elim (Bool-cases (root g.sets.parent l == root g.sets.parent r)) [
        | inl one ↦ rw one (shorter-IsMerged g v same m)
        | inr two ↦ rw two (
            settled v same (collision rules count listing venue seed g.ledger left right)
              (no_collision g.ledger left right))
      ])
    where
      settled :
          (v : Sets)
          → SamePartition g.sets v
          → (reason : Option Rule)
          → (reason ≡ none
              → all_merged rules count listing venue seed g.ledger
                  (g.sets.component_members (root g.sets.parent l))
                  (g.sets.component_members (root g.sets.parent r))
                ≡ true)
          → IsMerged
              (settle_pair rules count listing venue seed reason (l, r) (record g { sets = v }))
      settled v same none free = union-IsMerged g v l r m same h (free refl)
      settled v same (some reason) free =
          let short = shorter-IsMerged g v same m in
          record {
            partition = short.partition;
            agree = short.agree;
            ledger = reject-Grounded rules count listing venue seed g.ledger _ reason m.ledger;
          }

  merge_pairs-IsMerged :
      (pairs : List (ℕ × ℕ)) (g : Graph)
      → All (InRange count) pairs
      → IsMerged g
      → IsMerged (merge_pairs rules count listing venue seed pairs g)
  unfolding merge_pairs
  merge_pairs-IsMerged [] g h m = m
  merge_pairs-IsMerged (pair ∷ pairs) g h m =
      merge_pairs-IsMerged pairs _ h.1 (merge_pair-IsMerged pair g h.0 m)

  own : (i : ℕ) → root new_sets.parent i ≡ i
  unfolding new_sets
  own i = root_top (λ j. j) (λ j. omega arith) i (ground arith)

  pub merged-IsMerged : IsMerged (merged rules count listing venue seed)
  unfolding merged
  merged-IsMerged =
      let start = decided-IsGrounded rules count listing venue seed in
      merge_pairs-IsMerged (decided rules count listing venue seed).accepted _ start.accepted
        (record {
          partition = new_sets-IsPartition;
          agree = λ i j apart e. absurd (apart (sym (own i) ∙ e ∙ own j));
          ledger = start.ledger;
        })

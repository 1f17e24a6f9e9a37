-- ===== src/Identity/Sets/Merge.antt =====
-- collector/identity/resolve.ts, `DisjointSet`: what `find` and `union` do to the roots.
use event_recommender.Prelude.{
  ℕ, ◌≤◌, ◌<◌, ◌≡◌, refl, sym, ap, ◌∙◌, inl, inr, true, false, if◌then◌else◌, ◌==◌, ==_iff,
  Bool-cases, arith,
}
use event_recommender.Identity.Sets.{write_at}
use event_recommender.Identity.Sets.Roots.{
  IsForest, root, below, root_top, root_step, forest_ind, root_is_top, root-le,
}

pub write_at-same {ℓ} :
    {A : Type ℓ} (array : ℕ → A) (i : ℕ) (value : A) → write_at array i value i ≡ value
unfolding write_at
write_at-same array i value = let same : (i == i) ≡ true = ground arith in rw same refl

pub write_at-other {ℓ} :
    {A : Type ℓ} (array : ℕ → A) (i : ℕ) (value : A) (j : ℕ)
    → (j == i) ≡ false
    → write_at array i value j ≡ array j
unfolding write_at
write_at-other array i value j h = rw h refl

-- Writing a lower parent keeps the forest.
pub write_at-IsForest :
    (parent : ℕ → ℕ) (i r : ℕ) → IsForest parent → r ≤ i → IsForest (write_at parent i r)
unfolding write_at
write_at-IsForest parent i r forest h j = elim (Bool-cases (j == i)) [
  | inl e ↦ rw e (omega (arith, (==_iff j i).0 e))
  | inr e ↦ rw e (forest j)
]

module _ (parent : ℕ → ℕ) (forest : IsForest parent) where
  -- An index may be hung below its root: no root changes.
  pub hang_root :
      (i r : ℕ) → r ≡ root parent i → (j : ℕ) → root (write_at parent i r) j ≡ root parent j
  hang_root i r e j =
      let next = write_at parent i r in
      let next_forest : IsForest next =
        write_at-IsForest parent i r forest (omega (arith, e, root-le parent forest i)) in
      forest_ind parent forest (λ j. root next j ≡ root parent j)
        (λ j top. elim (Bool-cases (j == i)) [
          | inl here ↦
              let same = (==_iff j i).0 here in
              let r_is_j : r ≡ j = e ∙ ap (root parent) (sym same) ∙ root_top parent forest j top in
              let stays : next j ≡ j = ap next same ∙ write_at-same parent i r ∙ r_is_j in
              root_top next next_forest j (ground (arith, stays))
              ∙ sym (root_top parent forest j top)
          | inr away ↦
              root_top next next_forest j (rw (write_at-other parent i r j away) top)
              ∙ sym (root_top parent forest j top)
        ])
        (λ j up ih. elim (Bool-cases (j == i)) [
          | inl here ↦
              let same = (==_iff j i).0 here in
              let r_is : r ≡ root parent j = e ∙ ap (root parent) (sym same) in
              let next_j : next j ≡ r = ap next same ∙ write_at-same parent i r in
              let low : r < j = omega (
                arith,
                r_is,
                root_step parent forest j up,
                root-le parent forest (parent j),
                below parent forest j up,
              ) in
              let top : next r ≡ r =
                write_at-other parent i r r (ground (arith, low, same))
                ∙ ap parent r_is
                ∙ root_is_top parent forest j
                ∙ sym r_is in
              root_step next next_forest j (ground (arith, next_j, low))
              ∙ ap (root next) next_j
              ∙ root_top next next_forest r (ground (arith, top))
              ∙ r_is
          | inr away ↦
              root_step next next_forest j (rw (write_at-other parent i r j away) up)
              ∙ ap (root next) (write_at-other parent i r j away)
              ∙ ih
              ∙ sym (root_step parent forest j up)
        ])
        j j (omega arith)

  -- A root may be hung below a lower root: the indices below it get the lower one.
  pub link_root :
      (child top : ℕ)
      → parent child ≡ child
      → parent top ≡ top
      → top < child
      → (j : ℕ)
      → root (write_at parent child top) j ≡ (if root parent j == child then top else root parent j)
  link_root child top child_top top_top low j =
      let next = write_at parent child top in
      let next_forest : IsForest next =
        write_at-IsForest parent child top forest (omega (arith, low)) in
      let stays : next top ≡ top =
        write_at-other parent child top top (ground (arith, low)) ∙ top_top in
      forest_ind parent forest
        (λ j. root next j ≡ (if root parent j == child then top else root parent j))
        (λ j own. elim (Bool-cases (j == child)) [
          | inl here ↦
              let same = (==_iff j child).0 here in
              let next_j : next j ≡ top = ap next same ∙ write_at-same parent child top in
              rw (root_top parent forest j own) (
                rw here (
                  root_step next next_forest j (ground (arith, next_j, low, same))
                  ∙ ap (root next) next_j
                  ∙ root_top next next_forest top (ground (arith, stays))))
          | inr away ↦ rw (root_top parent forest j own) (
              rw away
                (root_top next next_forest j (rw (write_at-other parent child top j away) own)))
        ])
        (λ j up ih.
          let away : (j == child) ≡ false = ground (arith, child_top, up) in
          rw (root_step parent forest j up) (
            root_step next next_forest j (rw (write_at-other parent child top j away) up)
            ∙ ap (root next) (write_at-other parent child top j away)
            ∙ ih))
        j j (omega arith)

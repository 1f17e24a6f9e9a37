-- ===== src/Identity/Sets/Ends.antt =====
-- collector/identity/resolve.ts, `DisjointSet.find`: both loops end, at a root.
use event_recommender.Prelude.{
  ℕ, zero, suc, ◌≤◌, ◌≡◌, refl, sym, subst, ◌∙◌, inl, inr, ◌==◌, Bool-cases, arith,
}
use event_recommender.Identity.Sets.{Sets, write_at, root_of, compress, find}
use event_recommender.Identity.Sets.Roots.{
  IsForest, root, below, root_of-fuel, root_step, root_is_top, root-le,
}
use event_recommender.Identity.Sets.Merge.{write_at-IsForest, hang_root}
use event_recommender.Identity.Sets.Partition.{find_same}

compress-fuel :
    (f g : ℕ) (parent : ℕ → ℕ) (r i : ℕ)
    → IsForest parent
    → r ≡ root parent i
    → i ≤ f
    → i ≤ g
    → compress f parent r i ≡ compress g parent r i
unfolding compress
compress-fuel zero zero parent r i forest e hf hg = refl
compress-fuel zero (suc g) parent r i forest e hf hg = elim (Bool-cases (parent i == i)) [
  | inl top ↦ rw top refl
  | inr up ↦ absurd (omega (arith, below parent forest i up, hf))
]
compress-fuel (suc f) zero parent r i forest e hf hg = elim (Bool-cases (parent i == i)) [
  | inl top ↦ rw top refl
  | inr up ↦ absurd (omega (arith, below parent forest i up, hg))
]
compress-fuel (suc f) (suc g) parent r i forest e hf hg = elim (Bool-cases (parent i == i)) [
  | inl top ↦ rw top refl
  | inr up ↦
      let low = below parent forest i up in
      rw up (
        compress-fuel f g (write_at parent i r) r (parent i)
          (write_at-IsForest parent i r forest (omega (arith, e, root-le parent forest i)))
          (e ∙ root_step parent forest i up ∙ sym (hang_root parent forest i r e (parent i)))
          (omega (arith, low, hf)) (omega (arith, low, hg)))
]

-- However many rounds the loops of `find` may take, from the index on, they give what `find`
-- gives, and what it finds is a root of the sets that it leaves, as long as no parent lies above
-- its child.
pub find-ends :
    (s : Sets) (i rounds : ℕ)
    → IsForest s.parent
    → i ≤ rounds
    → (root_of rounds s.parent i ≡ (find s i).0)
      × ((compress rounds s.parent (find s i).0 i ≡ (find s i).1.parent)
          × ((find s i).1.parent (find s i).0 ≡ (find s i).0))
unfolding find
find-ends s i rounds forest h =
    let same = find_same s i forest in
    (
      root_of-fuel s.parent forest rounds i i h (omega arith),
      (
        compress-fuel rounds i s.parent (root s.parent i) i forest refl h (omega arith),
        subst (λ r. (find s i).1.parent r ≡ r) (same.roots i)
            (root_is_top (find s i).1.parent same.forest i),
      ),
    )

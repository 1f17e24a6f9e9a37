-- ===== src/Identity/Sets/Roots.antt =====
-- collector/identity/resolve.ts, `DisjointSet.find`: the root, and that compression keeps it.
use event_recommender.Prelude.{
  ℕ, zero, suc, ◌≤◌, ◌<◌, ◌≡◌, refl, ◌∙◌, inl, inr, true, false, if◌then◌else◌, ◌==◌, Bool-cases,
  arith,
}
use event_recommender.Identity.Sets.{root_of}

-- A parent lies no higher than its child.
abbrev pub IsForest : (ℕ → ℕ) → Type 0
IsForest parent = (i : ℕ) → parent i ≤ i

-- The root of an index, on fuel enough.
abbrev pub root : (ℕ → ℕ) → ℕ → ℕ
root parent i = root_of i parent i

module _ (parent : ℕ → ℕ) (forest : IsForest parent) where
  pub below : (i : ℕ) → (parent i == i) ≡ false → parent i < i
  below i h = ground (arith, forest i)

  -- More fuel than the index changes nothing.
  pub root_of-fuel : (f g i : ℕ) → i ≤ f → i ≤ g → root_of f parent i ≡ root_of g parent i
  unfolding root_of
  root_of-fuel zero zero i hf hg = refl
  root_of-fuel zero (suc g) i hf hg = elim (Bool-cases (parent i == i)) [
    | inl top ↦ rw top refl
    | inr up ↦ absurd (omega (arith, below i up))
  ]
  root_of-fuel (suc f) zero i hf hg = elim (Bool-cases (parent i == i)) [
    | inl top ↦ rw top refl
    | inr up ↦ absurd (omega (arith, below i up))
  ]
  root_of-fuel (suc f) (suc g) i hf hg = elim (Bool-cases (parent i == i)) [
    | inl top ↦ rw top refl
    | inr up ↦
        rw up (root_of-fuel f g (parent i) (omega (arith, below i up)) (omega (arith, below i up)))
  ]

  -- With fuel to spare, one round can be taken.
  root_round : (i : ℕ) → root parent i ≡ (if parent i == i then i else root parent (parent i))
  unfolding root_of
  root_round i = elim (Bool-cases (parent i == i)) [
    | inl top ↦ rw top (root_of-fuel i (suc i) i (omega arith) (omega arith) ∙ rw top refl)
    | inr up ↦ rw up (
        root_of-fuel i (suc i) i (omega arith) (omega arith)
        ∙ rw up (root_of-fuel i (parent i) (parent i) (forest i) (omega arith)))
  ]

  pub root_top : (i : ℕ) → (parent i == i) ≡ true → root parent i ≡ i
  root_top i h = root_round i ∙ rw h refl

  pub root_step : (i : ℕ) → (parent i == i) ≡ false → root parent i ≡ root parent (parent i)
  root_step i h = root_round i ∙ rw h refl

  -- What holds of an index that is its own parent, and of one whose parent it holds of, holds.
  pub forest_ind :
      (P : ℕ → Type 0)
      → ((i : ℕ) → (parent i == i) ≡ true → P i)
      → ((i : ℕ) → (parent i == i) ≡ false → P (parent i) → P i)
      → (n i : ℕ) → i ≤ n
      → P i
  forest_ind P top up zero i h = elim (Bool-cases (parent i == i)) [
    | inl e ↦ top i e
    | inr e ↦ absurd (omega (arith, below i e))
  ]
  forest_ind P top up (suc n) i h = elim (Bool-cases (parent i == i)) [
    | inl e ↦ top i e
    | inr e ↦ up i e (forest_ind P top up n (parent i) (omega (arith, below i e)))
  ]

  pub root_is_top : (i : ℕ) → parent (root parent i) ≡ root parent i
  root_is_top i =
      forest_ind (λ j. parent (root parent j) ≡ root parent j)
        (λ j e. rw (root_top j e) (ground (arith, e))) (λ j e h. rw (root_step j e) h) i i
        (omega arith)

  pub root-le : (i : ℕ) → root parent i ≤ i
  root-le i =
      forest_ind (λ j. root parent j ≤ j) (λ j e. omega (arith, root_top j e))
        (λ j e h. omega (arith, root_step j e, below j e, h)) i i (omega arith)

  pub root_again : (i : ℕ) → root parent (root parent i) ≡ root parent i
  root_again i = root_top (root parent i) (ground (arith, root_is_top i))

-- ===== src/Identity/Sets/Partition.antt =====
-- collector/identity/resolve.ts, `DisjointSet`: it implements a partition of the indices.
use event_recommender.Prelude.{
  ℕ, zero, suc, ◌<◌, ◌≡◌, refl, sym, ap, subst, ◌∙◌, inl, inr, Bool, true, false, ◌||◌, List, [],
  ◌∷◌, ◌++◌, if◌then◌else◌, leb, ◌==◌, ==_iff, Bool-cases, arith, All, All-append, All-mono,
}
use event_recommender.Identity.Sets.{
  Sets, write_at, compress, find, lower_of, higher_of, link, union, new_sets,
}
use event_recommender.Identity.Sets.Roots.{
  IsForest, root, root_top, root_step, root_is_top, root-le,
}
use event_recommender.Identity.Sets.Merge.{write_at-IsForest, hang_root, link_root}

unfoldable pub contains : List ℕ → ℕ → Bool
contains [] i = false
contains (j ∷ js) i = j == i || contains js i

pub contains-append :
    (xs ys : List ℕ) (i : ℕ) → contains (xs ++ ys) i ≡ (contains xs i || contains ys i)
unfolding contains
contains-append [] ys i = refl
contains-append (x ∷ xs) ys i = ground (arith, contains-append xs ys i)

-- The roots partition the indices, and each root's list holds exactly the indices below it.
pub record IsPartition (s : Sets) : Type 0 where
  pub forest : IsForest s.parent
  pub complete : (i : ℕ) → contains (s.component_members (root s.parent i)) i ≡ true
  pub sound : (r : ℕ) → All (λ i. root s.parent i ≡ r) (s.component_members r)

-- Nothing but the paths to the roots has changed.
pub record SamePartition (s t : Sets) : Type 0 where
  pub forest : IsForest t.parent
  pub roots : (i : ℕ) → root t.parent i ≡ root s.parent i
  pub lists : (r : ℕ) → t.component_members r ≡ s.component_members r

pub new_sets-IsPartition : IsPartition new_sets
unfolding new_sets contains
new_sets-IsPartition = record {
  forest = λ i. omega arith;
  complete = λ i. rw (root_top (λ i. i) (λ i. omega arith) i (ground arith)) (ground arith);
  sound = λ r. (root_top (λ i. i) (λ i. omega arith) r (ground arith), tt);
}

compress_same :
    (fuel : ℕ) (parent : ℕ → ℕ) (r i : ℕ)
    → IsForest parent
    → r ≡ root parent i
    → IsForest (compress fuel parent r i)
      × ((j : ℕ) → root (compress fuel parent r i) j ≡ root parent j)
unfolding compress
compress_same zero parent r i forest e = (forest, λ j. refl)
compress_same (suc fuel) parent r i forest e = elim (Bool-cases (parent i == i)) [
  | inl top ↦ rw top (forest, λ j. refl)
  | inr up ↦
      let next = write_at parent i r in
      let next_forest =
        write_at-IsForest parent i r forest (omega (arith, e, root-le parent forest i)) in
      let e' = e ∙ root_step parent forest i up ∙ sym (hang_root parent forest i r e (parent i)) in
      let (kept, same) = compress_same fuel next r (parent i) next_forest e' in
      rw up (kept, λ j. same j ∙ hang_root parent forest i r e j)
]

pub find_root : (s : Sets) (i : ℕ) → (find s i).0 ≡ root s.parent i
unfolding find
find_root s i = refl

pub find_same : (s : Sets) (i : ℕ) → IsForest s.parent → SamePartition s (find s i).1
unfolding find
find_same s i forest =
    let (kept, same) = compress_same i s.parent (root s.parent i) i forest refl in
    record { forest = kept; roots = same; lists = λ r. refl }

pub SamePartition-IsPartition : (s t : Sets) → SamePartition s t → IsPartition s → IsPartition t
SamePartition-IsPartition s t same p = record {
  forest = same.forest;
  complete = λ i. rw (same.roots i) (rw (same.lists (root s.parent i)) (p.complete i));
  sound = λ r. rw (same.lists r) (
      All-mono (λ i. root s.parent i ≡ r) (λ i. root t.parent i ≡ r) (s.component_members r)
        (λ i h. same.roots i ∙ h) (p.sound r));
}

pub SamePartition-trans : (s t u : Sets) → SamePartition s t → SamePartition t u → SamePartition s u
SamePartition-trans s t u a b = record {
  forest = b.forest;
  roots = λ i. b.roots i ∙ a.roots i;
  lists = λ r. b.lists r ∙ a.lists r;
}

module _ (s : Sets) (top child : ℕ) (low : top < child) where
  link_list :
      (r : ℕ)
      → (link s top child).component_members r ≡ (
          if r == child
          then []
          else if r == top
          then s.component_members top ++ s.component_members child
          else s.component_members r)
  unfolding link write_at
  link_list r = refl

  merged_list :
      (link s top child).component_members top
      ≡ s.component_members top ++ s.component_members child
  merged_list =
      let apart : (top == child) ≡ false = ground (arith, low) in
      let same : (top == top) ≡ true = ground arith in link_list top ∙ rw apart (rw same refl)

  other_list :
      (r : ℕ)
      → (r == child) ≡ false
      → (r == top) ≡ false
      → (link s top child).component_members r ≡ s.component_members r
  other_list r away apart = link_list r ∙ rw away (rw apart refl)

  new_root :
      IsForest s.parent
      → s.parent top ≡ top
      → s.parent child ≡ child
      → (i : ℕ)
      → root (link s top child).parent i
        ≡ (if root s.parent i == child then top else root s.parent i)
  unfolding link
  new_root forest own_top own_child = link_root s.parent forest child top own_child own_top low

-- Joining two roots.
link-IsPartition :
    (s : Sets) (top child : ℕ)
    → IsPartition s
    → s.parent top ≡ top
    → s.parent child ≡ child
    → top < child
    → IsPartition (link s top child)
link-IsPartition s top child p own_top own_child low = record {
  forest = unfold link in write_at-IsForest s.parent child top p.forest (omega (arith, low));
  complete = λ i. rw (roots i) (elim (Bool-cases (root s.parent i == child)) [
    | inl here ↦ rw here (
        rw (merged_list s top child low) (
          rw (contains-append (s.component_members top) (s.component_members child) i) (
            ground (
              arith,
              ap (λ r. contains (s.component_members r) i)
                    (sym ((==_iff (root s.parent i) child).0 here))
                  ∙ p.complete i,
            ))))
    | inr away ↦ rw away (elim (Bool-cases (root s.parent i == top)) [
      | inl on_top ↦
          let e = (==_iff (root s.parent i) top).0 on_top in
          ap (λ r. contains ((link s top child).component_members r) i) e
          ∙ rw (merged_list s top child low) (
              rw (contains-append (s.component_members top) (s.component_members child) i) (
                ground
                  (arith, ap (λ r. contains (s.component_members r) i) (sym e) ∙ p.complete i)))
      | inr off ↦ rw (other_list s top child low (root s.parent i) away off) (p.complete i)
    ])
  ]);
  sound = λ r. elim (Bool-cases (r == child)) [
    | inl here ↦ rw (link_list s top child low r) (rw here tt)
    | inr away ↦ elim (Bool-cases (r == top)) [
      | inl on_top ↦
          let e = (==_iff r top).0 on_top in
          rw e (
            rw (merged_list s top child low) (
              All-append (λ i. root (link s top child).parent i ≡ top) (s.component_members top)
                (s.component_members child)
                (All-mono (λ i. root s.parent i ≡ top) _ (s.component_members top)
                  (λ i h. roots i ∙ ground (arith, h, low)) (p.sound top))
                (All-mono (λ i. root s.parent i ≡ child) _ (s.component_members child)
                  (λ i h. roots i ∙ ground (arith, h)) (p.sound child))))
      | inr off ↦ rw (other_list s top child low r away off) (
          All-mono (λ i. root s.parent i ≡ r) _ (s.component_members r)
            (λ i h. roots i ∙ ground (arith, h, away)) (p.sound r))
    ]
  ];
}
  where
    roots :
        (i : ℕ)
        → root (link s top child).parent i
          ≡ (if root s.parent i == child then top else root s.parent i)
    roots = new_root s top child low p.forest own_top own_child

-- After `union` the two parts are one, under the lower of their roots, and no other has changed.
pub record Joined (s t : Sets) (left right : ℕ) : Type 0 where
  pub partition : IsPartition t
  pub roots :
      (i : ℕ)
      → root t.parent i ≡ (
          if root s.parent i == higher_of (root s.parent left) (root s.parent right)
          then lower_of (root s.parent left) (root s.parent right)
          else root s.parent i)

nothing_joined :
    (a b r : ℕ) → (a == b) ≡ true → r ≡ (if r == higher_of a b then lower_of a b else r)
nothing_joined a b r h = ground arith

lower_of-lt-higher_of : (a b : ℕ) → (a == b) ≡ false → lower_of a b < higher_of a b
lower_of-lt-higher_of a b h = ground arith

either_own :
    (parent : ℕ → ℕ) (a b : ℕ)
    → parent a ≡ a
    → parent b ≡ b
    → (parent (lower_of a b) ≡ lower_of a b) × (parent (higher_of a b) ≡ higher_of a b)
either_own parent a b own_a own_b = elim (Bool-cases (leb a b)) [
  | inl h ↦ rw h (own_a, own_b)
  | inr h ↦ rw h (own_b, own_a)
]

-- From sets that are a partition, `union` leads to a partition in which the indices below the
-- higher of the two roots are below the lower, and every other root is as it was.
pub union-Joined :
    (s : Sets) (left right : ℕ) → IsPartition s → Joined s (union s left right) left right
unfolding union
union-Joined s left right p =
    let a = root s.parent left in
    let b = root s.parent right in
    let first = find s left in
    let found = find_same s left p.forest in
    let t = (find first.1 right).1 in
    let same = SamePartition-trans s first.1 t found (find_same first.1 right found.forest) in
    let q = SamePartition-IsPartition s t same p in
    let b_root : (find first.1 right).0 ≡ b = find_root first.1 right ∙ found.roots right in
    let own : (i : ℕ) → t.parent (root s.parent i) ≡ root s.parent i =
      λ i. subst (λ r. t.parent r ≡ r) (same.roots i) (root_is_top t.parent q.forest i) in
    let (own_low, own_high) = either_own t.parent a b (own left) (own right) in
    rw (find_root s left) (
      rw b_root (elim (Bool-cases (a == b)) [
        | inl e ↦ rw e (record {
          partition = q;
          roots = λ i. same.roots i ∙ nothing_joined a b (root s.parent i) e;
        })
        | inr apart ↦
            let low = lower_of-lt-higher_of a b apart in
            rw apart (record {
              partition = link-IsPartition t (lower_of a b) (higher_of a b) q own_low own_high low;
              roots = λ i.
                  new_root t (lower_of a b) (higher_of a b) low q.forest own_low own_high i
                  ∙ ap (λ r. if r == higher_of a b then lower_of a b else r) (same.roots i);
            })
      ]))

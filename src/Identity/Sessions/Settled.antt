-- ===== src/Identity/Sessions/Settled.antt =====
-- collector/identity/resolve.ts, `merged`: every accepted pair is merged or rejected in the end.
use mathlib.Core.List.{append_assoc}
use event_recommender.Prelude.Sorting.{All-sort_by}
use event_recommender.Prelude.{
  ℕ, Bool, true, false, Option, none, some, is_some, List, [], ◌∷◌, ◌++◌, if◌then◌else◌, ◌==◌,
  ==_iff, ◌≡◌, refl, sym, ap, subst, ◌∙◌, ◌⊎◌, inl, inr, Bool-cases, All, All-append, All-mono,
  arith,
}
use event_recommender.Prelude.Text.{Text, text_eq_refl}
use event_recommender.Identity.Sets.{Sets, lower_of, higher_of}
use event_recommender.Identity.Sets.Roots.{root}
use event_recommender.Identity.Sets.Partition.{
  IsPartition, SamePartition, SamePartition-IsPartition, new_sets-IsPartition, union-Joined,
}
use event_recommender.Identity.Listing.{IdentityListing, Rules}
use event_recommender.Identity.Assess.{IdentityDecision, Rule, is_merge, is_never}
use event_recommender.Identity.Pairs.{
  Buckets, Ledger, decision_of, pairs_of, Pairing, buckets_of, decide, key_of, record_decision,
  decide_pairs, decide_buckets, decided,
}
use event_recommender.Identity.Sessions.{
  Graph, reject, collision, settle_pair, merge_pair, merge_pairs, merged,
}
use event_recommender.Identity.Sessions.Merging.{merge_pair_lem}

abbrev pub is_rejected : Option IdentityDecision → Bool
is_rejected (some decision) = is_never decision.outcome
is_rejected none = false

reject_keeps :
    (ledger : Ledger) (key other : Text) (reason : Rule)
    → is_some (decision_of (reject ledger key reason) other) ≡ is_some (decision_of ledger other)
unfolding reject decision_of is_some
reject_keeps [] key other reason = refl
reject_keeps ((k, d) ∷ rest) key other reason = ground (arith, reject_keeps rest key other reason)

reject_rejects :
    (ledger : Ledger) (key : Text) (reason : Rule)
    → is_some (decision_of ledger key) ≡ true
    → is_rejected (decision_of (reject ledger key reason) key) ≡ true
unfolding reject decision_of is_some
reject_rejects [] key reason h = ground arith
reject_rejects ((k, d) ∷ rest) key reason h = ground (arith, reject_rejects rest key reason)

reject_stays :
    (ledger : Ledger) (key other : Text) (reason : Rule)
    → is_rejected (decision_of ledger other) ≡ true
    → is_rejected (decision_of (reject ledger key reason) other) ≡ true
unfolding reject decision_of
reject_stays [] key other reason h = ground arith
reject_stays ((k, d) ∷ rest) key other reason h = ground (arith, reject_stays rest key other reason)

newer_known :
    (ledger : Ledger) (k other : Text) (d : IdentityDecision)
    → is_some (decision_of ledger other) ≡ true
    → is_some (decision_of ((k, d) ∷ ledger) other) ≡ true
unfolding decision_of is_some
newer_known ledger k other d h = ground arith

newest_known :
    (ledger : Ledger) (k : Text) (d : IdentityDecision)
    → is_some (decision_of ((k, d) ∷ ledger) k) ≡ true
unfolding decision_of is_some
newest_known ledger k d = ground (arith, text_eq_refl k)

joined_here :
    (a b : ℕ)
    → (if a == higher_of a b then lower_of a b else a)
      ≡ (if b == higher_of a b then lower_of a b else b)
joined_here a b = ground arith

module _ (rules : Rules) (count : ℕ) (listing : ℕ → IdentityListing) (venue : Text → Text)
    (seed : Text → Option Text) where
  abbrev key : ℕ × ℕ → Text
  key pair = key_of rules count listing venue seed pair

  -- The two listings are in one component, or the decision on them is never to merge.
  abbrev pub IsSettled : Graph → ℕ × ℕ → Type 0
  IsSettled g pair =
      (root g.sets.parent pair.0 ≡ root g.sets.parent pair.1)
      ⊎ (is_rejected (decision_of g.ledger (key pair)) ≡ true)

  record Later (g h : Graph) : Type 0 where
    partition : IsPartition h.sets
    joined :
        (i j : ℕ)
        → root g.sets.parent i ≡ root g.sets.parent j
        → root h.sets.parent i ≡ root h.sets.parent j
    known : (k : Text) → is_some (decision_of h.ledger k) ≡ is_some (decision_of g.ledger k)
    rejected :
        (k : Text)
        → is_rejected (decision_of g.ledger k) ≡ true
        → is_rejected (decision_of h.ledger k) ≡ true

  Later-IsSettled : (g h : Graph) (pair : ℕ × ℕ) → Later g h → IsSettled g pair → IsSettled h pair
  Later-IsSettled g h (i, j) later (inl e) = inl (later.joined i j e)
  Later-IsSettled g h (i, j) later (inr e) = inr (later.rejected (key (i, j)) e)

  shorter-Later :
      (g : Graph) (v : Sets)
      → IsPartition g.sets
      → SamePartition g.sets v
      → Later g (record g { sets = v })
  shorter-Later g v p same = record {
    partition = SamePartition-IsPartition g.sets v same p;
    joined = λ i j e. same.roots i ∙ e ∙ sym (same.roots j);
    known = λ k. refl;
    rejected = λ k e. e;
  }

  settle_lem :
      (reason : Option Rule) (l r : ℕ) (g : Graph) (v : Sets)
      → IsPartition g.sets
      → SamePartition g.sets v
      → is_some (decision_of g.ledger (key (l, r))) ≡ true
      → Later g (settle_pair rules count listing venue seed reason (l, r) (record g { sets = v }))
        × IsSettled
            (settle_pair rules count listing venue seed reason (l, r) (record g { sets = v }))
            (l, r)
  settle_lem none l r g v p same h =
      let joined = union-Joined v l r (SamePartition-IsPartition g.sets v same p) in
      let after = λ (x : ℕ).
        if x == higher_of (root v.parent l) (root v.parent r)
        then lower_of (root v.parent l) (root v.parent r)
        else x in
      (
        record {
          partition = joined.partition;
          joined = λ i j e.
              joined.roots i
              ∙ ap after (same.roots i ∙ e ∙ sym (same.roots j))
              ∙ sym (joined.roots j);
          known = λ k. refl;
          rejected = λ k e. e;
        },
        inl (
            joined.roots l
            ∙ joined_here (root v.parent l) (root v.parent r)
            ∙ sym (joined.roots r)),
      )
  settle_lem (some reason) l r g v p same h =
      let short = shorter-Later g v p same in
      (
        record {
          partition = short.partition;
          joined = short.joined;
          known = λ k. reject_keeps g.ledger (key (l, r)) k reason;
          rejected = λ k e. reject_stays g.ledger (key (l, r)) k reason e;
        },
        inr (reject_rejects g.ledger (key (l, r)) reason h),
      )

  merge_pair-Later :
      (pair : ℕ × ℕ) (g : Graph)
      → IsPartition g.sets
      → is_some (decision_of g.ledger (key pair)) ≡ true
      → Later g (merge_pair rules count listing venue seed pair g)
        × IsSettled (merge_pair rules count listing venue seed pair g) pair
  merge_pair-Later (l, r) g p h =
      let (v, (same, e)) = merge_pair_lem rules count listing venue seed l r g p in
      let left = g.sets.component_members (root g.sets.parent l) in
      let right = g.sets.component_members (root g.sets.parent r) in
      let reason = collision rules count listing venue seed g.ledger left right in
      subst (λ next. Later g next × IsSettled next (l, r)) (sym e)
        (elim (Bool-cases (root g.sets.parent l == root g.sets.parent r)) [
          | inl one ↦ rw one (
            shorter-Later g v p same,
            inl (
                same.roots l
                ∙ (==_iff (root g.sets.parent l) (root g.sets.parent r)).0 one
                ∙ sym (same.roots r)),
          )
          | inr two ↦ rw two (settle_lem reason l r g v p same h)
        ])

  abbrev Known : Ledger → ℕ × ℕ → Type 0
  Known ledger pair = is_some (decision_of ledger (key pair)) ≡ true

  merge_pairs-IsSettled :
      (pairs done : List (ℕ × ℕ)) (g : Graph)
      → IsPartition g.sets
      → All (Known g.ledger) pairs
      → All (IsSettled g) done
      → All (IsSettled (merge_pairs rules count listing venue seed pairs g)) (done ++ pairs)
  unfolding merge_pairs
  merge_pairs-IsSettled [] done g p known h = All-append _ done [] h tt
  merge_pairs-IsSettled (pair ∷ pairs) done g p known h =
      let next = merge_pair rules count listing venue seed pair g in
      let (later, own) = merge_pair-Later pair g p known.0 in
      rw append_assoc at (
        merge_pairs-IsSettled pairs (done ++ pair ∷ []) next later.partition
          (All-mono _ _ pairs (λ q e. later.known (key q) ∙ e) known.1)
          (All-append _ done (pair ∷ []) (All-mono _ _ done (λ q. Later-IsSettled g next q later) h)
            (own, tt)))

  abbrev IsKnown : Pairing → Type 0
  IsKnown s = All (Known s.ledger) s.accepted

  decide_pairs-IsKnown :
      (is : List ℕ) (pairs : List (ℕ × ℕ)) (s : Pairing)
      → IsKnown s
      → IsKnown (decide_pairs rules count listing venue seed is pairs s)
  unfolding decide_pairs
  decide_pairs-IsKnown is [] s h = h
  decide_pairs-IsKnown is ((i, j) ∷ pairs) s h =
      decide_pairs-IsKnown is pairs _
        (step (decide rules count listing venue seed is (listing i) (listing j)))
    where
      step :
          (o : Option IdentityDecision)
          → IsKnown (record_decision rules count listing venue seed (i, j) o s)
      step none = h
      step (some d) =
          let k = key (i, j) in
          let older =
            All-mono (Known s.ledger) (Known ((k, d) ∷ s.ledger)) s.accepted
              (λ q e. newer_known s.ledger k (key q) d e) h in
          elim (Bool-cases (is_merge d.outcome)) [
            | inl m ↦ rw m (
                All-append (Known ((k, d) ∷ s.ledger)) s.accepted ((i, j) ∷ []) older
                  (newest_known s.ledger k d, tt))
            | inr m ↦ rw m older
          ]

  decide_buckets-IsKnown :
      (b : Buckets) (s : Pairing)
      → IsKnown s
      → IsKnown (decide_buckets rules count listing venue seed b s)
  unfolding decide_buckets
  decide_buckets-IsKnown [] s h = h
  decide_buckets-IsKnown ((name, is) ∷ rest) s h =
      decide_buckets-IsKnown rest _ (decide_pairs-IsKnown is (pairs_of is) s h)

  -- Every accepted pair is in one component in the end, or its decision is never to merge.
  pub merged-IsSettled :
      All
        (IsSettled (merged rules count listing venue seed))
        (decided rules count listing venue seed).accepted
  unfolding merged decided
  merged-IsSettled =
      merge_pairs-IsSettled (decided rules count listing venue seed).accepted [] _
        new_sets-IsPartition
        (All-sort_by _ _ _ (decide_buckets-IsKnown (buckets_of rules count listing count) _ tt)) tt

-- ===== src/Identity/Pairs/Accepted.antt =====
-- collector/identity/resolve.ts, the loops over the buckets: what the decisions are based on.
use event_recommender.Prelude.{
  ℕ, zero, suc, ◌≤◌, ◌<◌, Bool, true, false, Option, none, some, List, [], ◌∷◌, map, if◌then◌else◌,
  ◌≡◌, refl, sym, ap, ◌∙◌, inl, inr, Bool-cases, All, All-append, arith,
}
use event_recommender.Prelude.Text.{Text, text_eq}
use event_recommender.Prelude.Sorting.{All-sort_by}
use event_recommender.Identity.Listing.{IdentityListing, Rules}
use event_recommender.Identity.Assess.{
  IdentityDecision, is_merge, assess_identity_pair, aggregate_policy_tag,
}
use event_recommender.Identity.Assess.Compatible.{Compatible, assess_identity_pair_lem}
use event_recommender.Identity.Pairs.{
  Buckets, add_to, is_merged, pairs_of, Pairing, buckets_of, family, against_tags, decide, key_of,
  record_decision, decide_pairs, decide_buckets, decided,
}

-- Two indices of listings.
abbrev pub InRange : (count : ℕ) → ℕ × ℕ → Type 0
InRange count pair = (pair.0 < count) × (pair.1 < count)

pairs_of-InRange :
    (count : ℕ) (is : List ℕ) → All (λ i. i < count) is → All (InRange count) (pairs_of is)
unfolding pairs_of
pairs_of-InRange count [] h = tt
pairs_of-InRange count (i ∷ is) h =
    All-append (InRange count) (map (λ j. (i, j)) is) (pairs_of is) (with_first is h.1)
      (pairs_of-InRange count is h.1)
  where
    with_first :
        (js : List ℕ) → All (λ j. j < count) js → All (InRange count) (map (λ j. (i, j)) js)
    with_first [] k = tt
    with_first (j ∷ js) k = ((h.0, k.0), with_first js k.1)

add_to-range :
    (count : ℕ) (b : Buckets) (key : Text) (i : ℕ)
    → All (λ bucket. All (λ j. j < count) bucket.1) b
    → i < count
    → All (λ bucket. All (λ j. j < count) bucket.1) (add_to b key i)
unfolding add_to
add_to-range count [] key i h k = ((k, tt), tt)
add_to-range count ((name, is) ∷ rest) key i h k = elim (Bool-cases (text_eq name key)) [
  | inl e ↦ rw e (All-append (λ j. j < count) is (i ∷ []) h.0 (k, tt), h.1)
  | inr e ↦ rw e (h.0, add_to-range count rest key i h.1 k)
]

module _ (rules : Rules) (count : ℕ) (listing : ℕ → IdentityListing) (venue : Text → Text)
    (seed : Text → Option Text) where
  abbrev BucketsInRange : Buckets → Type 0
  BucketsInRange b = All (λ bucket. All (λ j. j < count) bucket.1) b

  buckets_in_range : (n : ℕ) → n ≤ count → BucketsInRange (buckets_of rules count listing n)
  unfolding buckets_of
  buckets_in_range zero h = tt
  buckets_in_range (suc n) h =
      add_to-range count (buckets_of rules count listing n) _ n
        (buckets_in_range n (omega (arith, h))) (omega (arith, h))

  against_tags_lem :
      (left_tag right_tag : Option Text) (id : Text) (d : IdentityDecision)
      → is_merge (against_tags rules count listing venue seed left_tag right_tag id d).outcome
        ≡ true
      → is_merge d.outcome ≡ true
  against_tags_lem none right_tag id d h = h
  against_tags_lem (some tag) right_tag id d h = ground arith

  merged_of :
      (a d : IdentityDecision)
      → some a ≡ some d
      → is_merge d.outcome ≡ true
      → is_merge a.outcome ≡ true
  merged_of a d e h = ap (λ x. is_merged x) e ∙ h

  branches :
      (skipped tagged : Bool) (under_tags plain d : IdentityDecision)
      → (if skipped then none else if tagged then some under_tags else some plain) ≡ some d
      → is_merge d.outcome ≡ true
      → (is_merge under_tags.outcome ≡ true → is_merge plain.outcome ≡ true)
      → is_merge plain.outcome ≡ true
  branches true tagged under_tags plain d e h f = ground arith
  branches false true under_tags plain d e h f = f (merged_of under_tags d e h)
  branches false false under_tags plain d e h f = merged_of plain d e h

  decide-Compatible :
      (is : List ℕ) (left right : IdentityListing) (d : IdentityDecision)
      → decide rules count listing venue seed is left right ≡ some d
      → is_merge d.outcome ≡ true
      → Compatible rules venue left right
  unfolding decide
  decide-Compatible is left right d e h =
      let tags =
        against_tags_lem
          (aggregate_policy_tag rules left (family rules count listing venue seed left is))
          (aggregate_policy_tag rules right (family rules count listing venue seed left is))
          right.listing_id
          (assess_identity_pair rules left right (venue left.listing_id)
            (venue right.listing_id)) in
      ((assess_identity_pair_lem rules venue left right).0 (branches _ _ _ _ d e h tags)).0

  -- A decision by which two listings are merged is on compatible listings.
  pub record Grounded (entry : Text × IdentityDecision) : Type 0 where
    pub pair : ℕ × ℕ
    pub in_range : InRange count pair
    pub key : entry.0 ≡ key_of rules count listing venue seed pair
    pub compatible :
        is_merge entry.1.outcome ≡ true → Compatible rules venue (listing pair.0) (listing pair.1)

  pub record IsGrounded (s : Pairing) : Type 0 where
    pub ledger : All Grounded s.ledger
    pub accepted : All (InRange count) s.accepted

  decide_pairs-IsGrounded :
      (is : List ℕ) (pairs : List (ℕ × ℕ)) (s : Pairing)
      → All (InRange count) pairs
      → IsGrounded s
      → IsGrounded (decide_pairs rules count listing venue seed is pairs s)
  unfolding decide_pairs
  decide_pairs-IsGrounded is [] s h g = g
  decide_pairs-IsGrounded is ((i, j) ∷ pairs) s h g =
      decide_pairs-IsGrounded is pairs _ h.1
        (step (decide rules count listing venue seed is (listing i) (listing j)) refl)
    where
      step :
          (found : Option IdentityDecision)
          → found ≡ decide rules count listing venue seed is (listing i) (listing j)
          → IsGrounded (record_decision rules count listing venue seed (i, j) found s)
      step none e = g
      step (some d) e = record {
        ledger = (
          record {
            pair = (i, j);
            in_range = h.0;
            key = refl;
            compatible = decide-Compatible is (listing i) (listing j) d (sym e);
          },
          g.ledger,
        );
        accepted = elim (Bool-cases (is_merge d.outcome)) [
          | inl m ↦ rw m (All-append (InRange count) s.accepted ((i, j) ∷ []) g.accepted (h.0, tt))
          | inr m ↦ rw m g.accepted
        ];
      }

  decide_buckets-IsGrounded :
      (b : Buckets) (s : Pairing)
      → BucketsInRange b
      → IsGrounded s
      → IsGrounded (decide_buckets rules count listing venue seed b s)
  unfolding decide_buckets
  decide_buckets-IsGrounded [] s h g = g
  decide_buckets-IsGrounded ((key, is) ∷ rest) s h g =
      decide_buckets-IsGrounded rest _ h.1
        (decide_pairs-IsGrounded is (pairs_of is) s (pairs_of-InRange count is h.0) g)

  pub decided-IsGrounded : IsGrounded (decided rules count listing venue seed)
  unfolding decided
  decided-IsGrounded =
      let g =
        decide_buckets-IsGrounded (buckets_of rules count listing count)
          (record { ledger = []; accepted = [] }) (buckets_in_range count (omega arith))
          (record { ledger = tt; accepted = tt }) in
      record { ledger = g.ledger; accepted = All-sort_by (InRange count) _ _ g.accepted }

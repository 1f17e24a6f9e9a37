-- ===== src/Identity/Pairs.antt =====
-- collector/identity/resolve.ts, lines 715 to 792 and 822 to 828: the listings that may be one
-- session are put in buckets, each pair of a bucket is decided, and the accepted pairs are sorted.
-- The array of listings is its length and a function of the index. The array `decisions` and
-- the map `decisionByPair` share their objects, so that one list holds both, the newest first.
pub mod Keys
pub mod Accepted
use event_recommender.Prelude.Sorting.{sort_texts}
use event_recommender.Prelude.{
  ℕ, zero, suc, Bool, true, false, ◌&&◌, ◌||◌, not, Option, none, some, List, [], ◌∷◌, ◌++◌, map,
  if◌then◌else◌, ◌==◌,
}
use event_recommender.Prelude.Text.{Text, codes, text_eq, includes}
use event_recommender.Prelude.Sorting.{sort_by, sort_texts}
use event_recommender.Identity.Listing.{
  IdentityListing, Rules, same_truthy, titles_match, title_contains, city_key,
}
use event_recommender.Identity.Assess.{
  Outcome, never_merge, Rule, policy_conflict_rule, title_containment, IdentityDecision, is_merge,
  is_never, pair_key, assess_identity_pair, aggregate_policy_tag,
}

-- A Map from strings to arrays, in the order of its keys.
abbrev pub Buckets : Type 0
Buckets = List (Text × List ℕ)

unfoldable pub add_to : Buckets → Text → ℕ → Buckets
add_to [] bucket i = (bucket, i ∷ []) ∷ []
add_to ((key, members) ∷ rest) bucket i =
    let others = add_to rest bucket i in
    if text_eq key bucket then (key, members ++ i ∷ []) ∷ rest else (key, members) ∷ others

abbrev pub Ledger : Type 0
Ledger = List (Text × IdentityDecision)

-- decisionByPair.get
unfoldable pub decision_of : Ledger → Text → Option IdentityDecision
decision_of [] key = none
decision_of ((k, decision) ∷ rest) key =
    let other = decision_of rest key in if text_eq k key then some decision else other

abbrev pub is_merged : Option IdentityDecision → Bool
is_merged (some decision) = is_merge decision.outcome
is_merged none = false

-- The pairs of the two nested loops: an index with each later one.
unfoldable pub pairs_of : List ℕ → List (ℕ × ℕ)
pairs_of [] = []
pairs_of (i ∷ is) = map (λ j. (i, j)) is ++ pairs_of is

pub record Pairing : Type 0 where
  pub ledger : Ledger
  pub accepted : List (ℕ × ℕ)

abbrev pub is_containment_rule : Rule → Bool
is_containment_rule title_containment = true
is_containment_rule _ = false

abbrev pub is_containment : Option IdentityDecision → Bool
is_containment (some decision) = is_containment_rule decision.rule
is_containment none = false

module _ (rules : Rules) (count : ℕ) (listing : ℕ → IdentityListing) where
  abbrev pub bucket_at : Option ℕ → IdentityListing → Text
  bucket_at (some time) l = city_key rules l ++ 31 ∷ rules.to_iso_string time
  bucket_at none l = codes "invalid:" ++ l.listing_id

  -- The buckets of the first n listings.
  unfoldable pub buckets_of : (n : ℕ) → Buckets
  buckets_of zero = []
  buckets_of (suc n) =
      add_to (buckets_of n) (bucket_at (rules.date_parse (listing n).starts_at) (listing n)) n

  module _ (venue : Text → Text) (seed : Text → Option Text) where
    abbrev pub title_seed : IdentityListing → Option Text
    title_seed l = rules.title_seed_identity l (seed l.listing_id)

    abbrev pub same_venue : IdentityListing → IdentityListing → Bool
    same_venue left right = text_eq (venue left.listing_id) (venue right.listing_id)

    abbrev pub exact_title : IdentityListing → IdentityListing → Bool
    exact_title left right = titles_match rules left right || title_contains rules left right

    -- The listings of a bucket that stand at the left one's venue under its title.
    abbrev pub family : (left : IdentityListing) → List ℕ → List IdentityListing
    family left [] = []
    family left (i ∷ is) =
        let rest = family left is in
        if same_venue (listing i) left
          && (exact_title (listing i) left
              || same_truthy (title_seed left) (title_seed (listing i)))
        then listing i ∷ rest
        else rest

    abbrev pub tag_text : Option Text → (listing_id : Text) → Text
    tag_text (some tag) listing_id = tag
    tag_text none listing_id = codes "unspecified:" ++ listing_id

    abbrev pub same_tag : Text → Option Text → Bool
    same_tag tag (some other) = text_eq tag other
    same_tag tag none = false

    abbrev pub against_tags :
        (left_tag right_tag : Option Text) → (right_id : Text) → IdentityDecision → IdentityDecision
    against_tags (some tag) right_tag right_id decision =
        if same_tag tag right_tag then decision else record decision {
          outcome = never_merge;
          rule = policy_conflict_rule;
          evidence = sort_texts (tag ∷ tag_text right_tag right_id ∷ []);
        }
    against_tags none right_tag right_id decision = decision

    -- The body of the two loops: no decision where the code continues.
    unfoldable pub decide :
        (indexes : List ℕ) → (left right : IdentityListing) → Option IdentityDecision
    decide indexes left right =
        let titled = exact_title left right || same_truthy (title_seed left) (title_seed right) in
        let decision =
          assess_identity_pair rules left right (venue left.listing_id) (venue right.listing_id) in
        let kin = family left indexes in
        if not (same_venue left right) && not titled
        then none
        else if same_venue left right && titled && not (is_never decision.outcome)
        then some (
            against_tags (aggregate_policy_tag rules left kin)
              (aggregate_policy_tag rules right kin) right.listing_id decision)
        else some decision

    abbrev pub key_of : ℕ × ℕ → Text
    key_of (i, j) = pair_key (listing i).listing_id (listing j).listing_id

    abbrev pub record_decision : ℕ × ℕ → Option IdentityDecision → Pairing → Pairing
    record_decision pair none s = s
    record_decision pair (some decision) s = record {
      ledger = (key_of pair, decision) ∷ s.ledger;
      accepted = if is_merge decision.outcome then s.accepted ++ pair ∷ [] else s.accepted;
    }

    unfoldable pub decide_pairs : (indexes : List ℕ) → List (ℕ × ℕ) → Pairing → Pairing
    unfolding decide
    decide_pairs indexes [] s = s
    decide_pairs indexes ((i, j) ∷ pairs) s =
        decide_pairs indexes pairs
          (record_decision (i, j) (decide indexes (listing i) (listing j)) s)

    unfoldable pub decide_buckets : Buckets → Pairing → Pairing
    unfolding decide_pairs
    decide_buckets [] s = s
    decide_buckets ((key, indexes) ∷ rest) s =
        decide_buckets rest (decide_pairs indexes (pairs_of indexes) s)

    -- Exact and reviewed matches first, then by the listings' ids.
    unfoldable pub pair_before : Ledger → ℕ × ℕ → ℕ × ℕ → Bool
    pair_before ledger a b =
        let weak_a = is_containment (decision_of ledger (key_of a)) in
        let weak_b = is_containment (decision_of ledger (key_of b)) in
        let a0 = (listing a.0).listing_id in
        let b0 = (listing b.0).listing_id in
        (not weak_a && weak_b)
        || not (weak_a && not weak_b)
          && (rules.locale_lt a0 b0
              || not (rules.locale_lt b0 a0)
                && rules.locale_lt (listing a.1).listing_id (listing b.1).listing_id)

    unfoldable pub decided : Pairing
    unfolding decide_buckets buckets_of
    decided =
        let s = decide_buckets (buckets_of count) (record { ledger = []; accepted = [] }) in
        record s { accepted = sort_by (pair_before s.ledger) s.accepted }

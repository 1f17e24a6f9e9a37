-- ===== src/Identity/Assess.antt =====
-- collector/identity/resolve.ts, lines 472 to 713: the decision on a pair of listings.
pub mod Compatible
pub mod Symmetry
use event_recommender.Prelude.{
  ℕ, Bool, true, false, ◌&&◌, ◌||◌, not, Option, none, some, List, [], ◌∷◌, ◌++◌, if◌then◌else◌,
  leb, ltb, ◌==◌, any_of, length,
}
use event_recommender.Prelude.Text.{Text, codes, text_eq, text_le, includes}
use event_recommender.Prelude.Sorting.{sort_texts, distinct_onto}
use event_recommender.Identity.Listing.{
  AttendanceTiming, timed_session, unknown, admission_window, IdentityListing, Policy, child_only,
  adult_only, workshop, performance, adaptation, DecisionInput, Rules, same_truthy,
  listing_title_key, titles_match, title_contains, city_key, known_attendance_timing, policies_of,
}

pub data Outcome : Type 0 where
  auto_merge manual_merge jev_merge never_merge unresolved : Outcome

pub data Rule : Type 0 where
  different_or_invalid_instant different_city same_provider different_resolved_venue : Rule
  attendance_timing_conflict_rule policy_conflict_rule suffix_normalized_title : Rule
  guarded_title_seed title_containment title_ambiguous : Rule
  graph_same_provider_collision graph_pairwise_incompatibility : Rule

-- decision.outcome === "auto_merge" || decision.outcome === "manual_merge"
abbrev pub is_merge : Outcome → Bool
is_merge auto_merge = true
is_merge manual_merge = true
is_merge _ = false

abbrev pub is_never : Outcome → Bool
is_never never_merge = true
is_never _ = false

pub record IdentityDecision : Type 0 where
  pub listing_ids : Text × Text
  pub input_hash : Text
  pub outcome : Outcome
  pub rule : Rule
  pub evidence : List Text

-- What a branch of assessIdentityPair adds to `base`.
pub record Verdict : Type 0 where
  pub outcome : Outcome
  pub rule : Rule
  pub evidence : List Text

abbrev pub give : Outcome → Rule → List Text → Verdict
give outcome rule evidence = record { outcome = outcome; rule = rule; evidence = evidence }

abbrev pub sorted_pair : (left right : Text) → Text × Text
sorted_pair left right = if text_le left right then (left, right) else (right, left)

unfoldable pub pair_key : (left right : Text) → Text
pair_key left right = let ids = sorted_pair left right in ids.0 ++ 31 ∷ ids.1

abbrev pub kind_of : AttendanceTiming → Text
kind_of timed_session = codes "timed_session"
kind_of unknown = codes "unknown"
kind_of (admission_window start last) = codes "admission_window"

abbrev pub window_text : (start last : Text) → Text
window_text start last = start ++ codes "/" ++ last

abbrev pub timing_conflict : Option AttendanceTiming → Option AttendanceTiming → Option Text
timing_conflict (some timed_session) (some timed_session) = none
timing_conflict (some unknown) (some unknown) = none
timing_conflict (some (admission_window a b)) (some (admission_window c d)) =
    if text_eq a c && text_eq b d
    then none
    else some (codes "attendance:window:" ++ window_text a b ++ codes "-vs-" ++ window_text c d)
timing_conflict (some a) (some b) =
    some (codes "attendance:" ++ kind_of a ++ codes "-vs-" ++ kind_of b)
timing_conflict _ _ = none

abbrev pub policy_eq : Policy → Policy → Bool
policy_eq child_only child_only = true
policy_eq adult_only adult_only = true
policy_eq workshop workshop = true
policy_eq performance performance = true
policy_eq (adaptation s) (adaptation t) = text_eq s t
policy_eq _ _ = false

-- set.has(policy)
unfoldable pub has : List Policy → Policy → Bool
has [] policy = false
has (p ∷ ps) policy = policy_eq p policy || has ps policy

unfoldable pub adaptations : List Policy → List Text
adaptations [] = []
adaptations (adaptation t ∷ ps) = t ∷ adaptations ps
adaptations (p ∷ ps) = adaptations ps

abbrev pub policy_text : Policy → Text
policy_text child_only = codes "child-only"
policy_text adult_only = codes "adult-only"
policy_text workshop = codes "workshop"
policy_text performance = codes "performance"
policy_text (adaptation t) = codes "adaptation:" ++ t

abbrev pub policy_texts : List Policy → List Text
policy_texts [] = []
policy_texts (p ∷ ps) = policy_text p ∷ policy_texts ps

-- adaptations.join(","), each with its prefix
abbrev pub joined_adaptations : List Text → Text
joined_adaptations [] = []
joined_adaptations (t ∷ []) = codes "adaptation:" ++ t
joined_adaptations (t ∷ ts) = codes "adaptation:" ++ t ++ codes "," ++ joined_adaptations ts

-- One of the two sets has the one policy, the other the other.
abbrev pub opposed : (a b : List Policy) → (p q : Policy) → Bool
opposed a b p q = (has a p && has b q) || (has a q && has b p)

-- Both name an adaptation, and none is common.
unfoldable pub other_adaptation : (a b : List Policy) → Bool
other_adaptation a b =
    ltb 0 (length (adaptations a))
    && ltb 0 (length (adaptations b))
    && not (any_of (λ t. has b (adaptation t)) (adaptations a))

unfoldable pub policy_conflict_of : (a b : List Policy) → Option Text
policy_conflict_of a b =
    if opposed a b child_only adult_only
    then some (codes "audience:child-vs-adult")
    else if opposed a b workshop performance
    then some (codes "format:workshop-vs-performance")
    else if other_adaptation a b
    then some (
        codes "adaptation:"
        ++ joined_adaptations (adaptations a)
        ++ codes "-vs-"
        ++ joined_adaptations (adaptations b))
    else none

abbrev pub family_adaptations : List (List Policy) → List Text
family_adaptations [] = []
family_adaptations (set ∷ sets) = adaptations set ++ family_adaptations sets

abbrev pub first_own : (own : List Policy) → (otherwise : Text) → List Text → Text
first_own own otherwise [] = otherwise
first_own own otherwise (t ∷ ts) =
    if has own (adaptation t) then policy_text (adaptation t) else first_own own otherwise ts

module _ (rules : Rules) where
  unfoldable pub attendance_timing_conflict : IdentityListing → IdentityListing → Option Text
  attendance_timing_conflict left right =
      timing_conflict (known_attendance_timing rules left) (known_attendance_timing rules right)

  unfoldable pub policy_conflict : IdentityListing → IdentityListing → Option Text
  policy_conflict left right = policy_conflict_of (policies_of rules left) (policies_of rules right)

  abbrev pub decision_entry : IdentityListing → (venue_id : Text) → DecisionInput
  decision_entry l venue_id = record {
    listing_id = l.listing_id;
    provider = l.provider;
    city = city_key rules l;
    starts_at = l.starts_at;
    venue_id = venue_id;
    title = listing_title_key rules l;
    attendance_timing = known_attendance_timing rules l;
    policies = sort_texts (policy_texts (policies_of rules l));
  }

  -- One object holds both venues, so a listing that is paired with itself has the right one.
  unfoldable pub decision_input :
      (left right : IdentityListing) → (left_venue right_venue : Text) → List DecisionInput
  decision_input left right left_venue right_venue =
      let own = if text_eq left.listing_id right.listing_id then right_venue else left_venue in
      if rules.locale_lt right.listing_id left.listing_id
      then decision_entry right right_venue ∷ decision_entry left own ∷ []
      else decision_entry left own ∷ decision_entry right right_venue ∷ []

  -- Date.parse of both gives the same finite time.
  abbrev pub same_instant : Option ℕ → Option ℕ → Bool
  same_instant (some a) (some b) = a == b
  same_instant _ _ = false

  abbrev pub seed_text : Option Text → Text
  seed_text (some t) = t
  seed_text none = []

  abbrev pub title_verdict : (left right : IdentityListing) → (venue : Text) → Verdict
  title_verdict left right venue =
      let left_key = codes "title-key:" ++ (listing_title_key rules left).key in
      let right_key = codes "title-key:" ++ (listing_title_key rules right).key in
      let venue_text = codes "venue:" ++ venue in
      let left_seed = rules.title_seed_identity left (rules.venue_seed_identity left) in
      let right_seed = rules.title_seed_identity right (rules.venue_seed_identity right) in
      if titles_match rules left right
      then give auto_merge suffix_normalized_title (left_key ∷ venue_text ∷ [])
      else if same_truthy left_seed right_seed
      then give manual_merge guarded_title_seed
          ((codes "title-seed:" ++ seed_text left_seed) ∷ venue_text ∷ [])
      else if title_contains rules left right
      then give auto_merge title_containment (sort_texts (left_key ∷ right_key ∷ venue_text ∷ []))
      else give unresolved title_ambiguous (sort_texts (left_key ∷ right_key ∷ []))

  abbrev pub policy_verdict :
      (conflict : Option Text) → (left right : IdentityListing) → (venue : Text) → Verdict
  policy_verdict (some conflict) left right venue =
      give never_merge policy_conflict_rule (conflict ∷ [])
  policy_verdict none left right venue = title_verdict left right venue

  abbrev pub timing_verdict :
      (conflict : Option Text) → (left right : IdentityListing) → (venue : Text) → Verdict
  timing_verdict (some conflict) left right venue =
      give never_merge attendance_timing_conflict_rule (conflict ∷ [])
  timing_verdict none left right venue =
      policy_verdict (policy_conflict left right) left right venue

  unfoldable pub verdict :
      (left right : IdentityListing) → (left_venue right_venue : Text) → Verdict
  verdict left right left_venue right_venue =
      if not (same_instant (rules.date_parse left.starts_at) (rules.date_parse right.starts_at))
      then give never_merge different_or_invalid_instant
          (sort_texts (left.starts_at ∷ right.starts_at ∷ []))
      else if not (text_eq (city_key rules left) (city_key rules right))
      then give never_merge different_city
          (sort_texts (city_key rules left ∷ city_key rules right ∷ []))
      else if text_eq left.provider right.provider
      then give never_merge same_provider ((codes "provider:" ++ left.provider) ∷ [])
      else if not (text_eq left_venue right_venue)
      then give never_merge different_resolved_venue
          (sort_texts ((codes "venue:" ++ left_venue) ∷ (codes "venue:" ++ right_venue) ∷ []))
      else timing_verdict (attendance_timing_conflict left right) left right left_venue

  unfoldable pub assess_identity_pair :
      (left right : IdentityListing) → (left_venue right_venue : Text) → IdentityDecision
  unfolding verdict
  assess_identity_pair left right left_venue right_venue =
      let found = verdict left right left_venue right_venue in
      record {
        listing_ids = sorted_pair left.listing_id right.listing_id;
        input_hash = rules.hash_input (decision_input left right left_venue right_venue);
        outcome = found.outcome;
        rule = found.rule;
        evidence = found.evidence;
      }

  abbrev pub policies_of_all : List IdentityListing → List (List Policy)
  policies_of_all [] = []
  policies_of_all (l ∷ ls) = policies_of rules l ∷ policies_of_all ls

  abbrev pub tag_of : (own : Bool) → (other : Bool) → (own_tag other_tag unspecified : Text) → Text
  tag_of own other own_tag other_tag unspecified =
      if own then own_tag else if other then other_tag else unspecified

  unfoldable pub aggregate_policy_tag :
      IdentityListing → (family : List IdentityListing) → Option Text
  aggregate_policy_tag l family =
      let own = policies_of rules l in
      let sets = policies_of_all family in
      let in_family = λ (p : Policy). any_of (λ set. has set p) sets in
      let named = distinct_onto [] (family_adaptations sets) in
      if in_family child_only && in_family adult_only
      then some (
          tag_of (has own child_only) (has own adult_only) (codes "audience:child-only")
            (codes "audience:adult-only") (codes "audience:unspecified:" ++ l.listing_id))
      else if in_family workshop && in_family performance
      then some (
          tag_of (has own workshop) (has own performance) (codes "format:workshop")
            (codes "format:performance") (codes "format:unspecified:" ++ l.listing_id))
      else if ltb 1 (length named)
      then some (first_own own (codes "adaptation:unspecified:" ++ l.listing_id) named)
      else none

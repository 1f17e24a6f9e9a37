-- ===== src/Identity/Tests.antt =====
-- Runs of identity resolution on four listings. The rules are simple: a start is its only code
-- unit, a text is its own normal form, and a description "kids" is for children only.
use mathlib.Core.List.{Memᴰ}
use event_recommender.Prelude.Sorting.{sort_by, sort_texts}
use event_recommender.Prelude.{
  ok, All, any_of, every, ℕ, true, false, Option, none, some, List, [], ◌∷◌, if◌then◌else◌, ◌==◌,
  ◌≡◌, refl, ◌↔◌, arith,
}
use event_recommender.Prelude.Text.{Text, codes, text_eq, text_lt, text_le, includes}
use event_recommender.Identity.Sets.{
  write_at, new_sets, root_of, compress, find, link, union, members,
}
use event_recommender.Identity.Sets.Partition.{Joined, union-Joined, new_sets-IsPartition}
use event_recommender.Identity.Sets.Ends.{find-ends}
use event_recommender.Identity.Listing.{
  IdentityListing, Policy, child_only, Rules, split_words, starts_with, ends_with,
  generic_title_words, listing_title_key, raw_title, titles_match, specific_title,
  dash_segments_contain, title_contains, city_key, known_attendance_timing, policies_of,
}
use event_recommender.Identity.Assess.{
  is_merge, pair_key, has, adaptations, other_adaptation, policy_conflict_of,
  attendance_timing_conflict, policy_conflict, decision_input, verdict, assess_identity_pair,
  aggregate_policy_tag,
}
use event_recommender.Identity.Assess.Compatible.{
  Compatible, has_title_reason, assess_identity_pair_lem,
}
use event_recommender.Identity.Pairs.{
  add_to, decision_of, pairs_of, buckets_of, decide, decide_pairs, decide_buckets, pair_before,
  decided,
}
use event_recommender.Identity.Pairs.Keys.{has_separator}
use event_recommender.Identity.Sessions.{
  ResolvedSession, reject, add_member, texts_eq, providers_collide, all_merged, collision,
  merge_pair, merge_pairs, merged, components, drafts, sessions_of, decisions_of, resolve_sessions,
}
use event_recommender.Identity.Resolve.{
  Venues, IdentityResolution, check_ids, listing_at, resolve_identity,
}
use event_recommender.Identity.Resolve.Agreement.{resolve_identity-Compatible}
use event_recommender.Identity.Sessions.Merging.{AreDistinct, AreClean}
use event_recommender.Identity.Sessions.Once.{times_listed, every_listing_once}
use event_recommender.Identity.Sessions.Settled.{IsSettled, merged-IsSettled}

abbrev single : Text → Option ℕ
single (t ∷ []) = some t
single _ = none

abbrev kids_only : Text → List Policy
kids_only description = if text_eq description (codes "kids") then child_only ∷ [] else []

abbrev first_of : List Text → Text
first_of [] = []
first_of (t ∷ ts) = t

abbrev simple_rules : Rules
simple_rules = record {
  date_parse = single;
  to_iso_string = λ t. t ∷ [];
  normalize_identity_text = λ t. t;
  strip_venue_title_prefix = λ title venue. title;
  normalize_title_key =
      λ title category. record { key = title; category = category; removed_generic_suffix = false };
  policies = λ title description. kids_only description;
  venue_seed_identity = λ l. none;
  title_seed_identity = λ l seed. none;
  locale_lt = text_lt;
  hash_input = λ inputs. [];
  hash_session = first_of;
}

abbrev play : (listing_id provider : Text) → (start : ℕ) → IdentityListing
play listing_id provider start = record {
  listing_id = listing_id;
  provider = provider;
  title = codes "Hamlet";
  description = [];
  category = codes "theatre";
  starts_at = start ∷ [];
  attendance_timing = none;
  venue_name = codes "Hall";
  city = none;
}

-- The third is at the second's provider, the fourth at another time.
abbrev plays : ℕ → IdentityListing
plays i =
    if i == 0
    then play (codes "a") (codes "first") 20
    else if i == 1
    then play (codes "b") (codes "second") 20
    else if i == 2
    then play (codes "c") (codes "second") 20
    else play (codes "d") (codes "first") 21

abbrev hall : Text → Text
hall listing_id = codes "hall"

abbrev no_seed : Text → Option Text
no_seed listing_id = none

abbrev listing_ids_of : List ResolvedSession → List (List Text)
listing_ids_of [] = []
listing_ids_of (session ∷ sessions) = session.listing_ids ∷ listing_ids_of sessions

four_plays :
    listing_ids_of (resolve_sessions simple_rules 4 plays hall no_seed).0
    ≡ (codes "a" ∷ codes "b" ∷ []) ∷ (codes "c" ∷ []) ∷ (codes "d" ∷ []) ∷ []
unfolding write_at new_sets root_of compress find link union members split_words starts_with
    ends_with generic_title_words listing_title_key raw_title titles_match specific_title
    dash_segments_contain title_contains city_key known_attendance_timing policies_of sort_texts has
    adaptations other_adaptation policy_conflict_of attendance_timing_conflict policy_conflict
    decision_input verdict assess_identity_pair aggregate_policy_tag add_to decision_of pairs_of
    sort_by buckets_of decide decide_pairs decide_buckets pair_before decided add_member texts_eq
    providers_collide all_merged collision merge_pair merge_pairs merged components drafts
    sessions_of decisions_of resolve_sessions text_eq text_lt text_le includes any_of every reject
    pair_key
four_plays = refl

abbrev first_session : ResolvedSession
first_session = record {
  id = 304 ∷ codes "stanbul";
  listing_ids = codes "a" ∷ codes "b" ∷ [];
  starts_at = 20 ∷ [];
  city = 304 ∷ codes "stanbul";
  venue_id = codes "hall";
}

first_session_found : Memᴰ first_session (resolve_sessions simple_rules 4 plays hall no_seed).0
unfolding write_at new_sets root_of compress find link union members split_words starts_with
    ends_with generic_title_words listing_title_key raw_title titles_match specific_title
    dash_segments_contain title_contains city_key known_attendance_timing policies_of sort_texts has
    adaptations other_adaptation policy_conflict_of attendance_timing_conflict policy_conflict
    decision_input verdict assess_identity_pair aggregate_policy_tag add_to decision_of pairs_of
    sort_by buckets_of decide decide_pairs decide_buckets pair_before decided add_member texts_eq
    providers_collide all_merged collision merge_pair merge_pairs merged components drafts
    sessions_of decisions_of resolve_sessions text_eq text_lt text_le includes any_of every reject
    pair_key
first_session_found = Memᴰ.head refl

plays-AreDistinct : AreDistinct simple_rules 4 plays hall no_seed
plays-AreDistinct i j hi hj e = ground (arith, hi, hj, e)

plays-AreClean : AreClean simple_rules 4 plays hall no_seed
unfolding has_separator
plays-AreClean i hi = ground arith

every_listing_once_example :
    times_listed (plays 2).listing_id (resolve_sessions simple_rules 4 plays hall no_seed).0 ≡ 1
every_listing_once_example =
    every_listing_once simple_rules 4 plays hall no_seed plays-AreDistinct 2 (omega arith)

assess_identity_pair_lem_example :
    (is_merge
        (assess_identity_pair simple_rules
          (plays 0)
          (plays 1)
          (hall (plays 0).listing_id)
          (hall (plays 1).listing_id)).outcome
      ≡ true)
    ↔ (Compatible simple_rules hall (plays 0) (plays 1)
        × (has_title_reason simple_rules (plays 0) (plays 1) ≡ true))
assess_identity_pair_lem_example = assess_identity_pair_lem simple_rules hall (plays 0) (plays 1)

union-Joined_example : Joined new_sets (union new_sets 0 1) 0 1
union-Joined_example = union-Joined new_sets 0 1 new_sets-IsPartition

find-ends_example :
    (root_of 9 new_sets.parent 3 ≡ (find new_sets 3).0)
    × ((compress 9 new_sets.parent (find new_sets 3).0 3 ≡ (find new_sets 3).1.parent)
        × ((find new_sets 3).1.parent (find new_sets 3).0 ≡ (find new_sets 3).0))
unfolding new_sets
find-ends_example = find-ends new_sets 3 9 (λ i. omega arith) (omega arith)

merged-IsSettled_example :
    All
      (IsSettled simple_rules 4 plays hall no_seed (merged simple_rules 4 plays hall no_seed))
      (decided simple_rules 4 plays hall no_seed).accepted
merged-IsSettled_example = merged-IsSettled simple_rules 4 plays hall no_seed

pair_key-injective_test : pair_key (codes "b") (codes "a") ≡ pair_key (codes "a") (codes "b")
unfolding pair_key text_le
pair_key-injective_test = refl

abbrev one_hall : List IdentityListing → Venues
one_hall listings = record { venue_of = hall; seed_of = no_seed }

abbrev two_plays : List IdentityListing
two_plays = plays 1 ∷ plays 0 ∷ []

abbrev one_session : IdentityResolution
one_session = record {
  venues = one_hall [];
  sessions = first_session ∷ [];
  decisions =
      (resolve_sessions simple_rules 2 (listing_at (plays 0 ∷ plays 1 ∷ [])) hall no_seed).1;
}

two_plays_resolved : resolve_identity simple_rules one_hall two_plays ≡ ok one_session
unfolding write_at new_sets root_of compress find link union members split_words starts_with
    ends_with generic_title_words listing_title_key raw_title titles_match specific_title
    dash_segments_contain title_contains city_key known_attendance_timing policies_of sort_texts has
    adaptations other_adaptation policy_conflict_of attendance_timing_conflict policy_conflict
    decision_input verdict assess_identity_pair aggregate_policy_tag add_to decision_of pairs_of
    sort_by buckets_of decide decide_pairs decide_buckets pair_before decided add_member texts_eq
    providers_collide all_merged collision merge_pair merge_pairs merged components drafts
    sessions_of decisions_of resolve_sessions text_eq text_lt text_le includes any_of every reject
    pair_key check_ids resolve_identity
two_plays_resolved = refl

two_plays_clean : All (λ l. has_separator l.listing_id ≡ false) two_plays
unfolding has_separator
two_plays_clean = (refl, (refl, tt))

resolve_identity-Compatible_example : Compatible simple_rules hall (plays 1) (plays 0)
unfolding includes text_eq
resolve_identity-Compatible_example =
    resolve_identity-Compatible simple_rules one_hall two_plays one_session first_session (plays 1)
      (plays 0) two_plays_resolved two_plays_clean (Memᴰ.head refl) (Memᴰ.head refl)
      (Memᴰ.tail (Memᴰ.head refl)) (λ e. ground (arith, e)) refl refl

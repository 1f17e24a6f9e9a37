-- ===== src/Identity/Assess/Compatible.antt =====
-- collector/identity/resolve.ts, `assessIdentityPair`: what a pair that is merged agrees on.
use event_recommender.Prelude.{
  ℕ, Bool, true, false, ◌||◌, not, Option, none, some, List, if◌then◌else◌, ==_iff, ◌≡◌, ◌≢◌, refl,
  sym, ap, ◌∙◌, ◌↔◌, arith,
}
use event_recommender.Prelude.Text.{Text, text_eq, text_eq_iff}
use event_recommender.Identity.Listing.{
  IdentityListing, Rules, same_truthy, titles_match, title_contains, city_key,
}
use event_recommender.Identity.Assess.{
  never_merge, different_or_invalid_instant, different_city, same_provider,
  different_resolved_venue, give, is_merge, Verdict, attendance_timing_conflict, policy_conflict,
  same_instant, title_verdict, policy_verdict, timing_verdict, verdict, assess_identity_pair,
}

pub record Compatible (rules : Rules) (venue : Text → Text) (left right : IdentityListing)
    : Type 0 where
  pub time : ℕ
  pub left_time : rules.date_parse left.starts_at ≡ some time
  pub right_time : rules.date_parse right.starts_at ≡ some time
  pub city : city_key rules left ≡ city_key rules right
  pub providers : left.provider ≢ right.provider
  pub venues : venue left.listing_id ≡ venue right.listing_id
  pub timing : attendance_timing_conflict rules left right ≡ none
  pub policy : policy_conflict rules left right ≡ none

-- Why two listings that agree on all of that are the same.
unfoldable pub has_title_reason : Rules → IdentityListing → IdentityListing → Bool
has_title_reason rules left right =
    titles_match rules left right
    || same_truthy (rules.title_seed_identity left (rules.venue_seed_identity left))
        (rules.title_seed_identity right (rules.venue_seed_identity right))
    || title_contains rules left right

module _ (rules : Rules) where
  title_verdict_lem :
      (left right : IdentityListing) (venue : Text)
      → is_merge (title_verdict rules left right venue).outcome ≡ has_title_reason rules left right
  unfolding has_title_reason
  title_verdict_lem left right venue = ground arith

  policy_verdict_lem :
      (conflict : Option Text) (left right : IdentityListing) (venue : Text)
      → (is_merge (policy_verdict rules conflict left right venue).outcome ≡ true)
        ↔ ((conflict ≡ none) × (has_title_reason rules left right ≡ true))
  policy_verdict_lem none left right venue = (
    λ h. (refl, sym (title_verdict_lem left right venue) ∙ h),
    λ h. title_verdict_lem left right venue ∙ h.1,
  )
  policy_verdict_lem (some c) left right venue = ground arith

  timing_verdict_lem :
      (conflict : Option Text) (left right : IdentityListing) (venue : Text)
      → (is_merge (timing_verdict rules conflict left right venue).outcome ≡ true) ↔ (
          (conflict ≡ none)
          × ((policy_conflict rules left right ≡ none)
              × (has_title_reason rules left right ≡ true)))
  timing_verdict_lem none left right venue =
      let both = policy_verdict_lem (policy_conflict rules left right) left right venue in
      (λ h. (refl, both.0 h), λ h. both.1 h.1)
  timing_verdict_lem (some c) left right venue = ground arith

  same_instant_lem :
      (a b : Option ℕ) → same_instant rules a b ≡ true → (t : ℕ) × ((a ≡ some t) × (b ≡ some t))
  same_instant_lem (some a) (some b) h = (a, (refl, ap some (sym ((==_iff a b).0 h))))
  same_instant_lem none b h = ground arith
  same_instant_lem (some a) none h = ground arith

  module _ (venue : Text → Text) (left right : IdentityListing) where
    passes :
        (instant city provider venues : Bool) (e f g h : List Text) (last : Verdict)
        → (is_merge
              (if not instant
                then give never_merge different_or_invalid_instant e
                else if not city
                then give never_merge different_city f
                else if provider
                then give never_merge same_provider g
                else if not venues
                then give never_merge different_resolved_venue h
                else last).outcome
            ≡ true)
          ↔ ((instant ≡ true)
              × ((city ≡ true)
                  × ((provider ≡ false) × ((venues ≡ true) × (is_merge last.outcome ≡ true)))))
    passes instant city provider venues e f g h last = ground arith

    -- A pair is merged when the two agree on time, city, venue, timing and policy, stand at
    -- different providers, and have a title in common.
    pub assess_identity_pair_lem :
        (is_merge
            (assess_identity_pair rules left right
              (venue left.listing_id)
              (venue right.listing_id)).outcome
          ≡ true)
        ↔ (Compatible rules venue left right × (has_title_reason rules left right ≡ true))
    unfolding assess_identity_pair verdict
    assess_identity_pair_lem =
        let guards =
          passes
            (same_instant rules (rules.date_parse left.starts_at)
              (rules.date_parse right.starts_at))
            (text_eq (city_key rules left) (city_key rules right))
            (text_eq left.provider right.provider)
            (text_eq (venue left.listing_id) (venue right.listing_id)) _ _ _ _
            (timing_verdict rules (attendance_timing_conflict rules left right) left right
              (venue left.listing_id)) in
        let conflicts =
          timing_verdict_lem (attendance_timing_conflict rules left right) left right
            (venue left.listing_id) in
        let provider_eq = text_eq_iff left.provider right.provider in
        (
          λ h.
              let (i, (c, (p, (v, last)))) = guards.0 h in
              let (time, (left_time, right_time)) =
                same_instant_lem (rules.date_parse left.starts_at)
                  (rules.date_parse right.starts_at) i in
              let (timing, (policy, title)) = conflicts.0 last in
              (
                record {
                  time = time;
                  left_time = left_time;
                  right_time = right_time;
                  city = (text_eq_iff (city_key rules left) (city_key rules right)).0 c;
                  providers = λ e. ground (arith, provider_eq.1 e, p);
                  venues = (text_eq_iff (venue left.listing_id) (venue right.listing_id)).0 v;
                  timing = timing;
                  policy = policy;
                },
                title,
              ),
          λ h.
              let c = h.0 in
              guards.1 (
                rw c.left_time (rw c.right_time ((==_iff c.time c.time).1 refl)),
                (
                  (text_eq_iff (city_key rules left) (city_key rules right)).1 c.city,
                  (
                    ground (arith, provider_eq.0, c.providers),
                    (
                      (text_eq_iff (venue left.listing_id) (venue right.listing_id)).1 c.venues,
                      conflicts.1 (c.timing, (c.policy, h.1)),
                    ),
                  ),
                ),
              ),
        )

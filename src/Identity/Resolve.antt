-- ===== src/Identity/Resolve.antt =====
-- collector/identity/resolve.ts, lines 877 to 905: `resolveIdentity`. `resolveVenues` is a
-- parameter, and with it the coordinates of venues, of which it alone reads.
pub mod Agreement
use event_recommender.Prelude.{
  ℕ, zero, suc, Bool, true, false, ◌||◌, Option, none, List, [], ◌∷◌, if◌then◌else◌, length, Result,
  ok, err, ◌>>=◌,
}
use event_recommender.Prelude.Text.{Text, includes}
use event_recommender.Prelude.Sorting.{sort_by}
use event_recommender.Identity.Listing.{IdentityListing, Rules}
use event_recommender.Identity.Assess.{IdentityDecision}
use event_recommender.Identity.Sessions.{ResolvedSession, resolve_sessions}

pub record Venues : Type 0 where
  pub venue_of : Text → Text
  pub seed_of : Text → Option Text

pub record IdentityResolution : Type 0 where
  pub venues : Venues
  pub sessions : List ResolvedSession
  pub decisions : List IdentityDecision

abbrev pub is_blank : Text → Bool
is_blank [] = true
is_blank (c ∷ t) = false

-- The message of the source ends with the identifier.
unfoldable pub check_ids : (seen : List Text) → List IdentityListing → Result (Unit {0})
unfolding includes
check_ids seen [] = ok tt
check_ids seen (l ∷ ls) =
    let rest = check_ids (l.listing_id ∷ seen) ls in
    if is_blank l.listing_id || includes seen l.listing_id
    then err "Duplicate or empty listingId"
    else rest

abbrev pub no_listing : IdentityListing
no_listing = record {
  listing_id = [];
  provider = [];
  title = [];
  description = [];
  category = [];
  starts_at = [];
  attendance_timing = none;
  venue_name = [];
  city = none;
}

-- listings[i], which is never read out of range.
abbrev pub listing_at : List IdentityListing → ℕ → IdentityListing
listing_at [] i = no_listing
listing_at (l ∷ ls) zero = l
listing_at (l ∷ ls) (suc i) = listing_at ls i

module _ (rules : Rules) (resolve_venues : List IdentityListing → Venues) where
  abbrev pub ordered_listings : List IdentityListing → List IdentityListing
  ordered_listings listings = sort_by (λ a b. rules.locale_lt a.listing_id b.listing_id) listings

  unfoldable pub resolve_identity : List IdentityListing → Result IdentityResolution
  unfolding check_ids
  resolve_identity listings = check_ids [] listings >>= λ _.
      let ls = ordered_listings listings in
      let venues = resolve_venues ls in
      let found =
        resolve_sessions rules (length ls) (listing_at ls) venues.venue_of venues.seed_of in
      ok (record { venues = venues; sessions = found.0; decisions = found.1 })

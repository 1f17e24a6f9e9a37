-- ===== src/Identity/Listing.antt =====
-- collector/identity/types.ts and resolve.ts, lines 62 to 110: listings and the tests on titles.
-- `Rules` is what identity resolution uses of other modules: Date.parse and toISOString (times
-- counted from JavaScript's lowest time value, `none` for NaN), the normalisers of
-- collector/normalize/identity.ts, the reviewed seeds of seed-overrides.ts, the policies that
-- the regular expressions of resolve.ts find in a listing's title and description, the order of
-- localeCompare, and identityHash.
use event_recommender.Prelude.{
  ℕ, Bool, true, false, ◌&&◌, ◌||◌, not, Option, none, some, List, [], ◌∷◌, ◌++◌, if◌then◌else◌,
  leb, ltb, ◌==◌, any_of, length,
}
use event_recommender.Prelude.Text.{Text, codes, text_eq, includes}

pub data AttendanceTiming : Type 0 where
  timed_session : AttendanceTiming
  unknown : AttendanceTiming
  admission_window : (valid_from valid_through : Text) → AttendanceTiming

-- The fields that are read once the venues are resolved; a missing city or timing is `none`.
pub record IdentityListing : Type 0 where
  pub listing_id : Text
  pub provider : Text
  pub title : Text
  pub description : Text
  pub category : Text
  pub starts_at : Text
  pub attendance_timing : Option AttendanceTiming
  pub venue_name : Text
  pub city : Option Text

pub record NormalizedTitle : Type 0 where
  pub key : Text
  pub category : Text
  pub removed_generic_suffix : Bool

pub data Policy : Type 0 where
  child_only : Policy
  adult_only : Policy
  workshop : Policy
  performance : Policy
  adaptation : Text → Policy

-- What decisionInput keeps of a listing.
pub record DecisionInput : Type 0 where
  pub listing_id : Text
  pub provider : Text
  pub city : Text
  pub starts_at : Text
  pub venue_id : Text
  pub title : NormalizedTitle
  pub attendance_timing : Option AttendanceTiming
  pub policies : List Text

pub record Rules : Type 0 where
  pub date_parse : Text → Option ℕ
  pub to_iso_string : ℕ → Text
  pub normalize_identity_text : Text → Text
  pub strip_venue_title_prefix : (title venue_name : Text) → Text
  pub normalize_title_key : (title category : Text) → NormalizedTitle
  pub policies : (title description : Text) → List Policy
  pub venue_seed_identity : IdentityListing → Option Text
  pub title_seed_identity : IdentityListing → Option Text → Option Text
  pub locale_lt : Text → Text → Bool
  pub hash_input : List DecisionInput → Text
  pub hash_session : List Text → Text

-- String.prototype.split(" ")
abbrev onto_word : ℕ → List Text → List Text
onto_word c [] = (c ∷ []) ∷ []
onto_word c (word ∷ words) = (c ∷ word) ∷ words

unfoldable pub split_words : Text → List Text
split_words [] = [] ∷ []
split_words (c ∷ t) = let rest = split_words t in if c == 32 then [] ∷ rest else onto_word c rest

unfoldable pub starts_with : (t prefix : Text) → Bool
starts_with t [] = true
starts_with [] (c ∷ prefix) = false
starts_with (d ∷ t) (c ∷ prefix) = d == c && starts_with t prefix

-- t.endsWith(suffix)
unfoldable pub ends_with : (t suffix : Text) → Bool
unfolding text_eq
ends_with [] suffix = text_eq [] suffix
ends_with (c ∷ t) suffix = text_eq (c ∷ t) suffix || ends_with t suffix

unfoldable pub generic_title_words : List Text
generic_title_words =
    codes "atolye"
    ∷ codes "atolyesi"
    ∷ codes "workshop"
    ∷ codes "workshops"
    ∷ codes "etkinlik"
    ∷ codes "etkinligi"
    ∷ codes "etkinlikleri"
    ∷ codes "takvim"
    ∷ codes "takvimi"
    ∷ codes "konser"
    ∷ codes "konseri"
    ∷ codes "concert"
    ∷ codes "tiyatro"
    ∷ codes "oyun"
    ∷ codes "oyunu"
    ∷ codes "stand"
    ∷ codes "up"
    ∷ codes "standup"
    ∷ codes "gosteri"
    ∷ codes "gosterisi"
    ∷ codes "show"
    ∷ codes "sergi"
    ∷ codes "sergisi"
    ∷ codes "festival"
    ∷ codes "gece"
    ∷ codes "gecesi"
    ∷ codes "night"
    ∷ codes "parti"
    ∷ codes "party"
    ∷ codes "istanbul"
    ∷ codes "event"
    ∷ codes "live"
    ∷ codes "canli"
    ∷ []

-- A string that is absent or empty is falsy.
abbrev pub same_truthy : Option Text → Option Text → Bool
same_truthy (some (c ∷ s)) (some t) = text_eq (c ∷ s) t
same_truthy _ _ = false

abbrev city_or_default : Option Text → Text
city_or_default (some (c ∷ t)) = c ∷ t
city_or_default _ = 304 ∷ codes "stanbul"

module _ (rules : Rules) where
  unfoldable pub listing_title_key : IdentityListing → NormalizedTitle
  listing_title_key l =
      rules.normalize_title_key (rules.strip_venue_title_prefix l.title l.venue_name) l.category

  unfoldable pub raw_title : IdentityListing → Text
  raw_title l = rules.normalize_identity_text (rules.strip_venue_title_prefix l.title l.venue_name)

  unfoldable pub titles_match : IdentityListing → IdentityListing → Bool
  unfolding listing_title_key raw_title
  titles_match left right =
      same_truthy (some (listing_title_key left).key) (some (listing_title_key right).key)
      || same_truthy (some (raw_title left)) (some (raw_title right))

  -- The title names something beyond its format and its venue.
  unfoldable pub specific_title : IdentityListing → Bool
  specific_title l =
      let venue_words = split_words (rules.normalize_identity_text l.venue_name) in
      any_of
        (λ word.
          leb 3 (length word)
          && not (includes generic_title_words word)
          && not (includes venue_words word))
        (split_words (rules.normalize_identity_text l.title))

  unfoldable pub dash_segments_contain : (longer shorter : Text) → Bool
  dash_segments_contain longer shorter =
      let outer = rules.normalize_identity_text longer in
      let inner = rules.normalize_identity_text shorter in
      if text_eq outer inner || ltb (length inner) 10 || ltb (length (split_words inner)) 2
      then false
      else starts_with outer (inner ++ 32 ∷ []) || ends_with outer (32 ∷ inner)

  unfoldable pub title_contains : IdentityListing → IdentityListing → Bool
  title_contains left right =
      let longer = if leb (length right.title) (length left.title) then left else right in
      let shorter = if leb (length right.title) (length left.title) then right else left in
      specific_title shorter && dash_segments_contain longer.title shorter.title

  unfoldable pub city_key : IdentityListing → Text
  city_key l = rules.normalize_identity_text (city_or_default l.city)

  abbrev known_window : Option ℕ → Option ℕ → Option AttendanceTiming
  known_window (some start) (some last) =
      if ltb last start
      then none
      else some (admission_window (rules.to_iso_string start) (rules.to_iso_string last))
  known_window _ _ = none

  abbrev known_timing : Option AttendanceTiming → Option AttendanceTiming
  known_timing (some timed_session) = some timed_session
  known_timing (some (admission_window start last)) =
      known_window (rules.date_parse start) (rules.date_parse last)
  known_timing _ = none

  unfoldable pub known_attendance_timing : IdentityListing → Option AttendanceTiming
  known_attendance_timing l = known_timing l.attendance_timing

  unfoldable pub policies_of : IdentityListing → List Policy
  policies_of l = rules.policies l.title l.description

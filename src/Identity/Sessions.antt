-- ===== src/Identity/Sessions.antt =====
-- collector/identity/resolve.ts, lines 793 to 905: the accepted pairs are merged, and each
-- component of the result is a session.
pub mod Merging
pub mod Agreement
pub mod Listed
pub mod Result
pub mod Once
pub mod Settled
use event_recommender.Prelude.Sorting.{sort_by, sort_texts}
use event_recommender.Prelude.{
  ℕ, zero, suc, Bool, true, false, ◌&&◌, ◌||◌, not, Option, none, some, List, [], ◌∷◌, ◌++◌,
  if◌then◌else◌, ◌==◌, any_of, every,
}
use event_recommender.Prelude.Text.{Text, codes, text_eq, includes}
use event_recommender.Identity.Sets.{Sets, new_sets, find, union, members}
use event_recommender.Identity.Listing.{IdentityListing, Rules, city_key, listing_title_key}
use event_recommender.Identity.Assess.{
  Outcome, never_merge, Rule, graph_same_provider_collision, graph_pairwise_incompatibility,
  IdentityDecision,
}
use event_recommender.Identity.Pairs.{
  Ledger, decision_of, is_merged, Pairing, decided, key_of, title_seed,
}

pub record Graph : Type 0 where
  pub sets : Sets
  pub ledger : Ledger

-- The newest decision of the pair, which the map finds, is changed.
unfoldable pub reject : Ledger → (key : Text) → Rule → Ledger
reject [] key reason = []
reject ((k, decision) ∷ rest) key reason =
    let others = reject rest key reason in
    if text_eq k key
    then (
      k,
      record decision {
        outcome = never_merge;
        rule = reason;
        evidence = decision.evidence ++ codes "transitive-merge-rejected" ∷ [];
      },
    )
      ∷ rest
    else (k, decision) ∷ others

pub record ResolvedSession : Type 0 where
  pub id : Text
  pub listing_ids : List Text
  pub starts_at : Text
  pub city : Text
  pub venue_id : Text

-- A session before it has its identifier.
pub record Draft : Type 0 where
  pub base_anchor : List Text
  pub listing_ids : List Text
  pub starts_at : Text
  pub city : Text
  pub venue_id : Text

-- A Map from a root to the indices of its component, in the order of its keys.
abbrev pub Components : Type 0
Components = List (ℕ × List ℕ)

unfoldable pub add_member : Components → (root i : ℕ) → Components
add_member [] root i = (root, i ∷ []) ∷ []
add_member ((r, is) ∷ rest) root i =
    let others = add_member rest root i in
    if r == root then (r, is ++ i ∷ []) ∷ rest else (r, is) ∷ others

-- Equality of arrays of strings, for that of their JSON.
unfoldable pub texts_eq : List Text → List Text → Bool
texts_eq [] [] = true
texts_eq (s ∷ ss) (t ∷ ts) = text_eq s t && texts_eq ss ts
texts_eq _ _ = false

abbrev pub occurrences : List Text → List Draft → ℕ
occurrences anchor [] = 0
occurrences anchor (draft ∷ drafts) =
    let rest = occurrences anchor drafts in
    if texts_eq draft.base_anchor anchor then suc rest else rest

abbrev pub first_text : List Text → Text
first_text [] = []
first_text (t ∷ ts) = t

module _ (rules : Rules) (count : ℕ) (listing : ℕ → IdentityListing) (venue : Text → Text)
    (seed : Text → Option Text) where
  abbrev pub id_at : ℕ → Text
  id_at i = (listing i).listing_id

  -- Some provider has a listing in both components.
  unfoldable pub providers_collide : (left right : List ℕ) → Bool
  providers_collide left right =
      any_of (λ j. any_of (λ i. text_eq (listing i).provider (listing j).provider) left) right

  -- Every listing of the one component was merged with every one of the other.
  unfoldable pub all_merged : Ledger → (left right : List ℕ) → Bool
  all_merged ledger left right =
      every
        (λ i.
          every (λ j. is_merged (decision_of ledger (key_of rules count listing venue seed (i, j))))
            right)
        left

  unfoldable pub collision : Ledger → (left right : List ℕ) → Option Rule
  collision ledger left right =
      if providers_collide left right
      then some graph_same_provider_collision
      else if all_merged ledger left right
      then none
      else some graph_pairwise_incompatibility

  abbrev pub settle_pair : Option Rule → (pair : ℕ × ℕ) → Graph → Graph
  settle_pair (some reason) pair g = record g {
    ledger = reject g.ledger (key_of rules count listing venue seed pair) reason;
  }
  settle_pair none pair g = record g { sets = union g.sets pair.0 pair.1 }

  -- One accepted pair; `members` and `find` compress paths.
  unfoldable pub merge_pair : ℕ × ℕ → Graph → Graph
  merge_pair (left, right) g =
      let (left_members, s) = members g.sets left in
      let (right_members, t) = members s right in
      let (a, u) = find t left in
      let (b, v) = find u right in
      let next = record g { sets = v } in
      if a == b
      then next
      else settle_pair (collision g.ledger left_members right_members) (left, right) next

  unfoldable pub merge_pairs : List (ℕ × ℕ) → Graph → Graph
  unfolding merge_pair
  merge_pairs [] g = g
  merge_pairs (pair ∷ pairs) g = merge_pairs pairs (merge_pair pair g)

  unfoldable pub merged : Graph
  unfolding merge_pairs decided
  merged =
      let s = decided rules count listing venue seed in
      merge_pairs s.accepted (record { sets = new_sets; ledger = s.ledger })

  -- The components of the first n listings.
  unfoldable pub components : (n : ℕ) → Sets → Components × Sets
  components zero s = ([], s)
  components (suc n) s =
      let (found, t) = components n s in let (root, u) = find t n in (add_member found root n, u)

  abbrev pub seed_or_key : Option Text → IdentityListing → Text
  seed_or_key (some text) l = text
  seed_or_key none l = (listing_title_key rules l).key

  abbrev pub titles_of : List ℕ → List Text
  titles_of [] = []
  titles_of (i ∷ is) =
      seed_or_key (title_seed rules count listing venue seed (listing i)) (listing i) ∷ titles_of is

  abbrev pub instant_or_text : Option ℕ → Text → Text
  instant_or_text (some time) starts_at = rules.to_iso_string time
  instant_or_text none starts_at = starts_at

  abbrev pub ids_at : List ℕ → List Text
  ids_at [] = []
  ids_at (i ∷ is) = id_at i ∷ ids_at is

  abbrev pub by_id : ℕ → ℕ → Bool
  by_id i j = rules.locale_lt (id_at i) (id_at j)

  -- The session of a component's sorted members, of which the first decides time and place.
  abbrev pub draft_of : (first : ℕ) → List ℕ → Draft
  draft_of first is =
      let l = listing first in
      let starts_at = instant_or_text (rules.date_parse l.starts_at) l.starts_at in
      record {
        base_anchor =
            city_key rules l
            ∷ starts_at
            ∷ venue l.listing_id
            ∷ first_text (sort_texts (titles_of is))
            ∷ [];
        listing_ids = ids_at is;
        starts_at = starts_at;
        city = city_key rules l;
        venue_id = venue l.listing_id;
      }

  abbrev pub sorted_draft : List ℕ → List Draft
  sorted_draft [] = []
  sorted_draft (i ∷ is) = draft_of i (i ∷ is) ∷ []

  unfoldable pub drafts : Components → List Draft
  drafts [] = []
  drafts ((root, is) ∷ rest) = sorted_draft (sort_by by_id is) ++ drafts rest

  abbrev pub session_of : List Draft → Draft → ResolvedSession
  session_of all draft = record {
    id = rules.hash_session (
        if occurrences draft.base_anchor all == 1
        then draft.base_anchor
        else draft.base_anchor ++ (codes "disambiguator:" ++ first_text draft.listing_ids) ∷ []);
    listing_ids = draft.listing_ids;
    starts_at = draft.starts_at;
    city = draft.city;
    venue_id = draft.venue_id;
  }

  unfoldable pub sessions_of : (all : List Draft) → List Draft → List ResolvedSession
  sessions_of all [] = []
  sessions_of all (draft ∷ rest) = session_of all draft ∷ sessions_of all rest

  abbrev pub session_before : ResolvedSession → ResolvedSession → Bool
  session_before a b =
      rules.locale_lt a.starts_at b.starts_at
      || not (rules.locale_lt b.starts_at a.starts_at) && rules.locale_lt a.id b.id

  -- The decisions in the order in which they were pushed.
  unfoldable pub decisions_of : Ledger → List IdentityDecision
  decisions_of [] = []
  decisions_of ((key, decision) ∷ rest) = decisions_of rest ++ decision ∷ []

  abbrev pub decision_before : IdentityDecision → IdentityDecision → Bool
  decision_before a b =
      let (a0, a1) = a.listing_ids in
      let (b0, b1) = b.listing_ids in
      rules.locale_lt a0 b0 || not (rules.locale_lt b0 a0) && rules.locale_lt a1 b1

  unfoldable pub resolve_sessions : List ResolvedSession × List IdentityDecision
  unfolding merged components
  resolve_sessions =
      let all = drafts (components count merged.sets).0 in
      (
        sort_by session_before (sessions_of all all),
        sort_by decision_before (decisions_of merged.ledger),
      )

-- ===== src/Identity/Resolve/Agreement.antt =====
-- collector/identity/resolve.ts, `resolveIdentity`: its check of the identifiers is what the
-- resolution of sessions relies on.
use mathlib.Core.List.{Memᴰ}
use mathlib.Core.List.Memᴰ
use event_recommender.Prelude.{
  ℕ, zero, suc, ◌≤◌, ◌<◌, Bool, true, false, ◌||◌, List, [], ◌∷◌, if◌then◌else◌, length, Result, ok,
  err, >>=-eq-ok, ok-injective, String, ◌≡◌, ◌≢◌, refl, sym, ap, subst, ◌∙◌, inl, inr, Bool-cases,
  All, arith,
}
use event_recommender.Prelude.Text.{Text, text_eq, text_eq_iff, text_eq_refl, includes}
use event_recommender.Prelude.Sorting.{insert_by, sort_by, All-sort_by}
use event_recommender.Prelude.Sums.{sum_of, sum_of-sort_by}
use event_recommender.Identity.Listing.{IdentityListing, Rules}
use event_recommender.Identity.Assess.Compatible.{Compatible}
use event_recommender.Identity.Pairs.Keys.{has_separator}
use event_recommender.Identity.Sessions.{ResolvedSession}
use event_recommender.Identity.Sessions.Result.{session-Compatible}
use event_recommender.Identity.Resolve.{
  Venues, is_blank, IdentityResolution, check_ids, listing_at, ordered_listings, resolve_identity,
}

-- How many listings have the identifier.
abbrev named : Text → IdentityListing → ℕ
named t l = if text_eq l.listing_id t then 1 else 0

passed :
    (failed : Bool) (message : String) (rest : Result (Unit {0}))
    → (if failed then err message else rest) ≡ ok tt
    → (failed ≡ false) × (rest ≡ ok tt)
passed true message rest h = cc
passed false message rest h = (refl, h)

check_ids_once :
    (seen : List Text) (ls : List IdentityListing) (t : Text)
    → check_ids seen ls ≡ ok tt
    → sum_of (named t) ls ≤ (if includes seen t then 0 else 1)
unfolding check_ids sum_of includes
check_ids_once seen [] t h = ground arith
check_ids_once seen (l ∷ ls) t h =
    let (apart, rest) =
      passed (is_blank l.listing_id || includes seen l.listing_id) "Duplicate or empty listingId"
        (check_ids (l.listing_id ∷ seen) ls) h in
    let later = check_ids_once (l.listing_id ∷ seen) ls t rest in
    let unseen : includes seen l.listing_id ≡ false = ground (arith, apart) in
    elim (Bool-cases (text_eq l.listing_id t)) [
      | inl e ↦
          let new : includes seen t ≡ false =
            ap (includes seen) (sym ((text_eq_iff l.listing_id t).0 e)) ∙ unseen in
          ground (arith, e, new, later)
      | inr e ↦ ground (arith, e, later)
    ]

Memᴰ-insert_by :
    (before : IdentityListing → IdentityListing → Bool) (x y : IdentityListing)
    (ys : List IdentityListing)
    → Memᴰ x (y ∷ ys)
    → Memᴰ x (insert_by before y ys)
Memᴰ-insert_by before x y [] m = m
Memᴰ-insert_by before x y (z ∷ zs) m = elim (Bool-cases (before z y)) [
  | inl e ↦ rw e (swapped (Memᴰ-insert_by before x y zs) m)
  | inr e ↦ rw e m
]
  where
    swapped :
        (Memᴰ x (y ∷ zs) → Memᴰ x (insert_by before y zs))
        → Memᴰ x (y ∷ z ∷ zs)
        → Memᴰ x (z ∷ insert_by before y zs)
    swapped further (Memᴰ.head e) = Memᴰ.tail (further (Memᴰ.head e))
    swapped further (Memᴰ.tail (Memᴰ.head e)) = Memᴰ.head e
    swapped further (Memᴰ.tail (Memᴰ.tail k)) = Memᴰ.tail (further (Memᴰ.tail k))

Memᴰ-sort_by :
    (before : IdentityListing → IdentityListing → Bool) (x : IdentityListing)
    (ys : List IdentityListing)
    → Memᴰ x ys
    → Memᴰ x (sort_by before ys)
unfolding sort_by
Memᴰ-sort_by before x [] m = m
Memᴰ-sort_by before x (y ∷ ys) (Memᴰ.head e) =
    Memᴰ-insert_by before x y (sort_by before ys) (Memᴰ.head e)
Memᴰ-sort_by before x (y ∷ ys) (Memᴰ.tail m) =
    Memᴰ-insert_by before x y (sort_by before ys) (Memᴰ.tail (Memᴰ-sort_by before x ys m))

index_of_member :
    (x : IdentityListing) (ls : List IdentityListing)
    → Memᴰ x ls
    → (i : ℕ) × ((i < length ls) × (listing_at ls i ≡ x))
index_of_member x [] m = absurd (Memᴰ.not-nil m)
index_of_member x (l ∷ ls) (Memᴰ.head e) = (zero, (omega arith, sym e))
index_of_member x (l ∷ ls) (Memᴰ.tail m) =
    let (i, (low, e)) = index_of_member x ls m in (suc i, (omega (arith, low), e))

at_least_one :
    (ls : List IdentityListing) (i : ℕ) (t : Text)
    → i < length ls
    → (listing_at ls i).listing_id ≡ t
    → 1 ≤ sum_of (named t) ls
unfolding sum_of
at_least_one [] i t h e = absurd (omega (arith, h))
at_least_one (l ∷ ls) zero t h e = ground (arith, text_eq_iff l.listing_id t, e)
at_least_one (l ∷ ls) (suc i) t h e = omega (arith, at_least_one ls i t (omega (arith, h)) e)

distinct_at :
    (ls : List IdentityListing) (i j : ℕ)
    → ((t : Text) → sum_of (named t) ls ≤ 1)
    → i < length ls
    → j < length ls
    → (listing_at ls i).listing_id ≡ (listing_at ls j).listing_id
    → i ≡ j
unfolding sum_of
distinct_at [] i j once hi hj e = absurd (omega (arith, hi))
distinct_at (l ∷ ls) zero zero once hi hj e = refl
distinct_at (l ∷ ls) zero (suc j) once hi hj e = absurd (
    ground (
      arith,
      once l.listing_id,
      text_eq_refl l.listing_id,
      at_least_one ls j l.listing_id (omega (arith, hj)) (sym e),
    ))
distinct_at (l ∷ ls) (suc i) zero once hi hj e = absurd (
    ground (
      arith,
      once l.listing_id,
      text_eq_refl l.listing_id,
      at_least_one ls i l.listing_id (omega (arith, hi)) e,
    ))
distinct_at (l ∷ ls) (suc i) (suc j) once hi hj e =
    ap suc
      (distinct_at ls i j (λ t. omega (arith, once t)) (omega (arith, hi)) (omega (arith, hj)) e)

All-at :
    (P : IdentityListing → Type 0) (ls : List IdentityListing) (i : ℕ)
    → All P ls
    → i < length ls
    → P (listing_at ls i)
All-at P [] i h k = absurd (omega (arith, k))
All-at P (l ∷ ls) zero h k = h.0
All-at P (l ∷ ls) (suc i) h k = All-at P ls i h.1 (omega (arith, k))

module _ (rules : Rules) (resolve_venues : List IdentityListing → Venues)
    (listings : List IdentityListing) where
  ls : List IdentityListing
  ls = ordered_listings rules resolve_venues listings

  once : check_ids [] listings ≡ ok tt → (t : Text) → sum_of (named t) ls ≤ 1
  unfolding ls includes
  once h t = omega (
    arith,
    sum_of-sort_by (named t) (λ a b. rules.locale_lt a.listing_id b.listing_id) listings,
    check_ids_once [] listings t h,
  )

  found_at :
      (l : IdentityListing) → Memᴰ l listings → (i : ℕ) × ((i < length ls) × (listing_at ls i ≡ l))
  unfolding ls
  found_at l m = index_of_member l ls (Memᴰ-sort_by _ l listings m)

  All-clean :
      All (λ l. has_separator l.listing_id ≡ false) listings
      → (i : ℕ) → i < length ls
      → has_separator (listing_at ls i).listing_id ≡ false
  unfolding ls
  All-clean h i low =
      All-at (λ l. has_separator l.listing_id ≡ false) ls i
        (All-sort_by (λ l. has_separator l.listing_id ≡ false) _ listings h) low

  -- What `resolveIdentity` returns joins two listings in a session only if they agree on time,
  -- city, venue, timing and policy and are of different providers, when no identifier has U+001F
  -- in it.
  pub resolve_identity-Compatible :
      (result : IdentityResolution)
      → (session : ResolvedSession) → (left right : IdentityListing)
      → resolve_identity rules resolve_venues listings ≡ ok result
      → All (λ l. has_separator l.listing_id ≡ false) listings
      → Memᴰ session result.sessions
      → Memᴰ left listings
      → Memᴰ right listings
      → left.listing_id ≢ right.listing_id
      → includes session.listing_ids left.listing_id ≡ true
      → includes session.listing_ids right.listing_id ≡ true
      → Compatible rules result.venues.venue_of left right
  unfolding resolve_identity ls
  resolve_identity-Compatible result session left right e clean in_sessions in_left in_right apart
        names_left names_right =
      let (checked, c, made) = >>=-eq-ok (check_ids [] listings) _ e in
      let same = ok-injective made in
      let (i, (hi, ei)) = found_at left in_left in
      let (j, (hj, ej)) = found_at right in_right in
      let venues = resolve_venues ls in
      let session_in =
        subst (λ (r : IdentityResolution). Memᴰ session r.sessions) (sym same) in_sessions in
      subst (λ (r : IdentityResolution). Compatible rules r.venues.venue_of left right) same
        (subst (λ l. Compatible rules venues.venue_of l right) ei
          (subst (λ l. Compatible rules venues.venue_of (listing_at ls i) l) ej
            (session-Compatible rules (length ls) (listing_at ls) venues.venue_of venues.seed_of
              (λ a b ha hb. distinct_at ls a b (once c) ha hb) (All-clean clean) session i j
              session_in hi hj
              (λ k. apart (
                sym (ap (λ l. l.listing_id) ei)
                ∙ ap (λ n. (listing_at ls n).listing_id) k
                ∙ ap (λ l. l.listing_id) ej))
              (ap (λ l. includes session.listing_ids l.listing_id) ei ∙ names_left)
              (ap (λ l. includes session.listing_ids l.listing_id) ej ∙ names_right))))

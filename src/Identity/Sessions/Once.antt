-- ===== src/Identity/Sessions/Once.antt =====
-- collector/identity/resolve.ts, `resolveSessions`: no listing is left out or listed twice.
use event_recommender.Prelude.{
  ℕ, zero, suc, ◌+◌, ◌≤◌, ◌<◌, ltb, Option, List, [], ◌∷◌, if◌then◌else◌, ◌==◌, ◌≡◌, ◌≢◌, refl, ap,
  ap₂, ◌∙◌, inl, inr, Bool-cases, arith,
}
use event_recommender.Prelude.Text.{Text, text_eq, text_eq_iff}
use event_recommender.Prelude.Sums.{sum_of, times, sum_of-sort_by, sum_of-append}
use event_recommender.Prelude.Sorting.{sort_by}
use event_recommender.Identity.Sets.{Sets}
use event_recommender.Identity.Listing.{IdentityListing, Rules}
use event_recommender.Identity.Sessions.{
  Components, add_member, Draft, ResolvedSession, components, ids_at, by_id, sorted_draft, drafts,
  sessions_of, resolve_sessions,
}
use event_recommender.Identity.Sessions.Merging.{AreDistinct}

abbrev in_components : (ℕ → ℕ) → Components → ℕ
in_components f found = sum_of (λ (root, is). sum_of f is) found

add_member_sum :
    (f : ℕ → ℕ) (found : Components) (r i : ℕ)
    → in_components f (add_member found r i) ≡ in_components f found + f i
unfolding add_member sum_of
add_member_sum f [] r i = omega arith
add_member_sum f ((q, is) ∷ rest) r i = elim (Bool-cases (q == r)) [
  | inl e ↦ rw e (omega (arith, sum_of-append f is (i ∷ [])))
  | inr e ↦ rw e (omega (arith, add_member_sum f rest r i))
]

-- How often sessions name a listing.
abbrev pub times_listed : Text → List ResolvedSession → ℕ
times_listed t sessions = sum_of (λ session. times t session.listing_ids) sessions

module _ (rules : Rules) (count : ℕ) (listing : ℕ → IdentityListing) (venue : Text → Text)
    (seed : Text → Option Text) where
  one_if_named : Text → ℕ → ℕ
  one_if_named t i = if text_eq (listing i).listing_id t then 1 else 0

  times-ids_at :
      (t : Text) (is : List ℕ)
      → times t (ids_at rules count listing venue seed is) ≡ sum_of (one_if_named t) is
  unfolding times sum_of one_if_named
  times-ids_at t [] = refl
  times-ids_at t (i ∷ is) = ground (arith, times-ids_at t is)

  among : Text → ℕ → ℕ
  among t zero = 0
  among t (suc n) = among t n + one_if_named t n

  components-among :
      (t : Text) (n : ℕ) (s : Sets)
      → in_components (one_if_named t) (components rules count listing venue seed n s).0 ≡ among t n
  unfolding components sum_of among
  components-among t zero s = refl
  components-among t (suc n) s =
      add_member_sum (one_if_named t) (components rules count listing venue seed n s).0 _ n
      ∙ ap (λ k. k + one_if_named t n) (components-among t n s)

  drafts_sum :
      (t : Text) (found : Components)
      → sum_of (λ draft. times t draft.listing_ids) (drafts rules count listing venue seed found)
        ≡ in_components (one_if_named t) found
  unfolding drafts sum_of
  drafts_sum t [] = refl
  drafts_sum t ((r, is) ∷ rest) =
      sum_of-append _
        (sorted_draft rules count listing venue seed
          (sort_by (by_id rules count listing venue seed) is))
        _
      ∙ ap₂ (λ a b. a + b)
          (one (sort_by (by_id rules count listing venue seed) is)
            ∙ sum_of-sort_by (one_if_named t) (by_id rules count listing venue seed) is)
          (drafts_sum t rest)
    where
      one :
          (js : List ℕ)
          → sum_of
              (λ draft. times t draft.listing_ids)
              (sorted_draft rules count listing venue seed js)
            ≡ sum_of (one_if_named t) js
      one [] = refl
      one (j ∷ js) = omega (arith, times-ids_at t (j ∷ js))

  sessions_of_sum :
      (t : Text) (all some_drafts : List Draft)
      → times_listed t (sessions_of rules count listing venue seed all some_drafts)
        ≡ sum_of (λ draft. times t draft.listing_ids) some_drafts
  unfolding sessions_of sum_of
  sessions_of_sum t all [] = refl
  sessions_of_sum t all (draft ∷ rest) =
      ap (λ n. times t draft.listing_ids + n) (sessions_of_sum t all rest)

  among_once :
      AreDistinct rules count listing venue seed
      → (i n : ℕ) → i < count
      → n ≤ count
      → among (listing i).listing_id n ≡ (if ltb i n then 1 else 0)
  unfolding among one_if_named
  among_once distinct i zero hi hn = ground arith
  among_once distinct i (suc n) hi hn =
      let before = among_once distinct i n hi (omega (arith, hn)) in
      let id_iff = text_eq_iff (listing n).listing_id (listing i).listing_id in
      elim (Bool-cases (text_eq (listing n).listing_id (listing i).listing_id)) [
        | inl e ↦
            let same = distinct n i (omega (arith, hn)) hi (id_iff.0 e) in
            rw e (ground (arith, before, same))
        | inr e ↦
            let other : n ≢ i =
              λ same. ground (arith, id_iff.1 (ap (λ k. (listing k).listing_id) same), e) in
            rw e (ground (arith, before, other))
      ]

  -- Each listing is in exactly one session, when no two listings share an identifier.
  pub every_listing_once :
      (distinct : AreDistinct rules count listing venue seed)
      → (i : ℕ) → i < count
      → times_listed (listing i).listing_id (resolve_sessions rules count listing venue seed).0 ≡ 1
  unfolding resolve_sessions
  every_listing_once distinct i h =
      let t = (listing i).listing_id in
      sum_of-sort_by _ _ _
      ∙ sessions_of_sum t _ _
      ∙ drafts_sum t _
      ∙ components-among t count _
      ∙ among_once distinct i count h (omega arith)
      ∙ ground (arith, h)

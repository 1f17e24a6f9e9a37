-- ===== src/Identity/Sessions/Result.antt =====
-- collector/identity/resolve.ts, `resolveSessions`: what two listings of a session agree on.
use mathlib.Core.List.{Memᴰ}
use event_recommender.Prelude.{
  ℕ, ◌<◌, Bool, true, ◌||◌, Option, List, [], ◌∷◌, ◌≡◌, ◌≢◌, refl, sym, ap, ◌∙◌, inl, inr,
  Bool-cases, any_of, arith,
}
use event_recommender.Prelude.Text.{Text, text_eq, text_eq_iff, includes}
use event_recommender.Prelude.Sorting.{All-member}
use event_recommender.Identity.Sets.Roots.{root}
use event_recommender.Identity.Listing.{IdentityListing, Rules}
use event_recommender.Identity.Assess.Compatible.{Compatible}
use event_recommender.Identity.Sessions.{ResolvedSession, ids_at, merged, resolve_sessions}
use event_recommender.Identity.Sessions.Merging.{identifier, AreDistinct, AreClean}
use event_recommender.Identity.Sessions.Agreement.{merged-IsMerged}
use event_recommender.Identity.Sessions.Listed.{AreOf, resolve_sessions-IsComponent}

module _ (rules : Rules) (count : ℕ) (listing : ℕ → IdentityListing) (venue : Text → Text)
    (seed : Text → Option Text) where
  named : Text → ℕ → Bool
  named t i = text_eq (identifier rules count listing venue seed i) t

  ids_at-named :
      (t : Text) (is : List ℕ)
      → includes (ids_at rules count listing venue seed is) t ≡ any_of (named t) is
  unfolding includes any_of named
  ids_at-named t [] = refl
  ids_at-named t (i ∷ is) = ap (λ b. named t i || b) (ids_at-named t is)

  member_at :
      (i : ℕ) (parent : ℕ → ℕ) (r : ℕ) (is : List ℕ)
      → AreDistinct rules count listing venue seed
      → i < count
      → AreOf parent count (r, is)
      → any_of (named (listing i).listing_id) is ≡ true
      → root parent i ≡ r
  unfolding any_of named
  member_at i parent r [] distinct h a e = ground arith
  member_at i parent r (j ∷ js) distinct h a e =
      elim (Bool-cases (text_eq (listing j).listing_id (listing i).listing_id)) [
        | inl same ↦
            let j_is_i =
              distinct j i a.0.1 h
                ((text_eq_iff (listing j).listing_id (listing i).listing_id).0 same) in
            ap (root parent) (sym j_is_i) ∙ a.0.0
        | inr other ↦ member_at i parent r js distinct h a.1 (ground (arith, other, e))
      ]

  -- Two listings of a session agree on time, city, venue, timing and policy, and are of
  -- different providers, when no two listings share an identifier and none has U+001F in it.
  pub session-Compatible :
      (distinct : AreDistinct rules count listing venue seed)
      → (clean : AreClean rules count listing venue seed) → (session : ResolvedSession) → (i j : ℕ)
      → Memᴰ session (resolve_sessions rules count listing venue seed).0
      → i < count
      → j < count
      → i ≢ j
      → includes session.listing_ids (listing i).listing_id ≡ true
      → includes session.listing_ids (listing j).listing_id ≡ true
      → Compatible rules venue (listing i) (listing j)
  session-Compatible distinct clean session i j m hi hj apart ei ej =
      let s = merged rules count listing venue seed in
      let whole = merged-IsMerged rules count listing venue seed distinct clean in
      let c =
        All-member _ session _
          (resolve_sessions-IsComponent rules count listing venue seed whole.partition) m in
      let below : (k : ℕ)
          → k < count
          → includes session.listing_ids (listing k).listing_id ≡ true
          → root s.sets.parent k ≡ c.top =
        λ k h e. member_at k s.sets.parent c.top c.indices distinct h c.are_of (
          sym (ids_at-named (listing k).listing_id c.indices)
          ∙ sym (ap (λ ids. includes ids (listing k).listing_id) c.names)
          ∙ e) in
      (whole.agree i j apart (below i hi ei ∙ sym (below j hj ej))).1

-- ===== src/Identity/Sessions/Listed.antt =====
-- collector/identity/resolve.ts, `resolveSessions`: the sessions are the components.
use event_recommender.Prelude.Sorting.{All-sort_by}
use event_recommender.Prelude.{
  ℕ, zero, suc, ◌<◌, Option, List, [], ◌∷◌, ◌==◌, ==_iff, ◌≡◌, refl, sym, ◌∙◌, inl, inr, Bool-cases,
  All, All-append, All-mono, arith,
}
use event_recommender.Prelude.Text.{Text}
use event_recommender.Identity.Sets.{Sets, find}
use event_recommender.Identity.Sets.Roots.{root}
use event_recommender.Identity.Sets.Partition.{
  IsPartition, SamePartition, find_root, find_same, SamePartition-trans,
}
use event_recommender.Identity.Listing.{IdentityListing, Rules}
use event_recommender.Identity.Sessions.{
  Components, add_member, Draft, components, ids_at, by_id, sorted_draft, drafts, sessions_of,
  merged, resolve_sessions,
}

-- The indices of a component: of the first n, those below its root.
abbrev pub AreOf : (parent : ℕ → ℕ) (n : ℕ) → ℕ × List ℕ → Type 0
AreOf parent n (r, is) = All (λ i. (root parent i ≡ r) × (i < n)) is

AreOf-later :
    (parent : ℕ → ℕ) (n : ℕ) (found : Components)
    → All (AreOf parent n) found
    → All (AreOf parent (suc n)) found
AreOf-later parent n found h =
    All-mono (AreOf parent n) (AreOf parent (suc n)) found
      (λ (r, is) k.
        All-mono (λ i. (root parent i ≡ r) × (i < n)) (λ i. (root parent i ≡ r) × (i < suc n)) is
          (λ i at. (at.0, omega (arith, at.1))) k)
      h

add_member-AreOf :
    (parent : ℕ → ℕ) (n : ℕ) (found : Components) (r i : ℕ)
    → All (AreOf parent n) found
    → root parent i ≡ r
    → i < n
    → All (AreOf parent n) (add_member found r i)
unfolding add_member
add_member-AreOf parent n [] r i h e k = (((e, k), tt), tt)
add_member-AreOf parent n ((q, is) ∷ rest) r i h e k = elim (Bool-cases (q == r)) [
  | inl same ↦ rw same (
    All-append (λ j. (root parent j ≡ q) × (j < n)) is (i ∷ []) h.0
        ((e ∙ sym ((==_iff q r).0 same), k), tt),
    h.1,
  )
  | inr other ↦ rw other (h.0, add_member-AreOf parent n rest r i h.1 e k)
]

module _ (rules : Rules) (count : ℕ) (listing : ℕ → IdentityListing) (venue : Text → Text)
    (seed : Text → Option Text) where
  components_lem :
      (n : ℕ) (s : Sets)
      → IsPartition s
      → SamePartition s (components rules count listing venue seed n s).1
        × All (AreOf s.parent n) (components rules count listing venue seed n s).0
  unfolding components
  components_lem zero s p = (record { forest = p.forest; roots = λ i. refl; lists = λ r. refl }, tt)
  components_lem (suc n) s p =
      let (same, found) = components_lem n s p in
      let t = (components rules count listing venue seed n s).1 in
      (
        SamePartition-trans s t (find t n).1 same (find_same t n same.forest),
        add_member-AreOf s.parent (suc n) (components rules count listing venue seed n s).0
            (find t n).0 n
            (AreOf-later s.parent n (components rules count listing venue seed n s).0 found)
            (sym (find_root t n ∙ same.roots n)) (omega arith),
      )

  -- The identifiers are those of the listings of one component.
  pub record IsComponent (parent : ℕ → ℕ) (ids : List Text) : Type 0 where
    pub top : ℕ
    pub indices : List ℕ
    pub are_of : AreOf parent count (top, indices)
    pub names : ids ≡ ids_at rules count listing venue seed indices

  drafts-IsComponent :
      (parent : ℕ → ℕ) (found : Components)
      → All (AreOf parent count) found
      → All
          (λ draft. IsComponent parent draft.listing_ids)
          (drafts rules count listing venue seed found)
  unfolding drafts
  drafts-IsComponent parent [] h = tt
  drafts-IsComponent parent ((r, is) ∷ rest) h =
      All-append (λ draft. IsComponent parent draft.listing_ids)
        (sorted_draft rules count listing venue seed _) _
        (one _ (All-sort_by _ (by_id rules count listing venue seed) is h.0))
        (drafts-IsComponent parent rest h.1)
    where
      one :
          (js : List ℕ)
          → AreOf parent count (r, js)
          → All
              (λ draft. IsComponent parent draft.listing_ids)
              (sorted_draft rules count listing venue seed js)
      one [] k = tt
      one (j ∷ js) k = (record { top = r; indices = j ∷ js; are_of = k; names = refl }, tt)

  sessions_of-IsComponent :
      (parent : ℕ → ℕ) (all some_drafts : List Draft)
      → All (λ draft. IsComponent parent draft.listing_ids) some_drafts
      → All
          (λ session. IsComponent parent session.listing_ids)
          (sessions_of rules count listing venue seed all some_drafts)
  unfolding sessions_of
  sessions_of-IsComponent parent all [] h = tt
  sessions_of-IsComponent parent all (draft ∷ rest) h =
      (h.0, sessions_of-IsComponent parent all rest h.1)

  pub resolve_sessions-IsComponent :
      IsPartition (merged rules count listing venue seed).sets
      → All
          (λ session.
            IsComponent (merged rules count listing venue seed).sets.parent session.listing_ids)
          (resolve_sessions rules count listing venue seed).0
  unfolding resolve_sessions
  resolve_sessions-IsComponent p =
      let s = (merged rules count listing venue seed).sets in
      let found = (components rules count listing venue seed count s).0 in
      All-sort_by _ _ _ (
        sessions_of-IsComponent s.parent _ _
          (drafts-IsComponent s.parent found (components_lem count s p).1))

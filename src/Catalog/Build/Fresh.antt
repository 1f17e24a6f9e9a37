-- ===== src/Catalog/Build/Fresh.antt =====
-- web/lib/materialized-catalog.ts: a catalog answers as one that is built anew for each request.
use event_recommender.Prelude.{
  ℕ, ◌≤◌, ◌<◌, false, some, List, [], ◌∷◌, ◌++◌, ltb, ◌≡◌, ◌≢◌, refl, sym, ap, ap₂, subst, ◌∙◌, inl,
  inr, All, All-mono, ok, ◌>>=◌, >>=-eq-ok, ok-injective, arith,
}
use event_recommender.Prelude.Sorting.{sort_by, All-of-sort_by}
use event_recommender.Catalog.Event.{CatalogEvent, Filters, empty_filters}
use event_recommender.Catalog.Eligible.{Readings, is_eligible}
use event_recommender.Catalog.Offers.{Texts, keep}
use event_recommender.Catalog.Project.{EvidenceChecks}
use event_recommender.Catalog.Build.{
  Resolution, Version, SearchCatalog, select_version, boundaries, projected, sessions_at,
  build_versions, build_groups, families_at, build_search_catalog, candidates_of, candidate_before,
  search_catalog_candidates,
}
use event_recommender.Catalog.Build.Times.{
  keep-cong, IsAscending, sort_by-IsAscending, last_begun, CameBy, last_begun_lem, AtBoundaries,
  All-of-boundaries, eligible_same,
}
use event_recommender.Catalog.Build.Versions.{step_lem, selected_lem}

-- JSON.stringify tells the sessions of a family at two times apart, unless they are equal.
abbrev pub JsonApart : Readings → Texts → EvidenceChecks → Resolution → List CatalogEvent → Type 0
JsonApart readings texts evidence resolution members =
    (x y : ℕ)
    → resolution.events_json (sessions_at readings texts evidence resolution members x)
      ≡ resolution.events_json (sessions_at readings texts evidence resolution members y)
    → sessions_at readings texts evidence resolution members x
      ≡ sessions_at readings texts evidence resolution members y

module _ (readings : Readings) (texts : Texts) (evidence : EvidenceChecks)
    (resolution : Resolution) where
  -- Built anew at the time of the request: the sessions of each family's eligible members.
  unfoldable pub fresh_candidates :
      Filters → (time : ℕ) → List (List CatalogEvent) → List CatalogEvent
  fresh_candidates filters time [] = []
  fresh_candidates filters time (members ∷ families) =
      keep (λ e. is_eligible readings e filters time)
        (sessions_at readings texts evidence resolution members time)
      ++ fresh_candidates filters time families

module _ (readings : Readings) (texts : Texts) (evidence : EvidenceChecks) (resolution : Resolution)
    (json_nonempty : (xs : List CatalogEvent) → resolution.events_json xs ≢ []) where
  abbrev S : List CatalogEvent → ℕ → List CatalogEvent
  S members time = sessions_at readings texts evidence resolution members time

  -- The sessions of the members at a time between boundaries are those at the last boundary.
  sessions_same :
      (members : List CatalogEvent) (at b time : ℕ)
      → at ≤ b
      → b ≤ time
      → All (AtBoundaries (CameBy time b) readings texts evidence resolution at) members
      → S members b ≡ S members time
  unfolding sessions_at
  sessions_same members at b time h k all =
      ap (λ es. projected readings texts evidence resolution (resolution.sessions es))
        (keep-cong (λ e. is_eligible readings e empty_filters b)
          (λ e. is_eligible readings e empty_filters time) members
          (All-mono _ _ members
            (λ e. eligible_same readings texts evidence resolution at b time e h k) all))

  -- The version that is selected is what would be built now.
  selected_now :
      (members : List CatalogEvent) (at time bytes total : ℕ) (versions : List Version)
      (times : List ℕ)
      → JsonApart readings texts evidence resolution members
      → at ≤ time
      → times ≡ sort_by ltb (boundaries readings texts evidence resolution at (at ∷ []) members)
      → build_versions readings texts evidence resolution members [] bytes times
        ≡ ok (total, versions)
      → select_version time [] versions ≡ S members time
  unfolding select_version
  selected_now members at time bytes total versions [] apart h order e =
      let nothing : All (λ x. x < x)
          (boundaries readings texts evidence resolution at (at ∷ []) members) =
        All-of-sort_by (λ x. x < x) ltb
          (boundaries readings texts evidence resolution at (at ∷ []) members)
          (subst (All (λ x. x < x)) order tt) in
      absurd (
        omega (
          arith,
          (All-of-boundaries (λ x. x < x) readings texts evidence resolution at members (at ∷ [])
              nothing).0.0,
        ))
  selected_now members at time bytes total versions (x ∷ xs) apart h order e =
      let found = boundaries readings texts evidence resolution at (at ∷ []) members in
      let a : IsAscending (x ∷ xs) = subst IsAscending (sym order) (sort_by-IsAscending found) in
      let all_of = λ (P : ℕ → Type 0) (q : All P (x ∷ xs)).
        All-of-boundaries P readings texts evidence resolution at members (at ∷ [])
          (All-of-sort_by P ltb found (subst (All P) order q)) in
      let first_low : x ≤ at = (all_of (λ y. x ≤ y) (omega arith, a.0)).0.0 in
      let (low, (come, rest_by)) = last_begun_lem time x xs a.1 a.0 (omega (arith, first_low, h)) in
      let b = last_begun time x xs in
      let (own, members_by) = all_of (CameBy time b) (inr low, rest_by) in
      let at_low : at ≤ b = came b own.0 in
      let (size, (rest, (f, c))) =
        step_lem readings texts evidence resolution members apart [] bytes x xs total versions e in
      elim c [
        | inl (empty, v) ↦ absurd (json_nonempty _ empty)
        | inr v ↦
            ap (select_version time []) v
            ∙ rw (not_later x (omega (arith, first_low, h))) (
                selected_lem readings texts evidence resolution members apart time xs x size total
                  rest a.1 f)
            ∙ sessions_same members at b time at_low come members_by
      ]
    where
      not_later : (y : ℕ) → y ≤ time → ltb time y ≡ false
      not_later y k = ground (arith, k)

      came : (b : ℕ) → CameBy time b at → at ≤ b
      came b k = ground (arith, h, k)

  groups_now :
      (filters : Filters) (at time bytes : ℕ) (families : List (List CatalogEvent))
      (groups : List (List Version))
      → All (JsonApart readings texts evidence resolution) families
      → at ≤ time
      → build_groups readings texts evidence resolution at bytes families ≡ ok groups
      → candidates_of readings texts evidence resolution filters time groups
        ≡ fresh_candidates readings texts evidence resolution filters time families
  unfolding build_groups candidates_of fresh_candidates
  groups_now filters at time bytes [] groups apart h e =
      ap (candidates_of readings texts evidence resolution filters time) (sym (ok-injective e))
  groups_now filters at time bytes (members ∷ families) groups apart h e =
      let (found, g, k) =
        >>=-eq-ok
          (build_versions readings texts evidence resolution members [] bytes
            (sort_by ltb (boundaries readings texts evidence resolution at (at ∷ []) members)))
          (λ found.
            build_groups readings texts evidence resolution at found.0 families >>= λ groups.
            ok (found.1 ∷ groups))
          e in
      let (others, f, last) =
        >>=-eq-ok (build_groups readings texts evidence resolution at found.0 families)
          (λ groups. ok (found.1 ∷ groups)) k in
      ap (candidates_of readings texts evidence resolution filters time) (sym (ok-injective last))
      ∙ ap₂ (λ xs ys. keep (λ e. is_eligible readings e filters time) xs ++ ys)
          (selected_now members at time bytes found.0 found.1 _ apart.0 h refl g)
          (groups_now filters at time found.0 families others apart.1 h f)

  -- A catalog that was built at one time answers a request at a later time as one that is built
  -- anew for the request, from the events that were eligible then or were to be: a family's
  -- sessions are those of its members that are eligible at the time of the request.
  pub candidates_are_fresh :
      (events : List CatalogEvent) (at time : ℕ) (catalog : SearchCatalog) (filters : Filters)
      → All
          (JsonApart readings texts evidence resolution)
          (families_at readings texts evidence resolution events at)
      → at ≤ time
      → readings.date_parse (resolution.to_iso_string at) ≡ some at
      → build_search_catalog readings texts evidence resolution events at ≡ ok catalog
      → search_catalog_candidates readings texts evidence resolution catalog filters time
        ≡ ok (
            sort_by (candidate_before readings texts evidence resolution) (
              fresh_candidates readings texts evidence resolution filters time
                (families_at readings texts evidence resolution events at)))
  unfolding build_search_catalog search_catalog_candidates
  candidates_are_fresh events at time catalog filters apart h iso e =
      let families = families_at readings texts evidence resolution events at in
      let (groups, g, k) =
        >>=-eq-ok (build_groups readings texts evidence resolution at 0 families) _ e in
      let made = ok-injective k in
      let not_early : ltb time at ≡ false = ground (arith, h) in
      ap
        (λ (c : SearchCatalog).
          search_catalog_candidates readings texts evidence resolution c filters time)
        (sym made)
      ∙ rw iso (
          rw not_early (
            ap (λ es. ok (sort_by (candidate_before readings texts evidence resolution) es))
              (groups_now filters at time 0 families groups apart h g)))

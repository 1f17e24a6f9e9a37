-- ===== src/Catalog/Build/Versions.antt =====
-- web/lib/materialized-catalog.ts, the versions of a family: the one selected is that of the last
-- boundary, although a version that repeats the one before is not kept.
use event_recommender.Prelude.{
  ℕ, ◌+◌, ◌≤◌, ◌<◌, List, [], ◌∷◌, ltb, ◌≡◌, refl, sym, ap, ◌∙◌, ◌⊎◌, inl, inr, Bool-cases, All,
  All-mono, Result, ok, err, ok-injective, ltb→lt, lt→ltb, arith,
}
use event_recommender.Prelude.Text.{Text, text_eq, text_eq_iff}
use event_recommender.Catalog.Event.{CatalogEvent}
use event_recommender.Catalog.Eligible.{Readings}
use event_recommender.Catalog.Offers.{Texts}
use event_recommender.Catalog.Project.{EvidenceChecks}
use event_recommender.Catalog.Build.{
  Resolution, Version, select_version, sessions_at, put_version, build_versions,
}
use event_recommender.Catalog.Build.Times.{IsAscending, last_begun}

module _ (readings : Readings) (texts : Texts) (evidence : EvidenceChecks) (resolution : Resolution)
    (members : List CatalogEvent)
    (json_apart : (x y : ℕ)
      → resolution.events_json (sessions_at readings texts evidence resolution members x)
        ≡ resolution.events_json (sessions_at readings texts evidence resolution members y)
      → sessions_at readings texts evidence resolution members x
        ≡ sessions_at readings texts evidence resolution members y) where
  abbrev S : ℕ → List CatalogEvent
  S time = sessions_at readings texts evidence resolution members time

  put_version_lem :
      (size x : ℕ) (merged : List CatalogEvent) (rest : Result (ℕ × List Version)) (total : ℕ)
      (versions : List Version)
      → put_version readings texts evidence resolution size x merged rest ≡ ok (total, versions)
      → (vs : List Version) × ((rest ≡ ok (total, vs))
          × (versions ≡ record { from = x; events = merged } ∷ vs))
  put_version_lem size x merged (err message) total versions h =
      elim (Bool-cases (ltb 134_217_728 size)) [
        | inl e ↦
            let bad : err "Search catalog exceeds limit" ≡ ok (total, versions) = rw e at h in cc
        | inr e ↦ let bad : err message ≡ ok (total, versions) = rw e at h in cc
      ]
  put_version_lem size x merged (ok (n, vs)) total versions h =
      elim (Bool-cases (ltb 134_217_728 size)) [
        | inl e ↦
            let bad : err "Search catalog exceeds limit" ≡ ok (total, versions) = rw e at h in cc
        | inr e ↦
            let good : ok (n, record { from = x; events = merged } ∷ vs) ≡ ok (total, versions) =
              rw e at h in
            let pair = ok-injective good in
            (vs, (ap (λ k. ok (k, vs)) (ap (λ p. p.0) pair), sym (ap (λ p. p.1) pair)))
      ]

  -- What a step of `build_versions` that returned has done.
  pub step_lem :
      (previous : Text) (bytes x : ℕ) (xs : List ℕ) (total : ℕ) (versions : List Version)
      → build_versions readings texts evidence resolution members previous bytes (x ∷ xs)
        ≡ ok (total, versions)
      → (size : ℕ) × ((rest : List Version) × ((build_versions readings texts evidence resolution
                members
                (resolution.events_json (S x))
                size
                xs
              ≡ ok (total, rest))
            × (((resolution.events_json (S x) ≡ previous) × (versions ≡ rest))
                ⊎ (versions ≡ record { from = x; events = S x } ∷ rest))))
  unfolding build_versions
  step_lem previous bytes x xs total versions h =
      let serialized = resolution.events_json (S x) in
      elim (Bool-cases (text_eq serialized previous)) [
        | inl same ↦ (
          bytes,
          (versions, (rw same at h, inl ((text_eq_iff serialized previous).0 same, refl))),
        )
        | inr other ↦
            let size = bytes + resolution.byte_length serialized + 64 in
            let (vs, (f, v)) =
              put_version_lem size x (S x)
                (build_versions readings texts evidence resolution members serialized size xs) total
                versions (rw other at h) in
            (size, (vs, (f, inr v)))
      ]

  pub nil_lem :
      (previous : Text) (bytes total : ℕ) (versions : List Version)
      → build_versions readings texts evidence resolution members previous bytes []
        ≡ ok (total, versions)
      → versions ≡ []
  unfolding build_versions
  nil_lem previous bytes total versions h =
      let pair : (bytes, []) ≡ (total, versions) = ok-injective h in sym (ap (λ p. p.1) pair)

  -- Versions of later times are not selected.
  none_begun :
      (time : ℕ) (selected : List CatalogEvent) (xs : List ℕ) (previous : Text) (bytes total : ℕ)
      (versions : List Version)
      → All (λ x. time < x) xs
      → build_versions readings texts evidence resolution members previous bytes xs
        ≡ ok (total, versions)
      → select_version time selected versions ≡ selected
  unfolding select_version
  none_begun time selected [] previous bytes total versions h e =
      rw (nil_lem previous bytes total versions e) refl
  none_begun time selected (x ∷ xs) previous bytes total versions h e =
      let (size, (rest, (f, c))) = step_lem previous bytes x xs total versions e in
      elim c [
        | inl (same, v) ↦ rw v (none_begun time selected xs _ size total rest h.1 f)
        | inr v ↦ rw v (rw (lt→ltb time x h.0) refl)
      ]

  pub selected_lem :
      (time : ℕ) (xs : List ℕ) (begun bytes total : ℕ) (versions : List Version)
      → IsAscending xs
      → build_versions readings texts evidence resolution members
          (resolution.events_json (S begun))
          bytes
          xs
        ≡ ok (total, versions)
      → select_version time (S begun) versions ≡ S (last_begun time begun xs)
  unfolding select_version last_begun
  selected_lem time [] begun bytes total versions a e = rw (nil_lem _ bytes total versions e) refl
  selected_lem time (x ∷ xs) begun bytes total versions a e =
      let (size, (rest, (f, c))) = step_lem _ bytes x xs total versions e in
      elim (Bool-cases (ltb time x)) [
        | inl later ↦ rw later (
            none_begun time (S begun) (x ∷ xs) _ bytes total versions
              (
                ltb→lt time x later,
                All-mono (λ y. x ≤ y) (λ y. time < y) xs (λ y k. ground (arith, later, k)) a.0,
              )
              e)
        | inr came ↦ rw came (elim c [
          | inl (same, v) ↦ rw v (
              ap (λ s. select_version time s rest) (sym (json_apart x begun same))
              ∙ selected_lem time xs x size total rest a.1 f)
          | inr v ↦ rw v (rw came (selected_lem time xs x size total rest a.1 f))
        ])
      ]

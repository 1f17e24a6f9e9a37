-- ===== src/Catalog/Build/Times.antt =====
-- web/lib/materialized-catalog.ts, the boundaries: eligibility changes at no other time.
use event_recommender.Prelude.{
  ℕ, ◌+◌, ◌-◌, ◌≤◌, Bool, true, false, Option, none, some, List, [], ◌∷◌, if◌then◌else◌, ltb, ◌==◌,
  ==_iff, ◌≡◌, refl, sym, ap₂, subst, ◌⊎◌, inl, inr, Bool-cases, All, All-mono, arith,
}
use event_recommender.Prelude.Sorting.{insert_by, sort_by, All-insert_by}
use event_recommender.Catalog.Event.{CatalogEvent, empty_filters}
use event_recommender.Catalog.Eligible.{Readings, in_force, eligible_times, is_eligible}
use event_recommender.Catalog.Offers.{Texts, keep}
use event_recommender.Catalog.Project.{EvidenceChecks}
use event_recommender.Catalog.Build.{
  Resolution, add_time, add_later, time_plus, time_minus, boundaries,
}

pub keep-cong {ℓ} :
    {A : Type ℓ} (p q : A → Bool) (xs : List A) → All (λ x. p x ≡ q x) xs → keep p xs ≡ keep q xs
unfolding keep
keep-cong p q [] h = refl
keep-cong p q (x ∷ xs) h = ap₂ (λ b rest. if b then x ∷ rest else rest) h.0 (keep-cong p q xs h.1)

abbrev pub IsAscending : List ℕ → Type 0
IsAscending [] = Unit
IsAscending (x ∷ xs) = All (λ y. x ≤ y) xs × IsAscending xs

insert_by-IsAscending : (x : ℕ) (ys : List ℕ) → IsAscending ys → IsAscending (insert_by ltb x ys)
insert_by-IsAscending x [] h = (tt, tt)
insert_by-IsAscending x (y ∷ ys) h = elim (Bool-cases (ltb y x)) [
  | inl e ↦
      rw e (
        All-insert_by (λ z. y ≤ z) ltb x ys (ground (arith, e)) h.0,
        insert_by-IsAscending x ys h.1,
      )
  | inr e ↦ rw e (
    (ground (arith, e), All-mono (λ z. y ≤ z) (λ z. x ≤ z) ys (λ z k. ground (arith, e, k)) h.0),
    h,
  )
]

pub sort_by-IsAscending : (xs : List ℕ) → IsAscending (sort_by ltb xs)
unfolding sort_by
sort_by-IsAscending [] = tt
sort_by-IsAscending (x ∷ xs) = insert_by-IsAscending x (sort_by ltb xs) (sort_by-IsAscending xs)

-- The last of ascending times that is not after `time`.
unfoldable pub last_begun : (time begun : ℕ) → List ℕ → ℕ
last_begun time begun [] = begun
last_begun time begun (x ∷ xs) =
    let rest = last_begun time x xs in if ltb time x then begun else rest

-- A time that has come has come at b.
abbrev pub CameBy : (time b x : ℕ) → Type 0
CameBy time b x = (ltb time x ≡ true) ⊎ (x ≤ b)

All-later :
    (time b x : ℕ) (xs : List ℕ) → ltb time x ≡ true → All (λ y. x ≤ y) xs → All (CameBy time b) xs
All-later time b x xs h =
    All-mono (λ y. x ≤ y) (CameBy time b) xs (λ y k. inl (ground (arith, h, k)))

pub last_begun_lem :
    (time begun : ℕ) (xs : List ℕ)
    → IsAscending xs
    → All (λ x. begun ≤ x) xs
    → begun ≤ time
    → (begun ≤ last_begun time begun xs)
      × ((last_begun time begun xs ≤ time) × All (CameBy time (last_begun time begun xs)) xs)
unfolding last_begun
last_begun_lem time begun [] a h k = (omega arith, (k, tt))
last_begun_lem time begun (x ∷ xs) a h k = elim (Bool-cases (ltb time x)) [
  | inl e ↦ here begun (rw e refl) (omega arith, (k, (inl e, All-later time begun x xs e a.0)))
  | inr e ↦
      let (low, (come, rest)) = last_begun_lem time x xs a.1 a.0 (ground (arith, e)) in
      here (last_begun time x xs) (rw e refl) (omega (arith, low, h.0), (come, (inr low, rest)))
]
  where
    Right : ℕ → Type 0
    Right b = (begun ≤ b) × ((b ≤ time) × All (CameBy time b) (x ∷ xs))

    here :
        (b : ℕ)
        → last_begun time begun (x ∷ xs) ≡ b
        → Right b
        → Right (last_begun time begun (x ∷ xs))
    here b e r = subst Right (sym e) r

module _ (P : ℕ → Type 0) where
  All-of-add_time : (times : List ℕ) (time : ℕ) → All P (add_time times time) → All P times × P time
  All-of-add_time [] time h = (tt, h.0)
  All-of-add_time (t ∷ ts) time h = elim (Bool-cases (t == time)) [
    | inl e ↦ let k : All P (t ∷ ts) = rw e at h in (k, subst P ((==_iff t time).0 e) k.0)
    | inr e ↦
        let k : All P (t ∷ add_time ts time) = rw e at h in
        let (rest, p) = All-of-add_time ts time k.1 in ((k.0, rest), p)
  ]

  -- It holds of the time, if there is one and it is later.
  abbrev pub IfLater : (at : ℕ) → Option ℕ → Type 0
  IfLater at none = Unit
  IfLater at (some time) = (ltb at time ≡ false) ⊎ P time

  All-of-add_later :
      (at : ℕ) (times : List ℕ) (o : Option ℕ)
      → All P (add_later at times o)
      → All P times × IfLater at o
  All-of-add_later at times none h = (h, tt)
  All-of-add_later at times (some time) h = elim (Bool-cases (ltb at time)) [
    | inl e ↦ let (rest, p) = All-of-add_time times time (rw e at h) in (rest, inr p)
    | inr e ↦ (rw e at h, inl e)
  ]

  module _ (readings : Readings) (texts : Texts) (evidence : EvidenceChecks)
      (resolution : Resolution) (at : ℕ) where
    abbrev pub AtBoundaries : CatalogEvent → Type 0
    AtBoundaries e =
        IfLater at (time_minus 300_000 (readings.date_parse e.checked_at))
        × (IfLater at (time_plus 259_200_001 (readings.date_parse e.checked_at))
            × IfLater at (time_plus 1 (readings.date_parse e.starts_at)))

    pub All-of-boundaries :
        (es : List CatalogEvent) (found : List ℕ)
        → All P (boundaries readings texts evidence resolution at found es)
        → All P found × All AtBoundaries es
    unfolding boundaries
    All-of-boundaries [] found h = (h, tt)
    All-of-boundaries (e ∷ es) found h =
        let (three, rest) = All-of-boundaries es _ h in
        let (two, begun) = All-of-add_later at _ _ three in
        let (one, expired) = All-of-add_later at _ _ two in
        let (none_yet, checked) = All-of-add_later at _ _ one in
        (none_yet, ((checked, (expired, begun)), rest))

in_force_same :
    (readings : Readings) (at b time start checked : ℕ)
    → at ≤ b
    → b ≤ time
    → IfLater (CameBy time b) at (some (checked - 300_000))
    → IfLater (CameBy time b) at (some (checked + 259_200_001))
    → IfLater (CameBy time b) at (some (start + 1))
    → in_force readings start checked b ≡ in_force readings start checked time
in_force_same readings at b time start checked h k c x s = ground arith

-- Between two times that no boundary separates, an event stays eligible or not.
pub eligible_same :
    (readings : Readings) (texts : Texts) (evidence : EvidenceChecks) (resolution : Resolution)
    (at b time : ℕ) (e : CatalogEvent)
    → at ≤ b
    → b ≤ time
    → AtBoundaries (CameBy time b) readings texts evidence resolution at e
    → is_eligible readings e empty_filters b ≡ is_eligible readings e empty_filters time
unfolding is_eligible
eligible_same readings texts evidence resolution at b time e h k (c, (x, s)) =
    by_times (readings.date_parse e.starts_at) (readings.date_parse e.checked_at) c x s
  where
    by_times :
        (start checked : Option ℕ)
        → IfLater (CameBy time b) at (time_minus 300_000 checked)
        → IfLater (CameBy time b) at (time_plus 259_200_001 checked)
        → IfLater (CameBy time b) at (time_plus 1 start)
        → eligible_times readings start checked e empty_filters b
          ≡ eligible_times readings start checked e empty_filters time
    by_times none checked c x s = refl
    by_times (some start) none c x s = refl
    by_times (some start) (some checked) c x s =
        rw (in_force_same readings at b time start checked h k c x s) refl

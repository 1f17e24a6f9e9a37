-- ===== src/Prelude/Sorting.antt =====
-- Array.prototype.sort and sets of strings.
use mathlib.Core.Bool.{Bool}
use mathlib.Core.List.{List, [], ◌∷◌, ◌++◌, Memᴰ}
use mathlib.Core.Path.{subst, sym}
use event_recommender.Prelude.Tests.{if◌then◌else◌, Bool-cases}
use event_recommender.Prelude.Lists.{All}
use event_recommender.Prelude.Text.{Text, includes, text_le}
use mathlib.Core.Logic.{inl, inr}

pub All-member {ℓ κ} :
    {A : Type ℓ} (P : A → Type κ) (x : A) (xs : List A) → All P xs → Memᴰ x xs → P x
All-member P x [] h m = elim m [ ]
All-member P x (y ∷ ys) h (Memᴰ.head e) = subst P (sym e) h.0
All-member P x (y ∷ ys) h (Memᴰ.tail m) = All-member P x ys h.1 m

-- A stable sort by a comparison.
abbrev pub insert_by {ℓ} : {A : Type ℓ} → (A → A → Bool) → A → List A → List A
insert_by before x [] = x ∷ []
insert_by before x (y ∷ ys) =
    let rest = insert_by before x ys in if before y x then y ∷ rest else x ∷ y ∷ ys

unfoldable pub sort_by {ℓ} : {A : Type ℓ} → (A → A → Bool) → List A → List A
sort_by before [] = []
sort_by before (x ∷ xs) = insert_by before x (sort_by before xs)

module _ {ℓ κ} {A : Type ℓ} (P : A → Type κ) (before : A → A → Bool) where
  pub All-insert_by : (x : A) (ys : List A) → P x → All P ys → All P (insert_by before x ys)
  All-insert_by x [] p h = (p, tt)
  All-insert_by x (y ∷ ys) p h = elim (Bool-cases (before y x)) [
    | inl e ↦ rw e (h.0, All-insert_by x ys p h.1)
    | inr e ↦ rw e (p, h)
  ]

  pub All-sort_by : (xs : List A) → All P xs → All P (sort_by before xs)
  unfolding sort_by
  All-sort_by [] h = tt
  All-sort_by (x ∷ xs) h = All-insert_by x (sort_by before xs) h.0 (All-sort_by xs h.1)

  All-of-insert_by : (x : A) (ys : List A) → All P (insert_by before x ys) → P x × All P ys
  All-of-insert_by x [] h = h
  All-of-insert_by x (y ∷ ys) h = elim (Bool-cases (before y x)) [
    | inl e ↦
        let k : All P (y ∷ insert_by before x ys) = rw e at h in
        let (p, rest) = All-of-insert_by x ys k.1 in (p, (k.0, rest))
    | inr e ↦ let k : All P (x ∷ y ∷ ys) = rw e at h in k
  ]

  -- What holds of all that is sorted held of all.
  pub All-of-sort_by : (xs : List A) → All P (sort_by before xs) → All P xs
  unfolding sort_by
  All-of-sort_by [] h = tt
  All-of-sort_by (x ∷ xs) h =
      let (p, rest) = All-of-insert_by x (sort_by before xs) h in (p, All-of-sort_by xs rest)

-- The sort of strings, by UTF-16 code units.
abbrev pub insert_text : Text → List Text → List Text
unfolding text_le
insert_text t [] = t ∷ []
insert_text t (s ∷ ss) = let rest = insert_text t ss in if text_le t s then t ∷ s ∷ ss else s ∷ rest

unfoldable pub sort_texts : List Text → List Text
sort_texts [] = []
sort_texts (t ∷ ts) = insert_text t (sort_texts ts)

-- The members of a Set, in order of insertion, after some are added.
abbrev pub distinct_onto : (kept rest : List Text) → List Text
unfolding includes
distinct_onto kept [] = kept
distinct_onto kept (t ∷ ts) =
    if includes kept t then distinct_onto kept ts else distinct_onto (kept ++ t ∷ []) ts

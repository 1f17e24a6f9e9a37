-- ===== src/Prelude/Sums.antt =====
-- Sums over lists, and how often a text stands in a list.
use Prim.Native.Nat.{ℕ, suc, ◌+◌}
use mathlib.Core.Path.{◌≡◌, refl, ap, ◌∙◌}
use mathlib.Core.Bool.{Bool}
use mathlib.Core.List.{List, [], ◌∷◌, ◌++◌}
use native.Mathlib.Omega.{arith}
use event_recommender.Prelude.Tests.{if◌then◌else◌}
use event_recommender.Prelude.Text.{Text, text_eq}
use event_recommender.Prelude.Sorting.{insert_by, sort_by}

unfoldable pub sum_of {ℓ} : {A : Type ℓ} → (A → ℕ) → List A → ℕ
sum_of f [] = 0
sum_of f (x ∷ xs) = f x + sum_of f xs

pub sum_of-insert_by {ℓ} :
    {A : Type ℓ} (f : A → ℕ) (before : A → A → Bool) (x : A) (ys : List A)
    → sum_of f (insert_by before x ys) ≡ f x + sum_of f ys
unfolding sum_of
sum_of-insert_by f before x [] = refl
sum_of-insert_by f before x (y ∷ ys) = ground (arith, sum_of-insert_by f before x ys)

pub sum_of-sort_by {ℓ} :
    {A : Type ℓ} (f : A → ℕ) (before : A → A → Bool) (xs : List A)
    → sum_of f (sort_by before xs) ≡ sum_of f xs
unfolding sum_of sort_by
sum_of-sort_by f before [] = refl
sum_of-sort_by f before (x ∷ xs) =
    sum_of-insert_by f before x (sort_by before xs) ∙ ap (λ n. f x + n) (sum_of-sort_by f before xs)

pub sum_of-append {ℓ} :
    {A : Type ℓ} (f : A → ℕ) (xs ys : List A) → sum_of f (xs ++ ys) ≡ sum_of f xs + sum_of f ys
unfolding sum_of
sum_of-append f [] ys = omega arith
sum_of-append f (x ∷ xs) ys = omega (arith, sum_of-append f xs ys)

-- How often a text stands in a list.
unfoldable pub times : Text → List Text → ℕ
times t [] = 0
times t (s ∷ ss) = let rest = times t ss in if text_eq s t then suc rest else rest

-- ===== src/Prelude/Distinct.antt =====
-- Lists of texts in which no text occurs twice.
use mathlib.Core.List.{List, [], ◌∷◌, ◌++◌, append_assoc}
use mathlib.Core.Path.{◌≡◌, refl}
use mathlib.Core.Bool.{false, ◌||◌}
use native.Mathlib.Omega.{arith}
use event_recommender.Prelude.Text.{Text, text_eq, text_eq_iff, text_eq_refl, includes}

abbrev pub IsDistinct : List Text → Type 0
IsDistinct [] = Unit
IsDistinct (x ∷ xs) = (includes xs x ≡ false) × IsDistinct xs

pub includes-append :
    (xs ys : List Text) (t : Text) → includes (xs ++ ys) t ≡ (includes xs t || includes ys t)
unfolding includes
includes-append [] ys t = refl
includes-append (x ∷ xs) ys t = ground (arith, includes-append xs ys t)

pub text_eq_sym : (s t : Text) → text_eq s t ≡ text_eq t s
text_eq_sym s t = ground (arith, text_eq_iff s t, text_eq_iff t s)

pub IsDistinct-snoc :
    (xs : List Text) (x : Text) → IsDistinct xs → includes xs x ≡ false → IsDistinct (xs ++ x ∷ [])
unfolding includes
IsDistinct-snoc [] x d h = (refl, tt)
IsDistinct-snoc (y ∷ xs) x d h = (
  ground (arith, includes-append xs (x ∷ []) y, text_eq_sym x y),
  IsDistinct-snoc xs x d.1 (ground arith),
)

pub IsDistinct-left : (xs ys : List Text) → IsDistinct (xs ++ ys) → IsDistinct xs
IsDistinct-left [] ys d = tt
IsDistinct-left (x ∷ xs) ys d = (ground (arith, includes-append xs ys x), IsDistinct-left xs ys d.1)

pub IsDistinct-right : (xs ys : List Text) → IsDistinct (xs ++ ys) → IsDistinct ys
IsDistinct-right [] ys d = d
IsDistinct-right (x ∷ xs) ys d = IsDistinct-right xs ys d.1

-- What comes later in a distinct list does not occur before.
pub includes_before :
    (xs ys : List Text) (x : Text) → IsDistinct (xs ++ x ∷ ys) → includes xs x ≡ false
unfolding includes
includes_before [] ys x d = refl
includes_before (y ∷ xs) ys x d = ground (
  arith,
  includes-append xs (x ∷ ys) y,
  text_eq_sym x y,
  text_eq_refl x,
  includes_before xs ys x d.1,
)

pub includes_after :
    (xs ys : List Text) (x : Text) → IsDistinct (xs ++ x ∷ ys) → includes ys x ≡ false
includes_after xs ys x d = (IsDistinct-right xs (x ∷ ys) d).0

pub IsDistinct-regroup :
    (xs ys zs : List Text) → IsDistinct (xs ++ (ys ++ zs)) → IsDistinct ((xs ++ ys) ++ zs)
IsDistinct-regroup xs ys zs d = rw append_assoc d

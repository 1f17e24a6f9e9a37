-- ===== src/Prelude/Double.antt =====
-- Integers as JavaScript numbers: exact up to 2^53, from there rounded to 53 binary digits.
use native.Mathlib.Nat.{le-div_iff_mul-le}
use event_recommender.Prelude.{
  ℕ, zero, suc, ◌+◌, ◌*◌, ◌/◌, ◌%◌, ◌≤◌, ◌<◌, ◌≡◌, ◌⊎◌, refl, inl, inr, Bool, true, false, ◌||◌,
  ◌&&◌, ltb, ◌==◌, if◌then◌else◌, arith, Bool-cases, sym, subst, ap,
}

-- 2 ^ 53; Number.MAX_SAFE_INTEGER is one less.
abbrev pub exact_limit : ℕ
exact_limit = 9_007_199_254_740_992

-- The multiple of `unit` nearest to `n`, and of two the one with the even quotient.
abbrev nearest : (unit n : ℕ) → ℕ
nearest unit n =
    if ltb (n % unit * 2) unit || (n % unit * 2 == unit && n / unit % 2 == 0)
    then n / unit * unit
    else (n / unit + 1) * unit

-- The distance of the numbers around `n`: the least power of two, from `unit` on, of which `n` has
-- fewer than 2 ^ 53. A finite number needs fewer than 1024 doublings.
unit_on : (fuel unit n : ℕ) → ℕ
unit_on zero unit n = unit
unit_on (suc fuel) unit n = elim (ltb n (exact_limit * unit)) [
  | true ↦ unit
  | false ↦ unit_on fuel (unit * 2) n
]

unfoldable pub double_of : ℕ → ℕ
unfolding unit_on
double_of n = nearest (unit_on 1_024 1 n) n

at_limit : double_of exact_limit ≡ exact_limit
unfolding double_of unit_on
at_limit = refl

nearest_one : (n : ℕ) → nearest 1 n ≡ n
nearest_one n = ground arith

unit_on-stops :
    (fuel unit n : ℕ) → ltb n (exact_limit * unit) ≡ true → unit_on (suc fuel) unit n ≡ unit
unfolding unit_on
unit_on-stops fuel unit n h = ap (λ b. elim b [ true ↦ unit | false ↦ unit_on fuel (unit * 2) n ]) h

unit_on-goes :
    (fuel unit n : ℕ)
    → ltb n (exact_limit * unit) ≡ false
    → unit_on (suc fuel) unit n ≡ unit_on fuel (unit * 2) n
unfolding unit_on
unit_on-goes fuel unit n h = ap (λ b. elim b [ true ↦ unit | false ↦ unit_on fuel (unit * 2) n ]) h

pub double_of-exact : (n : ℕ) → n ≤ exact_limit → double_of n ≡ n
unfolding double_of
double_of-exact n h = elim (Bool-cases (ltb n (exact_limit * 1))) [
  | inl below ↦ rw (unit_on-stops 1_023 1 n below) (nearest_one n)
  | inr above ↦
      let e : n ≡ exact_limit = ground arith in subst (λ k. double_of k ≡ k) (sym e) at_limit
]

-- What is known of the distance: it is one, or `n` is not below 2 ^ 52 times it.
abbrev FitsUnit : ℕ → ℕ → Type 0
FitsUnit n u = (u ≡ 1) ⊎ (2 ≤ u) × (4_503_599_627_370_496 * u ≤ n)

unit_on-FitsUnit : (fuel unit n : ℕ) → FitsUnit n unit → FitsUnit n (unit_on fuel unit n)
unfolding unit_on
unit_on-FitsUnit zero unit n h = h
unit_on-FitsUnit (suc fuel) unit n h = elim (Bool-cases (ltb n (exact_limit * unit))) [
  | inl below ↦ subst (FitsUnit n) (sym (unit_on-stops fuel unit n below)) h
  | inr above ↦
      subst (FitsUnit n) (sym (unit_on-goes fuel unit n above))
        (unit_on-FitsUnit fuel (unit * 2) n (ground arith))
]

product_large : (q u : ℕ) → 4_503_599_627_370_496 ≤ q → 2 ≤ u → exact_limit ≤ q * u
product_large q u hq hu = grind arith

nearest_large : (u n : ℕ) → FitsUnit n u → exact_limit ≤ n → exact_limit ≤ nearest u n
nearest_large u n (inl e) h = rw e (rw (nearest_one n) h)
nearest_large u n (inr (two, scaled)) h =
    let q : 4_503_599_627_370_496 ≤ n / u = (le-div_iff_mul-le (omega arith)).1 scaled in
    go _ (product_large (n / u) u q two) (product_large (n / u + 1) u (omega (arith, q)) two)
  where
    go :
        (b : Bool) {x y : ℕ}
        → exact_limit ≤ x
        → exact_limit ≤ y
        → exact_limit ≤ (if b then x else y)
    go b hx hy = ground arith

-- A number that is rounded stays out of the exact range.
pub double_of-large : (n : ℕ) → exact_limit ≤ n → exact_limit ≤ double_of n
unfolding double_of
double_of-large n h = nearest_large _ n (unit_on-FitsUnit 1_024 1 n (inl refl)) h

-- A number that is in the exact range was not rounded.
pub le-double_of : (n : ℕ) → double_of n < exact_limit → n ≤ double_of n
le-double_of n h = elim (Bool-cases (ltb exact_limit n)) [
  | inl large ↦ absurd (omega (arith, h, double_of-large n (above_limit n large)))
  | inr small ↦ rw (double_of-exact n (within_limit n small)) (omega arith)
]
  where
    above_limit : (n : ℕ) → ltb exact_limit n ≡ true → exact_limit ≤ n
    above_limit n h = ground arith

    within_limit : (n : ℕ) → ltb exact_limit n ≡ false → n ≤ exact_limit
    within_limit n h = ground arith

-- ===== src/Prelude/Decimal.antt =====
-- `String(n)` and `Number(digits)` for nonnegative integers.
use Prim.Native.Nat.{ℕ, zero, suc, ◌+◌, ◌-◌, ◌*◌, ◌/◌, ◌%◌, ◌≤◌, ◌<◌}
use mathlib.Core.Path.{◌≡◌, refl}
use mathlib.Core.Logic.{◌≢◌}
use mathlib.Core.Bool.{Bool, true, ◌&&◌}
use mathlib.Core.List.{[], ◌∷◌, ◌++◌}
use native.Mathlib.Omega.{arith}
use event_recommender.Prelude.Tests.{ltb, leb, if◌then◌else◌}
use event_recommender.Prelude.Lists.{every}
use event_recommender.Prelude.Text.{Text}

unfoldable pub is_digit : ℕ → Bool
is_digit c = leb b'0' c && leb c b'9'

-- The decimal digits of `n`, on fuel; `n` rounds are enough.
digits_on : ℕ → ℕ → Text
digits_on zero n = (b'0' + n % 10) ∷ []
digits_on (suc fuel) n =
    let rest = digits_on fuel (n / 10) ++ (b'0' + n % 10) ∷ [] in
    if ltb n 10 then (b'0' + n) ∷ [] else rest

unfoldable pub decimal : ℕ → Text
unfolding digits_on
decimal n = digits_on n n

unfoldable pub scan : ℕ → Text → ℕ
scan acc [] = acc
scan acc (c ∷ s) = scan (acc * 10 + (c - b'0')) s

scan-append : (acc : ℕ) (s : Text) (c : ℕ) → scan acc (s ++ c ∷ []) ≡ scan acc s * 10 + (c - b'0')
unfolding scan
scan-append acc [] c = refl
scan-append acc (d ∷ s) c = scan-append (acc * 10 + (d - b'0')) s c

scan-digits_on : (fuel n : ℕ) → n ≤ fuel → scan 0 (digits_on fuel n) ≡ n
unfolding digits_on scan
scan-digits_on zero n h = omega arith
scan-digits_on (suc fuel) n h =
    ground
      (arith, scan-append 0 (digits_on fuel (n / 10)) (b'0' + n % 10), scan-digits_on fuel (n / 10))

pub scan-decimal : (n : ℕ) → scan 0 (decimal n) ≡ n
unfolding decimal
scan-decimal n = scan-digits_on n n (omega arith)

every_digit_snoc :
    (s : Text) (c : ℕ)
    → every is_digit s ≡ true
    → is_digit c ≡ true
    → every is_digit (s ++ c ∷ []) ≡ true
unfolding every
every_digit_snoc [] c h k = ground arith
every_digit_snoc (d ∷ s) c h k = ground (arith, every_digit_snoc s c)

is_digit_of : (d : ℕ) → d < 10 → is_digit (b'0' + d) ≡ true
unfolding is_digit
is_digit_of d h = ground arith

every_digit-digits_on : (fuel n : ℕ) → every is_digit (digits_on fuel n) ≡ true
unfolding digits_on every
every_digit-digits_on zero n = ground (arith, is_digit_of (n % 10))
every_digit-digits_on (suc fuel) n = ground (
  arith,
  is_digit_of n,
  is_digit_of (n % 10),
  every_digit-digits_on fuel (n / 10),
  every_digit_snoc (digits_on fuel (n / 10)) (b'0' + n % 10),
)

pub every_digit-decimal : (n : ℕ) → every is_digit (decimal n) ≡ true
unfolding decimal
every_digit-decimal n = every_digit-digits_on n n

snoc-ne-nil : (s : Text) (c : ℕ) → s ++ c ∷ [] ≢ []
snoc-ne-nil [] c = cc
snoc-ne-nil (d ∷ s) c = cc

digits_on-ne-nil : (fuel n : ℕ) → digits_on fuel n ≢ []
unfolding digits_on
digits_on-ne-nil zero n = cc
digits_on-ne-nil (suc fuel) n =
    ground (arith, snoc-ne-nil (digits_on fuel (n / 10)) (b'0' + n % 10))

pub decimal-ne-nil : (n : ℕ) → decimal n ≢ []
unfolding decimal
decimal-ne-nil n = digits_on-ne-nil n n

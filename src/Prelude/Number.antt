-- ===== src/Prelude/Number.antt =====
-- JavaScript numbers with at most six decimal places: prices, counts and probabilities.
use Prim.Native.Nat.{ℕ, zero, suc, ◌+◌, ◌*◌, ◌/◌, ◌%◌}
use mathlib.Core.Bool.{Bool, true, false}
use event_recommender.Prelude.Tests.{leb, ltb, ◌==◌}

-- `millionths n` is n / 10^6 and `minus n` is -(n + 1) / 10^6.
pub data Number : Type 0 where
  nan minus_infinity infinity : Number
  millionths minus : ℕ → Number

abbrev pub num : ℕ → Number
num n = millionths (n * 1_000_000)

-- Number.isFinite
unfoldable pub is_finite : Number → Bool
is_finite (millionths n) = true
is_finite (minus n) = true
is_finite _ = false

-- Number.isInteger
unfoldable pub is_integer : Number → Bool
is_integer (millionths n) = n % 1_000_000 == 0
is_integer (minus n) = (n + 1) % 1_000_000 == 0
is_integer _ = false

-- a <= b
unfoldable pub num_le : Number → Number → Bool
num_le nan b = false
num_le minus_infinity nan = false
num_le minus_infinity b = true
num_le infinity infinity = true
num_le infinity b = false
num_le (millionths m) infinity = true
num_le (millionths m) (millionths n) = leb m n
num_le (millionths m) b = false
num_le (minus m) infinity = true
num_le (minus m) (millionths n) = true
num_le (minus m) (minus n) = leb n m
num_le (minus m) b = false

-- a < b
unfoldable pub num_lt : Number → Number → Bool
num_lt nan b = false
num_lt minus_infinity nan = false
num_lt minus_infinity minus_infinity = false
num_lt minus_infinity b = true
num_lt infinity b = false
num_lt (millionths m) infinity = true
num_lt (millionths m) (millionths n) = ltb m n
num_lt (millionths m) b = false
num_lt (minus m) infinity = true
num_lt (minus m) (millionths n) = true
num_lt (minus m) (minus n) = ltb n m
num_lt (minus m) b = false

-- a === b
unfoldable pub num_eq : Number → Number → Bool
num_eq minus_infinity minus_infinity = true
num_eq infinity infinity = true
num_eq (millionths m) (millionths n) = m == n
num_eq (minus m) (minus n) = m == n
num_eq _ _ = false

-- -n / 10^6
abbrev pub negated : ℕ → Number
negated zero = millionths 0
negated (suc n) = minus n

-- a * b, which is exact if a factor is an integer; other products drop what is below 10^-6.
unfoldable pub num_times : Number → Number → Number
num_times (millionths a) (millionths b) = millionths (a * b / 1_000_000)
num_times (millionths a) (minus b) = negated (a * (b + 1) / 1_000_000)
num_times (minus a) (millionths b) = negated ((a + 1) * b / 1_000_000)
num_times (minus a) (minus b) = millionths ((a + 1) * (b + 1) / 1_000_000)
num_times (millionths zero) infinity = nan
num_times (millionths zero) minus_infinity = nan
num_times infinity (millionths zero) = nan
num_times minus_infinity (millionths zero) = nan
num_times (millionths a) infinity = infinity
num_times (millionths a) minus_infinity = minus_infinity
num_times infinity (millionths b) = infinity
num_times minus_infinity (millionths b) = minus_infinity
num_times (minus a) infinity = minus_infinity
num_times (minus a) minus_infinity = infinity
num_times infinity (minus b) = minus_infinity
num_times minus_infinity (minus b) = infinity
num_times infinity infinity = infinity
num_times infinity minus_infinity = minus_infinity
num_times minus_infinity infinity = minus_infinity
num_times minus_infinity minus_infinity = infinity
num_times _ _ = nan

-- ===== src/Store/Limits/Whole.antt =====
-- Whole numbers as the limits, counts and times of web/lib/store.gcp.ts, `consumeLimit`.
use event_recommender.Prelude.{
  ℕ, suc, ◌*◌, ◌%◌, ◌≤◌, ◌≡◌, refl, ap, ◌∙◌, true, ltb, leb, le→leb, arith,
}
use event_recommender.Prelude.Number.{Number, num, is_integer, num_le, num_lt}
use event_recommender.Store.Leases.{is_safe_integer}
use event_recommender.Store.Limits.{next_count, valid_count}

pub num_le-num : (a b : ℕ) → num_le (num a) (num b) ≡ leb a b
unfolding num_le
num_le-num a b = ground arith

pub num_lt-num : (a b : ℕ) → num_lt (num a) (num b) ≡ ltb a b
unfolding num_lt
num_lt-num a b = ground arith

is_integer-num : (n : ℕ) → is_integer (num n) ≡ true
unfolding is_integer
is_integer-num n = rw (modulo n) refl
  where
    modulo : (n : ℕ) → n * 1_000_000 % 1_000_000 ≡ 0
    modulo n = omega arith

num_le_minus : (a b : ℕ) → num_le (Number.minus a) (num b) ≡ true
unfolding num_le
num_le_minus a b = refl

pub safe_num : (n : ℕ) → n ≤ 9_007_199_254_740_991 → is_safe_integer (num n) ≡ true
unfolding is_safe_integer
safe_num n h = rw (is_integer-num n) (
    rw (num_le_minus 9_007_199_254_740_990_999_999 n)
      (num_le-num n 9_007_199_254_740_991 ∙ le→leb n 9_007_199_254_740_991 h))

pub valid_num : (n : ℕ) → n ≤ 9_007_199_254_740_991 → valid_count (num n) ≡ true
valid_num n h = rw (safe_num n h) (rw (num_lt-num n 0) (ground arith))

pub next_num : (n : ℕ) → next_count (num n) ≡ num (suc n)
next_num n = ap Number.millionths (omega arith)

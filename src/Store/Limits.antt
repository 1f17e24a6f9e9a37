-- ===== src/Store/Limits.antt =====
-- web/lib/store.gcp.ts, lines 588 to 610: the counters of rate limits, one transaction per request.
pub mod Whole
pub mod Exact
use event_recommender.Prelude.{
  ℕ, ◌+◌, Bool, true, false, ◌&&◌, not, Option, none, some, if◌then◌else◌, Result, ok, err, guard,
  ◌>>◌,
}
use event_recommender.Prelude.Text.{Text}
use event_recommender.Prelude.Number.{
  Number, num, millionths, minus, negated, nan, infinity, is_finite, num_le, num_lt,
}
use event_recommender.Store.{Counter, Documents, set_at}
use event_recommender.Store.Leases.{is_safe_integer}

-- count + 1, where the count is an integer that is not negative
abbrev pub next_count : Number → Number
next_count (millionths n) = millionths (n + 1_000_000)
next_count n = n

-- The count of a counter that has not expired, or 0.
abbrev pub live_count : Option Counter → ℕ → Number
live_count none time = num 0
live_count (some c) time = if num_lt (num time) c.expires_at then c.count else num 0

abbrev pub valid_limit : Number → Number → Bool
valid_limit limit expires_at =
    is_safe_integer limit && not (num_lt limit (num 1)) && is_finite expires_at

abbrev pub valid_count : Number → Bool
valid_count count = is_safe_integer count && not (num_lt count (num 0))

-- The transaction: whether the request is admitted, and the counters after it.
unfoldable pub count_request :
    Documents Counter
    → (path : Text) (time : ℕ) (limit expires_at : Number) → Result (Bool × Documents Counter)
count_request limits path time limit expires_at =
    let count = live_count (limits path) time in
    if num_le expires_at (num time)
    then ok (false, limits)
    else guard (valid_count count) "Invalid request counter"
      >> (if num_le limit count
          then ok (false, limits)
          else ok (
            true,
            set_at limits path
                (some (record { count = next_count count; expires_at = expires_at })),
          ))

unfoldable pub consume_limit :
    (digest : Text → Text) (limits : Documents Counter) (time : ℕ) (key : Text)
    (limit expires_at : Number)
    → Result (Bool × Documents Counter)
consume_limit digest limits time key limit expires_at =
    guard (valid_limit limit expires_at) "Invalid request limit"
    >> count_request limits (digest key) time limit expires_at

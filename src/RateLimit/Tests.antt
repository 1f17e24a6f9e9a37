-- ===== src/RateLimit/Tests.antt =====
-- Requests of a concrete visitor.
use event_recommender.Prelude.{ℕ, suc, ◌≡◌, refl, Bool, true, false, List, [], ◌∷◌, ◌++◌, ltb, All}
use event_recommender.Prelude.Text.{Text, codes}
use event_recommender.RateLimit.{LimitBucket, hour, minute, request_limit_buckets, consume_buckets}
use event_recommender.RateLimit.Retry.{
  RefusedAt, refusal_names_bucket, IsOpen, request_windows-IsOpen,
}

-- A consumer that counts the requests it is asked for, and refuses the second.
abbrev one_only : ℕ → Text → ℕ → ℕ → Bool × ℕ
one_only count key limit expires_at = (ltb count 1, suc count)

abbrev buckets : List LimitBucket
buckets =
    record { key = codes "m"; limit = 5; expires_at = 60_000; scope = minute }
    ∷ record { key = codes "h"; limit = 20; expires_at = 3_600_000; scope = hour }
    ∷ []

second_refused : (consume_buckets one_only 0 buckets 59_999).0.allowed ≡ false
unfolding consume_buckets
second_refused = refl

refusal_names_bucket_example :
    (before : List LimitBucket) × (bucket : LimitBucket) × (after : List LimitBucket) × (buckets
      ≡ before ++ bucket ∷ after)
    × RefusedAt one_only 0 before bucket 59_999 (consume_buckets one_only 0 buckets 59_999)
refusal_names_bucket_example = refusal_names_bucket one_only 0 buckets 59_999 second_refused

request_windows-IsOpen_example :
    All (IsOpen 59_999) (request_limit_buckets (codes "ip") true 59_999)
request_windows-IsOpen_example = request_windows-IsOpen (codes "ip") true 59_999

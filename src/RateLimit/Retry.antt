-- ===== src/RateLimit/Retry.antt =====
-- web/lib/rate-limit.ts: what a visitor is told who has to wait.
use event_recommender.Prelude.{
  ℕ, ◌+◌, ◌*◌, ◌/◌, ◌≤◌, ◌<◌, ◌≡◌, ◌⊎◌, refl, ap, inl, inr, Bool, true, false, some, List, [], ◌∷◌,
  ◌++◌, Bool-cases, All, arith,
}
use event_recommender.Prelude.Text.{Text}
use event_recommender.RateLimit.{
  RateLimitResult, LimitBucket, request_limit_buckets, seconds_until, consume_buckets,
}

-- The wait is the whole number of seconds that is just enough, and at least one.
pub record IsWait (now expires_at wait : ℕ) : Type 0 where
  pub waits : 1 ≤ wait
  pub enough : expires_at ≤ now + wait * 1_000
  pub least : (wait ≡ 1) ⊎ (now + wait * 1_000 < expires_at + 1_000)

seconds_until-IsWait : (now expires_at : ℕ) → IsWait now expires_at (seconds_until now expires_at)
unfolding seconds_until
seconds_until-IsWait now expires_at = record {
  waits = ground arith;
  enough = ground arith;
  least = ground arith;
}

module _ {ℓ} {S : Type ℓ} (consume : S → Text → ℕ → ℕ → Bool × S) where
  -- The consumer admits these buckets one after the other, from the one state to the other.
  pub data Admits : S → List LimitBucket → S → Type ℓ where
    nothing : {s : S} → Admits s [] s
    then_next :
        {s t : S} {b : LimitBucket} {bs : List LimitBucket}
        → (consume s b.key b.limit b.expires_at).0 ≡ true
        → Admits (consume s b.key b.limit b.expires_at).1 bs t
        → Admits s (b ∷ bs) t

  -- A bucket that the consumer refuses after it admitted the ones before it, and the answer.
  pub record RefusedAt (s : S) (before : List LimitBucket) (bucket : LimitBucket) (now : ℕ)
      (answer : RateLimitResult × S) : Type ℓ where
    pub state : S
    pub admits : Admits s before state
    pub refuses : (consume state bucket.key bucket.limit bucket.expires_at).0 ≡ false
    pub left : answer.1 ≡ (consume state bucket.key bucket.limit bucket.expires_at).1
    pub same_scope : answer.0.scope ≡ some bucket.scope
    pub wait : IsWait now bucket.expires_at answer.0.retry_after

  -- A visitor who is refused was refused by the consumer at one of the request's buckets, the
  -- buckets before it were admitted and the ones after it were not tried; the answer names the
  -- scope of that bucket, and its wait is the seconds to the end of the bucket's window, rounded
  -- up and at least one.
  pub refusal_names_bucket :
      (s : S) (buckets : List LimitBucket) (now : ℕ)
      → (consume_buckets consume s buckets now).0.allowed ≡ false
      → (before : List LimitBucket) × (bucket : LimitBucket) × (after : List LimitBucket) × (buckets
          ≡ before ++ bucket ∷ after)
        × RefusedAt s before bucket now (consume_buckets consume s buckets now)
  unfolding consume_buckets
  refusal_names_bucket s [] now h = cc
  refusal_names_bucket s (b ∷ bs) now h =
      elim (Bool-cases (consume s b.key b.limit b.expires_at).0) [
        | inl q ↦
            let (before, bucket, after, e, r) =
              refusal_names_bucket (consume s b.key b.limit b.expires_at).1 bs now (rw q at h) in
            (
              b ∷ before,
              bucket,
              after,
              ap (◌∷◌ b) e,
              rw q (record {
                state = r.state;
                admits = then_next q r.admits;
                refuses = r.refuses;
                left = r.left;
                same_scope = r.same_scope;
                wait = r.wait;
              }),
            )
        | inr q ↦ (
          [],
          b,
          bs,
          refl,
          rw q (record {
            state = s;
            admits = nothing;
            refuses = q;
            left = refl;
            same_scope = refl;
            wait = seconds_until-IsWait now b.expires_at;
          }),
        )
      ]

-- Every window of a request is open, and ends within the hour.
abbrev pub IsOpen : ℕ → LimitBucket → Type 0
IsOpen now b = (now < b.expires_at) × (b.expires_at ≤ now + 3_600_000) × (1 ≤ b.limit)

open_minute :
    (now : ℕ)
    → (now < (now / 60_000 + 1) * 60_000)
      × ((now / 60_000 + 1) * 60_000 ≤ now + 3_600_000)
      × (1 ≤ 5)
open_minute now = (omega arith, omega arith, omega arith)

open_hour :
    (now limit : ℕ)
    → 1 ≤ limit
    → (now < (now / 3_600_000 + 1) * 3_600_000)
      × ((now / 3_600_000 + 1) * 3_600_000 ≤ now + 3_600_000)
      × (1 ≤ limit)
open_hour now limit h = (omega arith, omega arith, h)

-- The windows of a request's buckets are open when the request comes, and end within an hour
-- of it; each admits at least one request.
pub request_windows-IsOpen :
    (ip : Text) (paid : Bool) (now : ℕ) → All (IsOpen now) (request_limit_buckets ip paid now)
unfolding request_limit_buckets
request_windows-IsOpen ip true now = (open_minute now, (open_hour now 20 (omega arith), tt))
request_windows-IsOpen ip false now = (open_hour now 60 (omega arith), tt)

-- ===== src/RateLimit.antt =====
-- web/lib/rate-limit.ts: the buckets of a request, and how they are consumed in order.
-- Times are milliseconds; the consumer is any stateful function, in the program `consumeLimit`.
pub mod Retry
mod Tests
use event_recommender.Prelude.{
  ℕ, ◌+◌, ◌-◌, ◌*◌, ◌/◌, Bool, true, false, ◌&&◌, not, Option, none, some, List, [], ◌∷◌, ◌++◌,
  if◌then◌else◌, ltb,
}
use event_recommender.Prelude.Text.{Text, codes, text_eq}
use event_recommender.Prelude.Decimal.{decimal}

pub data RateLimitScope : Type 0 where
  minute hour daily : RateLimitScope

pub record RateLimitResult : Type 0 where
  pub allowed : Bool
  pub retry_after : ℕ
  pub scope : Option RateLimitScope

pub record LimitBucket : Type 0 where
  pub key : Text
  pub limit : ℕ
  pub expires_at : ℕ
  pub scope : RateLimitScope

abbrev is_text : Option Text → Text → Bool
is_text none t = false
is_text (some s) t = text_eq s t

unfoldable pub visitor_rate_limit_enabled : (deployment_env preview_testing : Option Text) → Bool
visitor_rate_limit_enabled deployment_env preview_testing =
    not (is_text deployment_env (codes "staging") && is_text preview_testing (codes "true"))

unfoldable pub request_limit_buckets : (ip : Text) (paid : Bool) (now : ℕ) → List LimitBucket
request_limit_buckets ip paid now =
    let in_minute = now / 60_000 in
    let in_hour = now / 3_600_000 in
    (if paid
      then record {
        key = codes "ip-minute:" ++ ip ++ codes ":" ++ decimal in_minute;
        limit = 5;
        expires_at = (in_minute + 1) * 60_000;
        scope = minute;
      }
        ∷ []
      else [])
    ++ record {
      key = codes "ip-hour:" ++ ip ++ codes ":" ++ decimal in_hour;
      limit = if paid then 20 else 60;
      expires_at = (in_hour + 1) * 3_600_000;
      scope = hour;
    }
      ∷ []

-- Math.max(1, Math.ceil((expiresAt - now) / 1000))
unfoldable pub seconds_until : (now expires_at : ℕ) → ℕ
seconds_until now expires_at =
    let seconds = (expires_at - now + 999) / 1_000 in if ltb seconds 1 then 1 else seconds

module _ {ℓ} {S : Type ℓ} (consume : S → Text → ℕ → ℕ → Bool × S) where
  -- The state of the consumer is returned beside the result.
  unfoldable pub consume_buckets : S → List LimitBucket → (now : ℕ) → RateLimitResult × S
  unfolding seconds_until
  consume_buckets s [] now = (record { allowed = true; retry_after = 0; scope = none }, s)
  consume_buckets s (b ∷ bs) now =
      let answer = consume s b.key b.limit b.expires_at in
      let rest = consume_buckets answer.1 bs now in
      if answer.0 then rest else (
        record {
          allowed = false;
          retry_after = seconds_until now b.expires_at;
          scope = some b.scope;
        },
        answer.1,
      )

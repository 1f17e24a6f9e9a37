-- ===== src/Store/Leases.antt =====
-- web/lib/store.gcp.ts, `liveLease` and lines 292 to 305 and 611 to 634: the leases that writers hold.
-- A path is `digest(key)`, SHA-256 of the key, a parameter; a token is one of `crypto.randomUUID`.
pub mod Exclusion
use event_recommender.Prelude.{
  ℕ, ◌+◌, ◌/◌, Bool, true, false, ◌&&◌, ◌||◌, not, Option, none, some, List, [], ◌∷◌, any_of,
  if◌then◌else◌, ltb, leb, ◌==◌, Result, ok, err, guard, ◌>>◌,
}
use event_recommender.Prelude.Text.{Text, text_eq, includes}
use event_recommender.Prelude.Number.{Number, num, millionths, is_integer, num_le, num_lt}
use event_recommender.Store.{Lease, Documents, set_at}

-- Number.isSafeInteger
unfoldable pub is_safe_integer : Number → Bool
is_safe_integer n =
    is_integer n
    && num_le (Number.minus 9_007_199_254_740_990_999_999) n
    && num_le n (num 9_007_199_254_740_991)

abbrev pub whole : Number → ℕ
whole (millionths n) = n / 1_000_000
whole n = 0

abbrev pub is_empty : Text → Bool
is_empty [] = true
is_empty (c ∷ s) = false

-- The lease on a path that has not expired.
unfoldable pub unexpired : Option Lease → ℕ → Option Lease
unexpired none time = none
unexpired (some l) time = if ltb time l.expires_at then some l else none

abbrev pub granted : Documents Lease → Text → Lease → Option Lease → Option Lease × Documents Lease
granted leases path lease none = (some lease, set_at leases path (some lease))
granted leases path lease (some held) = (none, leases)

abbrev pub valid_ttl : Number → Bool
valid_ttl ttl = is_safe_integer ttl && num_lt (num 0) ttl && num_le ttl (num 3_600_000)

-- acquireLease: the new lease or null, and the documents after the transaction
unfoldable pub acquire_lease :
    (digest : Text → Text) (leases : Documents Lease) (time : ℕ) (token key : Text) (ttl : Number)
    → Result (Option Lease × Documents Lease)
unfolding unexpired
acquire_lease digest leases time token key ttl =
    guard (not (is_empty key) && valid_ttl ttl) "Invalid storage lease"
    >> ok (
        granted leases (digest key)
          (record { key = key; token = token; expires_at = time + whole ttl })
          (unexpired (leases (digest key)) time))

abbrev pub has_token : Option Lease → Text → Bool
has_token none token = false
has_token (some l) token = text_eq l.token token

unfoldable pub release_lease : (digest : Text → Text) → Documents Lease → Lease → Documents Lease
release_lease digest leases lease =
    if has_token (leases (digest lease.key)) lease.token
    then set_at leases (digest lease.key) none
    else leases

abbrev pub is_lease : Option Lease → Lease → ℕ → Bool
is_lease none lease time = false
is_lease (some l) lease time =
    text_eq l.key lease.key
    && text_eq l.token lease.token
    && l.expires_at == lease.expires_at
    && ltb time l.expires_at

unfoldable pub live_lease : Documents Lease → Lease → Text → ℕ → Result (Unit {0})
live_lease leases lease path time =
    guard (is_lease (leases path) lease time) "Storage lease expired or replaced"

unfoldable pub require_lease_kind : Lease → List Text → Result (Unit {0})
require_lease_kind lease kinds = guard (includes kinds lease.key) "Wrong storage lease"

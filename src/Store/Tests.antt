-- ===== src/Store/Tests.antt =====
-- Runs of the store at concrete documents. The digest of a key is the key itself.
use event_recommender.Prelude.{
  any_of, is_some, Bool, ◌-◌, ◌↔◌, ℕ, ◌≤◌, ◌≡◌, refl, inl, inr, true, false, Option, none, some,
  List, [], ◌∷◌, ok, All, leb, if◌then◌else◌, arith,
}
use event_recommender.Prelude.Text.{Text, codes, text_eq, includes}
use event_recommender.Prelude.Number.{nan, num, num_eq, num_le, num_lt, is_integer}
use event_recommender.Prelude.Value.{Value, Fields, Conversions, no_values, no_fields, with_field}
use event_recommender.Prelude.Decimal.{decimal, scan}
use event_recommender.Store.Attempt.{
  stored_of, fields_of, publication_attempt, is_attempt_id, count,
}
use event_recommender.Store.Attempt.Accepted.{IsDiagnosis, publication_attempt_iff}
use event_recommender.Store.Attempt.Returned.{publication_attempt-twice}
use event_recommender.Store.Status.{StatusEvent, ready, stale, status_for, hours}
use event_recommender.Store.Status.Meaning.{checked_since, is_served, count_of, status_for_meaning}
use event_recommender.Store.Readiness.{Catalog, Checkpoint, checkpoint_readiness}
use event_recommender.Store.Readiness.Meaning.{IsReady, no_reason_iff}
use event_recommender.Store.{Lease, Counter, SourceHead, Documents, active}
use event_recommender.Store.Leases.{live_lease, is_safe_integer}
use event_recommender.Store.Leases.Exclusion.{
  LeaseCall, Spares, granted_for, after_calls, lease_is_exclusive,
}
use event_recommender.Store.Limits.Exact.{LimitCall, IsFor, admitted, in_time, limit_is_exact}
use event_recommender.Store.Sources.{Control, Import, SourcePage, import_pages}
use event_recommender.Store.Sources.Newest.{Advances, Advances-refl, Orderly, import_pages-Advances}

abbrev digest : Text → Text
digest t = t

abbrev sync : Lease
sync = record { key = codes "sync_lock"; token = codes "first"; expires_at = 1_000 }

abbrev sync_held : Documents Lease
sync_held path = if text_eq path (codes "sync_lock") then some sync else none

abbrev rival_calls : List LeaseCall
rival_calls =
    LeaseCall.acquire 10 (codes "second") (codes "sync_lock") (num 300_000)
    ∷ LeaseCall.release 20
        (record { key = codes "sync_lock"; token = codes "second"; expires_at = 2_000 })
    ∷ LeaseCall.acquire 999 (codes "third") (codes "voyage_index_lock") (num 300_000)
    ∷ []

sync_is_held : sync_held (digest sync.key) ≡ some sync
unfolding text_eq
sync_is_held = refl

rivals_spare : All (Spares sync) rival_calls
unfolding text_eq
rivals_spare = (omega arith, (refl, (omega arith, tt)))

lease_is_exclusive_example :
    (granted_for digest (digest sync.key) sync_held rival_calls ≡ [])
    × (live_lease (after_calls digest sync_held rival_calls) sync (digest sync.key) 999 ≡ ok tt)
lease_is_exclusive_example =
    lease_is_exclusive digest sync_held sync rival_calls 999 sync_is_held rivals_spare (omega arith)

abbrev no_counters : Documents Counter
no_counters path = none

abbrev request_at : ℕ → LimitCall
request_at time = record { time = time; key = codes "a"; limit = num 2; expires_at = num 100 }

abbrev other_at : ℕ → LimitCall
other_at time = record { time = time; key = codes "b"; limit = num 1; expires_at = num 60 }

abbrev requests : List LimitCall
requests = request_at 1 ∷ other_at 2 ∷ request_at 3 ∷ request_at 4 ∷ request_at 100 ∷ []

requests_fit : All (IsFor digest (codes "a") 2 100) requests
unfolding text_eq
requests_fit = (
  inr (refl, refl, refl),
  (inl refl, (inr (refl, refl, refl), (inr (refl, refl, refl), (inr (refl, refl, refl), tt)))),
)

limit_is_exact_example : admitted digest (codes "a") no_counters requests ≡ (
    if leb (in_time digest (codes "a") 100 requests) 2
    then in_time digest (codes "a") 100 requests
    else 2)
limit_is_exact_example =
    limit_is_exact digest (codes "a") 2 100 no_counters requests refl (omega arith) (omega arith)
      requests_fit

-- Nobody else writes while a page is uploaded.
abbrev alone : Import
alone = record {
  digest = digest;
  stringify = λ page. page.url;
  byte_count = λ t. 10;
  is_timestamp = λ t. true;
  during = λ page c. c;
  clock = λ page. 10;
}

abbrev page_of_may : SourcePage
page_of_may = record {
  url = codes "https://a";
  events = record { url = codes "https://a"; checked_at = codes "2026-05-01T00:00:00.000Z" } ∷ [];
  retired_at = none;
  quarantined_at = none;
  quarantine_reason = none;
}

abbrev head_of_june : SourceHead
head_of_june = record {
  url = codes "https://a";
  key = codes "sources/x";
  hash = codes "x";
  checked_at = codes "2026-06-01T00:00:00.000Z";
  events = 1;
  kind = some active;
}

abbrev control : Control
control = record { leases = sync_held; sources = λ path. some head_of_june }

alone_is_orderly : Orderly alone (codes "default") sync
alone_is_orderly page c p = Advances-refl (c.sources p)

import_pages-Advances_example : Advances (some head_of_june) (
    (import_pages alone (codes "default") sync control (page_of_may ∷ [])).1.sources
      (codes "https://a"))
import_pages-Advances_example =
    import_pages-Advances alone (codes "default") sync alone_is_orderly control (page_of_may ∷ [])
      (codes "https://a")

-- A time is written as its decimal digits.
abbrev iso : ℕ → Text
iso time = decimal time

abbrev parse : Text → ℕ
parse t = scan 0 t

abbrev fresh_concert : StatusEvent
fresh_concert = record {
  starts_at = codes "900000999";
  checked_at = codes "900000000";
  availability = codes "available";
}

status_for_meaning_example :
    (((status_for iso parse (fresh_concert ∷ []) 900_000_500).status ≡ ready) ↔ (
      any_of (is_served (iso (900_000_500 - hours 72)) (iso 900_000_500)) (fresh_concert ∷ [])
      ≡ true))
    × (((status_for iso parse (fresh_concert ∷ []) 900_000_500).status ≡ stale) ↔ (
        (1 ≤ 1)
        × (any_of (checked_since (iso (900_000_500 - hours 72))) (fresh_concert ∷ []) ≡ false)))
    × ((status_for iso parse (fresh_concert ∷ []) 900_000_500).eligible
        ≡ count_of
            (is_served (iso (900_000_500 - hours 72)) (iso 900_000_500))
            (fresh_concert ∷ []))
    × ((status_for iso parse (fresh_concert ∷ []) 900_000_500).eligible
        ≤ (status_for iso parse (fresh_concert ∷ []) 900_000_500).stored)
status_for_meaning_example = status_for_meaning iso parse (fresh_concert ∷ []) 900_000_500

abbrev serving : Catalog
serving = record { status = ready; stored = 150; eligible = 120 }

abbrev summary : Fields
summary =
    with_field (codes "missingSources") (Value.array no_values)
      (with_field (codes "available") (Value.number (num 130)) no_fields)

-- No text stands for a number.
abbrev conversions : Conversions
conversions = record { number_of = λ t. nan; string_of = λ v. [] }

abbrev parse_time : Text → Option ℕ
parse_time t = some (scan 0 t)

abbrev checkpoint : Checkpoint
checkpoint = record {
  saved_at = codes "900000000";
  finished_at = codes "899000000";
  events = 160;
  summary = summary;
}

no_reason_iff_example :
    (checkpoint_readiness conversions parse_time serving (some checkpoint) 900_000_500 ≡ [])
    ↔ IsReady conversions parse_time serving checkpoint 900_000_500
no_reason_iff_example = no_reason_iff conversions parse_time serving checkpoint 900_000_500

-- The record of a publication that is done, with a property that the validator drops.
abbrev done : Fields
done = with_field (codes "schemaVersion") (Value.number (num 1)) (
    with_field (codes "attemptId") (Value.text (codes "01234567-89ab-4cde-8f01-23456789abcd")) (
      with_field (codes "deploymentRevision") Value.null (
        with_field (codes "reportFinishedAt") (Value.text (codes "2026-05-01T00:00:00.000Z")) (
          with_field (codes "startedAt") (Value.text (codes "2026-05-01T00:00:00.000Z")) (
            with_field (codes "phase") (Value.text (codes "complete")) (
              with_field (codes "sourcesTotal") (Value.number (num 12)) (
                with_field (codes "sourcesRead") (Value.number (num 12)) (
                  with_field (codes "events") (Value.number (num 40)) (
                    with_field (codes "searchBytes") (Value.number (num 2_000)) (
                      with_field (codes "checkpointBytes") Value.null (
                        with_field (codes "elapsedMs") (Value.number (num 5_000)) (
                          with_field (codes "outcome") (Value.text (codes "succeeded")) (
                            with_field (codes "note") Value.null
                              (with_field (codes "failureCode") Value.null no_fields))))))))))))))

abbrev any_time : Text → Bool
any_time t = true

abbrev done_again : Value
done_again = Value.object (fields_of (stored_of done))

done_is_valid : publication_attempt any_time (Value.object done) ≡ some done_again
unfolding publication_attempt text_eq num_eq is_attempt_id includes count is_safe_integer is_integer
    num_le num_lt
done_is_valid = refl

publication_attempt_iff_example :
    (is_some (publication_attempt any_time (Value.object done)) ≡ true)
    ↔ IsDiagnosis any_time (stored_of done)
publication_attempt_iff_example = publication_attempt_iff any_time (Value.object done)

publication_attempt-twice_example :
    ((g : Fields) × (done_again ≡ Value.object g) × (stored_of g ≡ stored_of done))
    × (publication_attempt any_time done_again ≡ some done_again)
publication_attempt-twice_example = publication_attempt-twice any_time done done_again done_is_valid

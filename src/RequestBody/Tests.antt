-- ===== src/RequestBody/Tests.antt =====
-- Requests of six bytes in two chunks. The text of a body is its bytes.
use event_recommender.Prelude.{
  ℕ, false, every, none, some, List, [], ◌∷◌, ok, err, ◌≡◌, refl, arith,
}
use event_recommender.Prelude.Text.{codes}
use event_recommender.Prelude.Decimal.{is_digit}
use event_recommender.RequestBody.{
  done, failed, too_large, is_declared_too_large, read_bounded_request_text,
}
use event_recommender.RequestBody.Whole.{read-whole, read-excess}

abbrev six_bytes : List (List ℕ)
six_bytes = (1 ∷ 2 ∷ []) ∷ (3 ∷ 4 ∷ 5 ∷ 6 ∷ []) ∷ []

declared_six : is_declared_too_large 8 (some (codes "6")) ≡ false
unfolding is_declared_too_large every is_digit
declared_six = refl

read-whole_example :
    read_bounded_request_text
      (λ bytes. bytes)
      8
      (some (codes "6"))
      none
      (some (record { chunks = six_bytes; ending = done }))
    ≡ ok (1 ∷ 2 ∷ 3 ∷ 4 ∷ 5 ∷ 6 ∷ [])
read-whole_example =
    read-whole (λ bytes. bytes) 8 (some (codes "6")) six_bytes (omega arith) (omega arith)
      declared_six (omega arith)

not_declared : is_declared_too_large 4 none ≡ false
unfolding is_declared_too_large
not_declared = refl

read-excess_example :
    read_bounded_request_text
      (λ bytes. bytes)
      4
      none
      none
      (some (record { chunks = six_bytes; ending = failed "reset" }))
    ≡ err too_large
read-excess_example =
    read-excess (λ bytes. bytes) 4 none six_bytes (omega arith) (omega arith) not_declared
      (failed "reset") (omega arith)

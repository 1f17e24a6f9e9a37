-- ===== src/RequestBody.antt =====
-- web/lib/request-body.ts: a request's body, read from a stream up to a bound. What the stream
-- gives is a list of chunks and how they end; `decode` is TextDecoder.
pub mod Whole
mod Tests
use event_recommender.Prelude.{
  ℕ, zero, suc, ◌+◌, ◌-◌, ◌*◌, Bool, true, false, ◌&&◌, Option, none, some, String, List, [], ◌∷◌,
  ◌++◌, if◌then◌else◌, ltb, leb, every, length, Result, ok, err, ◌>>=◌,
}
use event_recommender.Prelude.Text.{Text}
use event_recommender.Prelude.Decimal.{is_digit}

-- After its last chunk the stream is done, fails, or the signal aborts the wait for more.
pub data Ending : Type 0 where
  done : Ending
  failed aborted : (reason : String) → Ending

pub record Body : Type 0 where
  pub chunks : List (List ℕ)
  pub ending : Ending

abbrev pub too_large : String
too_large = "Request body is too large."

-- BigInt of a string of digits.
abbrev pub big_int : (value : ℕ) → Text → ℕ
big_int value [] = value
big_int value (c ∷ t) = big_int (value * 10 + (c - 48)) t

-- The length in the header says that the body is too large.
unfoldable pub is_declared_too_large : (max_bytes : ℕ) → Option Text → Bool
unfolding every is_digit
is_declared_too_large max_bytes (some (c ∷ t)) =
    every is_digit (c ∷ t) && ltb max_bytes (big_int 0 (c ∷ t))
is_declared_too_large max_bytes _ = false

abbrev pub end_with : Ending → List (List ℕ) → Result (List (List ℕ))
end_with done kept = ok kept
end_with (failed reason) kept = err reason
end_with (aborted reason) kept = err reason

unfoldable pub read_chunks :
    (max_bytes length_so_far : ℕ)
    → (kept : List (List ℕ)) → List (List ℕ)
    → Ending
    → Result (List (List ℕ))
read_chunks max_bytes n kept [] ending = end_with ending kept
read_chunks max_bytes n kept (chunk ∷ chunks) ending =
    let rest = read_chunks max_bytes (n + length chunk) (kept ++ chunk ∷ []) chunks ending in
    if ltb max_bytes (n + length chunk) then err too_large else rest

-- body.set(chunk, offset); it is never called with a chunk that goes beyond the end.
unfoldable pub write_chunk : (body : List ℕ) → (offset : ℕ) → (chunk : List ℕ) → List ℕ
write_chunk [] offset chunk = []
write_chunk (b ∷ bs) (suc offset) chunk = b ∷ write_chunk bs offset chunk
write_chunk (b ∷ bs) zero [] = b ∷ bs
write_chunk (b ∷ bs) zero (c ∷ cs) = c ∷ write_chunk bs zero cs

-- new Uint8Array(length)
unfoldable pub zeros : ℕ → List ℕ
zeros zero = []
zeros (suc n) = 0 ∷ zeros n

abbrev pub total_length : List (List ℕ) → ℕ
total_length [] = 0
total_length (chunk ∷ chunks) = length chunk + total_length chunks

unfoldable pub write_chunks : (body : List ℕ) → (offset : ℕ) → List (List ℕ) → List ℕ
unfolding write_chunk
write_chunks body offset [] = body
write_chunks body offset (chunk ∷ chunks) =
    write_chunks (write_chunk body offset chunk) (offset + length chunk) chunks

abbrev pub assemble : List (List ℕ) → List ℕ
assemble chunks = write_chunks (zeros (total_length chunks)) 0 chunks

abbrev read_body : (decode : List ℕ → Text) → (max_bytes : ℕ) → Option Body → Result Text
read_body decode max_bytes none = ok []
read_body decode max_bytes (some body) =
    read_chunks max_bytes 0 [] body.chunks body.ending >>= λ kept. ok (decode (assemble kept))

abbrev unless_aborted : Option String → Result Text → Result Text
unless_aborted none rest = rest
unless_aborted (some reason) rest = err reason

unfoldable pub read_bounded_request_text :
    (decode : List ℕ → Text)
    → (max_bytes : ℕ) → (declared : Option Text) → (aborted_before : Option String) → Option Body
    → Result Text
unfolding is_declared_too_large read_chunks write_chunks zeros
read_bounded_request_text decode max_bytes declared aborted_before body =
    if ltb max_bytes 1
    then err "Invalid request body limit."
    else if ltb 9_007_199_254_740_991 max_bytes
    then err "Invalid request body limit."
    else if is_declared_too_large max_bytes declared
    then err too_large
    else unless_aborted aborted_before (read_body decode max_bytes body)

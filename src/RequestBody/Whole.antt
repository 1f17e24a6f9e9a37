-- ===== src/RequestBody/Whole.antt =====
-- web/lib/request-body.ts: however the body is cut into chunks, it is read whole or refused.
use mathlib.Core.List.{append_assoc, append-nil}
use event_recommender.Prelude.{
  ℕ, suc, ◌+◌, ◌≤◌, ◌<◌, false, Option, none, some, List, [], ◌∷◌, ◌++◌, ltb, length, length-append,
  ok, err, ◌>>=◌, ◌≡◌, refl, sym, ap, ◌∙◌, inl, inr, Bool-cases, arith,
}
use event_recommender.Prelude.Text.{Text}
use event_recommender.RequestBody.{
  Ending, done, too_large, is_declared_too_large, end_with, read_chunks, write_chunk, zeros,
  total_length, write_chunks, assemble, read_bounded_request_text,
}

-- The bytes of the chunks, one after the other.
abbrev pub joined : List (List ℕ) → List ℕ
joined [] = []
joined (chunk ∷ chunks) = chunk ++ joined chunks

unchanged : (body : List ℕ) → write_chunk body 0 [] ≡ body
unfolding write_chunk
unchanged [] = refl
unchanged (b ∷ bs) = refl

write_first :
    (chunk : List ℕ) (n : ℕ) → write_chunk (zeros (length chunk + n)) 0 chunk ≡ chunk ++ zeros n
unfolding write_chunk zeros
write_first [] n = ap (λ k. write_chunk (zeros k) 0 []) (zero_plus n) ∙ unchanged (zeros n)
  where
    zero_plus : (k : ℕ) → 0 + k ≡ k
    zero_plus k = omega arith
write_first (c ∷ cs) n =
    ap (λ k. write_chunk (zeros k) 0 (c ∷ cs)) (suc_plus (length cs))
    ∙ ap (λ bs. c ∷ bs) (write_first cs n)
  where
    suc_plus : (k : ℕ) → suc k + n ≡ suc (k + n)
    suc_plus k = omega arith

write_after :
    (front chunk : List ℕ) (n : ℕ)
    → write_chunk (front ++ zeros (length chunk + n)) (length front) chunk
      ≡ front ++ (chunk ++ zeros n)
unfolding write_chunk
write_after [] chunk n = write_first chunk n
write_after (b ∷ front) chunk n = ap (λ bs. b ∷ bs) (write_after front chunk n)

write_chunks_after :
    (chunks : List (List ℕ)) (front : List ℕ)
    → write_chunks (front ++ zeros (total_length chunks)) (length front) chunks
      ≡ front ++ joined chunks
unfolding write_chunks zeros
write_chunks_after [] front = refl
write_chunks_after (chunk ∷ chunks) front =
    ap (λ body. write_chunks body (length front + length chunk) chunks)
      (write_after front chunk (total_length chunks)
        ∙ sym (append_assoc front chunk (zeros (total_length chunks))))
    ∙ ap (λ n. write_chunks ((front ++ chunk) ++ zeros (total_length chunks)) n chunks)
        (sym (length-append front chunk))
    ∙ write_chunks_after chunks (front ++ chunk)
    ∙ append_assoc front chunk (joined chunks)

-- The chunks are put together as they were cut.
pub assemble_lem : (chunks : List (List ℕ)) → assemble chunks ≡ joined chunks
assemble_lem chunks = write_chunks_after chunks []

-- The loop keeps all chunks of a body that fits, and refuses one that does not.
read_chunks_fit :
    (max_bytes : ℕ) (chunks : List (List ℕ)) (n : ℕ) (kept : List (List ℕ)) (ending : Ending)
    → n + total_length chunks ≤ max_bytes
    → read_chunks max_bytes n kept chunks ending ≡ end_with ending (kept ++ chunks)
unfolding read_chunks
read_chunks_fit max_bytes [] n kept ending h = ap (end_with ending) (sym (append-nil kept))
read_chunks_fit max_bytes (chunk ∷ chunks) n kept ending h =
    let fits : ltb max_bytes (n + length chunk) ≡ false = ground (arith, h) in
    rw fits (
      read_chunks_fit max_bytes chunks (n + length chunk) (kept ++ chunk ∷ []) ending
        (omega (arith, h))
      ∙ ap (end_with ending) (append_assoc kept (chunk ∷ []) chunks))

read_chunks_excess :
    (max_bytes : ℕ) (chunks : List (List ℕ)) (n : ℕ) (kept : List (List ℕ)) (ending : Ending)
    → n ≤ max_bytes
    → max_bytes < n + total_length chunks
    → read_chunks max_bytes n kept chunks ending ≡ err too_large
unfolding read_chunks
read_chunks_excess max_bytes [] n kept ending low h = absurd (omega (arith, low, h))
read_chunks_excess max_bytes (chunk ∷ chunks) n kept ending low h =
    elim (Bool-cases (ltb max_bytes (n + length chunk))) [
      | inl e ↦ rw e refl
      | inr e ↦ rw e (
          read_chunks_excess max_bytes chunks (n + length chunk) (kept ++ chunk ∷ []) ending
            (ground (arith, e)) (omega (arith, h)))
    ]

module _ (decode : List ℕ → Text) (max_bytes : ℕ) (declared : Option Text) (chunks : List (List ℕ))
    (positive : 0 < max_bytes) (safe : max_bytes ≤ 9_007_199_254_740_991)
    (small : is_declared_too_large max_bytes declared ≡ false) where
  guards_pass :
      (ending : Ending)
      → read_bounded_request_text decode max_bytes declared none
          (some (record { chunks = chunks; ending = ending }))
        ≡ (read_chunks max_bytes 0 [] chunks ending >>= λ kept. ok (decode (assemble kept)))
  unfolding read_bounded_request_text
  guards_pass ending =
      let one : ltb max_bytes 1 ≡ false = ground (arith, positive) in
      let bounded : ltb 9_007_199_254_740_991 max_bytes ≡ false = ground (arith, safe) in
      rw one (rw bounded (rw small refl))

  -- A body that fits and ends is read whole, however it is cut into chunks, if the declared
  -- length, where there is one, is within the bound too.
  pub read-whole :
      total_length chunks ≤ max_bytes
      → read_bounded_request_text decode max_bytes declared none
          (some (record { chunks = chunks; ending = done }))
        ≡ ok (decode (joined chunks))
  read-whole h =
      guards_pass done
      ∙ ap (λ r. r >>= λ kept. ok (decode (assemble kept)))
          (read_chunks_fit max_bytes chunks 0 [] done (omega (arith, h)))
      ∙ ap (λ bytes. ok (decode bytes)) (assemble_lem chunks)

  -- A body beyond the bound is refused as too large, whatever comes of its stream after that.
  pub read-excess :
      (ending : Ending)
      → max_bytes < total_length chunks
      → read_bounded_request_text decode max_bytes declared none
          (some (record { chunks = chunks; ending = ending }))
        ≡ err too_large
  read-excess ending h =
      guards_pass ending
      ∙ ap (λ r. r >>= λ kept. ok (decode (assemble kept)))
          (read_chunks_excess max_bytes chunks 0 [] ending (omega (arith, positive))
            (omega (arith, h)))

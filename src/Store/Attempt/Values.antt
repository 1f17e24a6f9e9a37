-- ===== src/Store/Attempt/Values.antt =====
-- web/lib/store.gcp.ts, `publicationAttempt`: what its tests of single values say.
use event_recommender.Prelude.{
  ℕ, ◌≤◌, ◌*◌, ◌/◌, ◌≡◌, ◌↔◌, refl, sym, subst, Bool, true, false, ◌&&◌, not, arith,
}
use event_recommender.Prelude.Text.{Text}
use event_recommender.Prelude.Number.{
  Number, nan, infinity, minus_infinity, millionths, minus, num, num_le, num_lt, is_integer,
}
use event_recommender.Prelude.Value.{Value}
use event_recommender.Store.Leases.{is_safe_integer}
use event_recommender.Store.Attempt.{count, exceeds, is_null, is_text_where}

-- The value is a text that passes the test.
pub data IsText (P : Text → Type 0) : Value → Type 0 where
  is_text : (t : Text) → P t → IsText P (Value.text t)

-- The value is a whole number, at most the maximum.
pub data IsCount (maximum : ℕ) : Value → ℕ → Type 0 where
  is_count : (n : ℕ) → n ≤ maximum → IsCount maximum (Value.number (num n)) n

-- The value is null, or satisfies the predicate.
pub data IsNullOr (P : Value → Type 0) : Value → Type 0 where
  is_nothing : IsNullOr P Value.null
  is_just : (v : Value) → P v → IsNullOr P v

text_where :
    (test : Text → Bool) (v : Value) → is_text_where test v ≡ true → IsText (λ t. test t ≡ true) v
text_where test (Value.text t) h = is_text t h
text_where test Value.undefined h = cc
text_where test Value.null h = cc
text_where test (Value.boolean b) h = cc
text_where test (Value.number n) h = cc
text_where test (Value.array vs) h = cc
text_where test (Value.object f) h = cc

count_of_number :
    (n : Number) (maximum : ℕ)
    → count (Value.number n) maximum ≡ true
    → (k : ℕ) × IsCount maximum (Value.number n) k
unfolding count is_safe_integer is_integer num_le
count_of_number (millionths m) maximum h =
    let k = m / 1_000_000 in
    let e : m ≡ k * 1_000_000 = ground arith in
    (
      k,
      subst (λ j. IsCount maximum (Value.number (millionths j)) k) (sym e)
          (is_count k (ground arith)),
    )
count_of_number (minus m) maximum h = absurd (ground arith)
count_of_number nan maximum h = absurd (ground arith)
count_of_number infinity maximum h = absurd (ground arith)
count_of_number minus_infinity maximum h = absurd (ground arith)

count_value : (v : Value) (maximum : ℕ) → count v maximum ≡ true → (k : ℕ) × IsCount maximum v k
unfolding count
count_value (Value.number n) maximum h = count_of_number n maximum h
count_value (Value.text t) maximum h = cc
count_value Value.undefined maximum h = cc
count_value Value.null maximum h = cc
count_value (Value.boolean b) maximum h = cc
count_value (Value.array vs) maximum h = cc
count_value (Value.object f) maximum h = cc

pub text_iff :
    (test : Text → Bool) (v : Value)
    → (not (is_text_where test v) ≡ false) ↔ IsText (λ t. test t ≡ true) v
text_iff test v = (λ h. text_where test v (ground arith), λ h. back v h)
  where
    back : (v : Value) → IsText (λ t. test t ≡ true) v → not (is_text_where test v) ≡ false
    back _ (is_text _ h) = ground arith

-- At most this number is a safe integer.
abbrev pub safe : ℕ
safe = 9_007_199_254_740_991

count_num :
    (n maximum : ℕ) → maximum ≤ safe → n ≤ maximum → count (Value.number (num n)) maximum ≡ true
unfolding count is_safe_integer is_integer num_le
count_num n maximum small h = ground arith

pub count_iff :
    (v : Value) (maximum : ℕ)
    → maximum ≤ safe
    → (not (count v maximum) ≡ false) ↔ ((n : ℕ) × IsCount maximum v n)
count_iff v maximum small = (λ h. count_value v maximum (ground arith), λ (n, h). back v n h)
  where
    back : (v : Value) (n : ℕ) → IsCount maximum v n → not (count v maximum) ≡ false
    back _ _ (is_count n h) = rw (count_num n maximum small h) refl

pub exceeds_iff :
    {ma mb : ℕ} {a b : Value} {m n : ℕ}
    → IsCount ma a m
    → IsCount mb b n
    → (exceeds a b ≡ false) ↔ (m ≤ n)
unfolding num_lt
exceeds_iff (is_count m _) (is_count n _) = ground arith

other_iff :
    {P : Value → Type 0} (bad : Value → Bool)
    → ((v : Value) → (bad v ≡ false) ↔ P v)
    → (v : Value) → is_null v ≡ false
    → ((not (is_null v) && bad v) ≡ false) ↔ IsNullOr P v
other_iff {P} bad iff v e = (
  λ h. is_just v ((iff v).0 (ground arith)),
  λ h. let good = (iff v).1 (given v e h) in ground arith,
)
  where
    given : (v : Value) → is_null v ≡ false → IsNullOr P v → P v
    given _ e is_nothing = cc
    given _ e (is_just v h) = h

pub IsNullOr-iff :
    {P : Value → Type 0} (bad : Value → Bool)
    → ((v : Value) → (bad v ≡ false) ↔ P v)
    → (v : Value) → ((not (is_null v) && bad v) ≡ false) ↔ IsNullOr P v
IsNullOr-iff bad iff Value.null = (λ h. is_nothing, λ h. refl)
IsNullOr-iff bad iff (Value.text t) = other_iff bad iff (Value.text t) refl
IsNullOr-iff bad iff Value.undefined = other_iff bad iff Value.undefined refl
IsNullOr-iff bad iff (Value.boolean b) = other_iff bad iff (Value.boolean b) refl
IsNullOr-iff bad iff (Value.number n) = other_iff bad iff (Value.number n) refl
IsNullOr-iff bad iff (Value.array vs) = other_iff bad iff (Value.array vs) refl
IsNullOr-iff bad iff (Value.object f) = other_iff bad iff (Value.object f) refl

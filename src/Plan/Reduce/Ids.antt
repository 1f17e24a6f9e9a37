-- ===== src/Plan/Reduce/Ids.antt =====
-- The ids of the top-level conditions under the array operations of the reducer.
use mathlib.Core.List.{append_assoc}
use event_recommender.Prelude.{
  ℕ, zero, suc, ◌≤◌, ◌≡◌, refl, sym, ap, ◌∙◌, true, false, ◌||◌, Option, none, some, List, [], ◌∷◌,
  ◌++◌, All, All-left, All-right, All-append, ◌≢◌, arith, every, is_some,
}
use event_recommender.Prelude.Text.{Text, text_eq, text_eq_iff, includes}
use event_recommender.Prelude.Double.{exact_limit, double_of, double_of-exact}
use event_recommender.Prelude.Js.{Js}
use event_recommender.Prelude.Distinct.{IsDistinct, IsDistinct-right}
use event_recommender.Prelude.Decimal.{
  is_digit, scan, decimal, scan-decimal, every_digit-decimal, decimal-ne-nil,
}
use event_recommender.Plan.{Condition, id_of, with_id}
use event_recommender.Plan.Validate.WellFormed.{own_id}
use event_recommender.Plan.Reduce.{index_of, new_id, has_id, find_index, splice, assign}

abbrev pub top_ids : List Condition → List Text
top_ids [] = []
top_ids (c ∷ cs) = own_id (id_of c) ++ top_ids cs

pub top_ids-append : (cs ds : List Condition) → top_ids (cs ++ ds) ≡ top_ids cs ++ top_ids ds
top_ids-append [] ds = refl
top_ids-append (c ∷ cs) ds =
    ap (λ l. own_id (id_of c) ++ l) (top_ids-append cs ds)
    ∙ sym (append_assoc (own_id (id_of c)) (top_ids cs) (top_ids ds))

pub id_of-with_id : (c : Condition) (id : Option Text) → id_of (with_id c id) ≡ id
id_of-with_id (Condition.atom a x) id = refl
id_of-with_id (Condition.group k cs x) id = refl
id_of-with_id (Condition.not c x) id = refl

includes-own_id :
    (id : Text) (o : Option Text) (rest : List Text)
    → includes (own_id o ++ rest) id
      ≡ (elim o [ none ↦ false | some own ↦ text_eq own id ] || includes rest id)
unfolding includes
includes-own_id id none rest = refl
includes-own_id id (some own) rest = refl

-- The first id decides whether the condition itself has the id that is looked for.
includes_own :
    (id : Text) (c : Condition) (rest : List Text)
    → includes (own_id (id_of c) ++ rest) id ≡ (has_id id c || includes rest id)
includes_own id c rest = includes-own_id id (id_of c) rest

option_has :
    (id : Text) (o : Option Text)
    → elim o [ none ↦ false | some own ↦ text_eq own id ] ≡ true
    → o ≡ some id
option_has id none h = cc
option_has id (some own) h = ap some ((text_eq_iff own id).0 h)

id_of-has_id : (id : Text) (c : Condition) → has_id id c ≡ true → id_of c ≡ some id
id_of-has_id id c h = option_has id (id_of c) h

-- `findIndex` finds an id exactly if it is among the ids.
pub found_iff :
    (id : Text) (cs : List Condition) → is_some (find_index id cs) ≡ includes (top_ids cs) id
unfolding find_index includes is_some
found_iff id [] = refl
found_iff id (c ∷ cs) = ground (arith, includes_own id c (top_ids cs), found_iff id cs)

pub includes-splice :
    (n : ℕ) (cs : List Condition) (id : Text)
    → includes (top_ids cs) id ≡ false
    → includes (top_ids (splice n cs)) id ≡ false
unfolding splice
includes-splice n [] id h = h
includes-splice zero (c ∷ cs) id h = ground (arith, includes_own id c (top_ids cs))
includes-splice (suc n) (c ∷ cs) id h = ground (
  arith,
  includes_own id c (top_ids cs),
  includes_own id c (top_ids (splice n cs)),
  includes-splice n cs id,
)

pub All-splice :
    (P : Text → Type 0) (n : ℕ) (cs : List Condition)
    → All P (top_ids cs)
    → All P (top_ids (splice n cs))
unfolding splice
All-splice P n [] h = h
All-splice P zero (c ∷ cs) h = All-right P (own_id (id_of c)) (top_ids cs) h
All-splice P (suc n) (c ∷ cs) h =
    All-append P (own_id (id_of c)) (top_ids (splice n cs))
      (All-left P (own_id (id_of c)) (top_ids cs) h)
      (All-splice P n cs (All-right P (own_id (id_of c)) (top_ids cs) h))

own-IsDistinct :
    (o : Option Text) (xs : List Text)
    → IsDistinct xs
    → ((id : Text) → o ≡ some id → includes xs id ≡ false)
    → IsDistinct (own_id o ++ xs)
own-IsDistinct none xs d h = d
own-IsDistinct (some id) xs d h = (h id refl, d)

own_fresh :
    (o : Option Text) (xs : List Text) (id : Text)
    → IsDistinct (own_id o ++ xs)
    → o ≡ some id
    → includes xs id ≡ false
own_fresh none xs id d e = cc
own_fresh (some own) xs id d e = ground arith

pub IsDistinct-splice :
    (n : ℕ) (cs : List Condition) → IsDistinct (top_ids cs) → IsDistinct (top_ids (splice n cs))
unfolding splice
IsDistinct-splice n [] d = d
IsDistinct-splice zero (c ∷ cs) d = IsDistinct-right (own_id (id_of c)) (top_ids cs) d
IsDistinct-splice (suc n) (c ∷ cs) d =
    own-IsDistinct (id_of c) (top_ids (splice n cs))
      (IsDistinct-splice n cs (IsDistinct-right (own_id (id_of c)) (top_ids cs) d))
      (λ id e. includes-splice n cs id (own_fresh (id_of c) (top_ids cs) id d e))

-- What `splice` takes out at the place of an id is gone.
pub splice_found :
    (id : Text) (n : ℕ) (cs : List Condition)
    → IsDistinct (top_ids cs)
    → find_index id cs ≡ some n
    → includes (top_ids (splice n cs)) id ≡ false
unfolding splice find_index
splice_found id n [] d h = cc
splice_found id zero (c ∷ cs) d h =
    own_fresh (id_of c) (top_ids cs) id d (id_of-has_id id c (ground arith))
splice_found id (suc n) (c ∷ cs) d h = ground (
  arith,
  includes_own id c (top_ids (splice n cs)),
  splice_found id n cs (IsDistinct-right (own_id (id_of c)) (top_ids cs) d),
)

-- Writing a condition with the same id leaves the ids as they are.
pub top_ids-assign :
    (id : Text) (n : ℕ) (d : Condition) (cs : List Condition)
    → id_of d ≡ some id
    → find_index id cs ≡ some n
    → top_ids (assign n d cs) ≡ top_ids cs
unfolding assign find_index
top_ids-assign id n d [] e h = refl
top_ids-assign id zero d (c ∷ cs) e h =
    ap (λ o. own_id o ++ top_ids cs) (e ∙ sym (id_of-has_id id c (ground arith)))
top_ids-assign id (suc n) d (c ∷ cs) e h =
    ap (λ l. own_id (id_of c) ++ l) (top_ids-assign id n d cs e (ground arith))

index_of_digits :
    (prefix : ℕ) (s : Text)
    → s ≢ []
    → every is_digit s ≡ true
    → index_of prefix (prefix ∷ s) ≡ some (double_of (scan 0 s))
unfolding index_of
index_of_digits prefix [] filled digits = absurd (filled refl)
index_of_digits prefix (c ∷ s) filled digits = ground arith

new_id-decimal :
    (js : Js) (prefix n : ℕ) → n ≤ exact_limit → new_id js prefix n ≡ prefix ∷ decimal n
unfolding new_id
new_id-decimal js prefix n h = ground arith

-- The reducer reads back the number of an id that it made, where that number is exact.
pub index_of-new_id :
    (js : Js) (prefix n : ℕ) → n ≤ exact_limit → index_of prefix (new_id js prefix n) ≡ some n
index_of-new_id js prefix n h =
    ap (index_of prefix) (new_id-decimal js prefix n h)
    ∙ index_of_digits prefix (decimal n) (decimal-ne-nil n) (every_digit-decimal n)
    ∙ ap (λ k. some (double_of k)) (scan-decimal n)
    ∙ ap some (double_of-exact n h)

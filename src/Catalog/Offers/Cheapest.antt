-- ===== src/Catalog/Offers/Cheapest.antt =====
-- web/lib/materialized-catalog.ts, `selectedOffer`: it is the cheapest of the offers that compare.
use mathlib.Core.List.{Memᴰ}
use event_recommender.Prelude.{
  Bool, true, false, List, [], ◌∷◌, ◌≡◌, refl, sym, ap, subst, ◌∙◌, inl, inr, Bool-cases, All,
  All-mono, arith,
}
use event_recommender.Prelude.Number.{Number, millionths, minus, num_lt, is_finite}
use event_recommender.Prelude.Sorting.{
  insert_by, sort_by, All-insert_by, All-sort_by, All-of-sort_by, All-member,
}
use event_recommender.Catalog.Event.{EventOffer, CatalogEvent}
use event_recommender.Catalog.Offers.{
  Texts, first_or, keep, price_or_zero, by_price, is_comparable, selectable_of, preferred_of,
  selected_offer,
}

-- Of finite prices, none below a price that is not below the third is below the third.
not_above_trans :
    (a b c : Number)
    → is_finite a ≡ true
    → is_finite b ≡ true
    → is_finite c ≡ true
    → num_lt b a ≡ false
    → num_lt c b ≡ false
    → num_lt c a ≡ false
unfolding num_lt is_finite
not_above_trans (millionths a) (millionths b) (millionths c) fa fb fc h k = ground arith
not_above_trans (minus a) (minus b) (minus c) fa fb fc h k = ground arith
not_above_trans a b c fa fb fc h k = ground arith

num_lt-asym :
    (a b : Number)
    → is_finite a ≡ true
    → is_finite b ≡ true
    → num_lt a b ≡ true
    → num_lt b a ≡ false
unfolding num_lt is_finite
num_lt-asym (millionths a) (millionths b) fa fb h = ground arith
num_lt-asym (minus a) (minus b) fa fb h = ground arith
num_lt-asym a b fa fb h = ground arith

not_below_itself : (a : Number) → num_lt a a ≡ false
unfolding num_lt
not_below_itself (millionths a) = ground arith
not_below_itself (minus a) = ground arith
not_below_itself a = refl

abbrev pub price_of : EventOffer → Number
price_of offer = price_or_zero offer.price

abbrev pub IsPriced : EventOffer → Type 0
IsPriced offer = is_finite (price_of offer) ≡ true

-- The other is not cheaper.
abbrev NoCheaper : (offer other : EventOffer) → Type 0
NoCheaper offer other = num_lt (price_of other) (price_of offer) ≡ false

module _ (texts : Texts) where
  kept_after : (x y : EventOffer) → by_price texts y x ≡ false → NoCheaper x y
  kept_after x y h = ground (arith, h)

  put_after :
      (x y : EventOffer) → IsPriced x → IsPriced y → by_price texts y x ≡ true → NoCheaper y x
  put_after x y fx fy h = ground (arith, h, num_lt-asym (price_of y) (price_of x) fy fx)

  -- The first of the sorted offers is no dearer than any.
  Leads : List EventOffer → Type 0
  Leads [] = Unit
  Leads (x ∷ xs) = All (NoCheaper x) xs

  insert_by-Leads :
      (x : EventOffer) (ys : List EventOffer)
      → IsPriced x
      → All IsPriced ys
      → Leads ys
      → Leads (insert_by (by_price texts) x ys)
  unfolding Leads
  insert_by-Leads x [] fx fys h = tt
  insert_by-Leads x (y ∷ ys) fx (fy, fys) h = elim (Bool-cases (by_price texts y x)) [
    | inl e ↦ rw e (All-insert_by (NoCheaper y) (by_price texts) x ys (put_after x y fx fy e) h)
    | inr e ↦ let first = kept_after x y e in rw e (first, beyond y ys first fy fys h)
  ]
    where
      beyond :
          (y : EventOffer) (zs : List EventOffer)
          → NoCheaper x y
          → IsPriced y
          → All IsPriced zs
          → All (NoCheaper y) zs
          → All (NoCheaper x) zs
      beyond y [] n f fs k = tt
      beyond y (z ∷ zs) n f fs k = (
        not_above_trans (price_of x) (price_of y) (price_of z) fx f fs.0 n k.0,
        beyond y zs n f fs.1 k.1,
      )

  sort_by-Leads : (xs : List EventOffer) → All IsPriced xs → Leads (sort_by (by_price texts) xs)
  unfolding sort_by Leads
  sort_by-Leads [] h = tt
  sort_by-Leads (x ∷ xs) h =
      insert_by-Leads x (sort_by (by_price texts) xs) h.0
        (All-sort_by IsPriced (by_price texts) xs h.1) (sort_by-Leads xs h.1)

  keep-member :
      (p : EventOffer → Bool) (x : EventOffer) (xs : List EventOffer)
      → Memᴰ x xs
      → p x ≡ true
      → Memᴰ x (keep p xs)
  unfolding keep
  keep-member p x [] m h = m
  keep-member p x (y ∷ ys) (Memᴰ.head e) h = rw (sym (ap p e) ∙ h) (Memᴰ.head e)
  keep-member p x (y ∷ ys) (Memᴰ.tail m) h = elim (Bool-cases (p y)) [
    | inl e ↦ rw e (Memᴰ.tail (keep-member p x ys m h))
    | inr e ↦ rw e (keep-member p x ys m h)
  ]

  keep-All :
      (P : EventOffer → Type 0) (p : EventOffer → Bool) (xs : List EventOffer)
      → All P xs
      → All (λ x. P x × (p x ≡ true)) (keep p xs)
  unfolding keep
  keep-All P p [] h = tt
  keep-All P p (x ∷ xs) h = elim (Bool-cases (p x)) [
    | inl e ↦ rw e ((h.0, e), keep-All P p xs h.1)
    | inr e ↦ rw e (keep-All P p xs h.1)
  ]

  -- No offer that compares with the preferred one is cheaper than the selected one, which
  -- compares with it too; the prices of the offers are finite.
  pub selected_offer-IsCheapest :
      (offers : List EventOffer) (e : CatalogEvent) (offer : EventOffer)
      → All IsPriced (selectable_of texts offers)
      → Memᴰ offer (selectable_of texts offers)
      → is_comparable texts (preferred_of texts (selectable_of texts offers) e) offer ≡ true
      → (num_lt (price_of offer) (price_of (selected_offer texts offers e)) ≡ false)
        × (is_comparable texts
              (preferred_of texts (selectable_of texts offers) e)
              (selected_offer texts offers e)
            ≡ true)
  unfolding selected_offer
  selected_offer-IsCheapest offers e offer priced m h =
      first_lem (sort_by (by_price texts) kept) refl
    where
      preferred : EventOffer
      preferred = preferred_of texts (selectable_of texts offers) e

      kept : List EventOffer
      kept = keep (is_comparable texts preferred) (selectable_of texts offers)

      member : Memᴰ offer kept
      member = keep-member (is_comparable texts preferred) offer (selectable_of texts offers) m h

      good : All (λ x. IsPriced x × (is_comparable texts preferred x ≡ true)) kept
      good = keep-All IsPriced (is_comparable texts preferred) (selectable_of texts offers) priced

      of_all :
          (P : EventOffer → Type 0)
          → (xs : List EventOffer) → xs ≡ sort_by (by_price texts) kept
          → All P xs
          → P offer
      of_all P xs same all =
          All-member P offer kept (All-of-sort_by P (by_price texts) kept (subst (All P) same all))
            member

      first_lem :
          (xs : List EventOffer)
          → xs ≡ sort_by (by_price texts) kept
          → (num_lt (price_of offer) (price_of (first_or preferred xs)) ≡ false)
            × (is_comparable texts preferred (first_or preferred xs) ≡ true)
      first_lem [] same = absurd (of_all (λ x. ⊥) [] same tt)
      first_lem (x ∷ xs) same =
          let sorted_good : All (λ x. IsPriced x × (is_comparable texts preferred x ≡ true))
              (x ∷ xs) =
            subst (All (λ x. IsPriced x × (is_comparable texts preferred x ≡ true))) (sym same)
              (All-sort_by _ (by_price texts) kept good) in
          let leads : Leads (x ∷ xs) =
            subst Leads (sym same)
              (sort_by-Leads kept (All-mono _ IsPriced kept (λ y k. k.0) good)) in
          (
            of_all (NoCheaper x) (x ∷ xs) same
                (not_below_itself (price_of x), unfold Leads in leads),
            sorted_good.0.1,
          )

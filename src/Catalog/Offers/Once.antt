-- ===== src/Catalog/Offers/Once.antt =====
-- web/lib/materialized-catalog.ts, `uniqueOffers`: one offer for each identifier.
use event_recommender.Prelude.{
  ℕ, Bool, List, [], ◌∷◌, if◌then◌else◌, ◌==◌, any_of, ◌≡◌, refl, ◌∙◌, arith,
}
use event_recommender.Prelude.Text.{Text, text_eq, text_eq_iff}
use event_recommender.Prelude.Sums.{sum_of, sum_of-sort_by}
use event_recommender.Catalog.Event.{EventOffer, CatalogEvent}
use event_recommender.Catalog.Offers.{
  Texts, offers_of, put_offer, put_offers, offers_by_id, offer_before, unique_offers,
}

abbrev pub has_offer_id : Text → EventOffer → Bool
has_offer_id t offer = text_eq offer.id t

-- How many of the offers have the identifier.
unfoldable pub offers_with : Text → List EventOffer → ℕ
unfolding sum_of
offers_with t offers = sum_of (λ offer. if has_offer_id t offer then 1 else 0) offers

-- Once if it is new, and as often as before if not.
abbrev with_one : ℕ → Bool → ℕ
with_one n named = if n == 0 then (if named then 1 else 0) else n

module _ (texts : Texts) (t : Text) where
  put_offer_count :
      (found : List EventOffer) (offer : EventOffer)
      → offers_with t (put_offer texts found offer)
        ≡ with_one (offers_with t found) (has_offer_id t offer)
  unfolding put_offer offers_with sum_of
  put_offer_count [] offer = ground arith
  put_offer_count (current ∷ rest) offer = ground (
    arith,
    put_offer_count rest offer,
    text_eq_iff current.id offer.id,
    text_eq_iff current.id t,
    text_eq_iff offer.id t,
  )

  put_offers_count :
      (offers found : List EventOffer)
      → offers_with t (put_offers texts found offers)
        ≡ with_one (offers_with t found) (any_of (has_offer_id t) offers)
  unfolding put_offers any_of
  put_offers_count [] found = ground arith
  put_offers_count (offer ∷ offers) found =
      ground
        (arith, put_offers_count offers (put_offer texts found offer), put_offer_count found offer)

  offers_by_id_count :
      (es : List CatalogEvent) (found : List EventOffer)
      → offers_with t (offers_by_id texts found es)
        ≡ with_one (offers_with t found) (any_of (λ e. any_of (has_offer_id t) (offers_of e)) es)
  unfolding offers_by_id any_of
  offers_by_id_count [] found = ground arith
  offers_by_id_count (e ∷ es) found = ground (
    arith,
    offers_by_id_count es (put_offers texts found (offers_of e)),
    put_offers_count (offers_of e) found,
  )

  -- An identifier that some event offers stands in the offers once, and any other never.
  pub unique_offers_once :
      (es : List CatalogEvent)
      → offers_with t (unique_offers texts es)
        ≡ (if any_of (λ e. any_of (has_offer_id t) (offers_of e)) es then 1 else 0)
  unfolding unique_offers offers_with
  unique_offers_once es =
      sum_of-sort_by (λ offer. if has_offer_id t offer then 1 else 0) (offer_before texts)
        (offers_by_id texts [] es)
      ∙ offers_by_id_count es []
      ∙ (unfold sum_of in refl)

-- ===== src/Identity/Pairs/Keys.antt =====
-- collector/identity/resolve.ts, `pairKey`: the key of a pair determines the pair.
use event_recommender.Prelude.{
  Bool, false, ◌||◌, [], ◌∷◌, ◌++◌, ◌==◌, ◌≡◌, refl, ◌⊎◌, inl, inr, Bool-cases, arith,
}
use event_recommender.Prelude.Text.{Text, text_le}
use event_recommender.Identity.Assess.{pair_key}

-- The unit separator, U+001F, occurs in the text.
unfoldable pub has_separator : Text → Bool
has_separator [] = false
has_separator (c ∷ t) = c == 31 || has_separator t

split_at_separator :
    (a b c d : Text)
    → has_separator a ≡ false
    → has_separator c ≡ false
    → a ++ 31 ∷ b ≡ c ++ 31 ∷ d
    → (a ≡ c) × (b ≡ d)
unfolding has_separator
split_at_separator [] b [] d ha hc e = (refl, cc)
split_at_separator [] b (x ∷ c) d ha hc e = ground arith
split_at_separator (x ∷ a) b [] d ha hc e = ground arith
split_at_separator (x ∷ a) b (y ∷ c) d ha hc e =
    let (front, back) = split_at_separator a b c d (ground arith) (ground arith) (cc) in (cc, back)

pub pair_key-injective :
    (a b c d : Text)
    → has_separator a ≡ false
    → has_separator b ≡ false
    → has_separator c ≡ false
    → has_separator d ≡ false
    → pair_key a b ≡ pair_key c d
    → ((a ≡ c) × (b ≡ d)) ⊎ ((a ≡ d) × (b ≡ c))
unfolding pair_key
pair_key-injective a b c d ha hb hc hd e = elim (Bool-cases (text_le a b)) [
  | inl ab ↦ elim (Bool-cases (text_le c d)) [
    | inl cd ↦ inl (split_at_separator a b c d ha hc (rw cd at (rw ab at e)))
    | inr dc ↦ inr (split_at_separator a b d c ha hd (rw dc at (rw ab at e)))
  ]
  | inr ba ↦ elim (Bool-cases (text_le c d)) [
    | inl cd ↦ crossed (split_at_separator b a c d hb hc (rw cd at (rw ba at e)))
    | inr dc ↦ straight (split_at_separator b a d c hb hd (rw dc at (rw ba at e)))
  ]
]
  where
    crossed : (b ≡ c) × (a ≡ d) → ((a ≡ c) × (b ≡ d)) ⊎ ((a ≡ d) × (b ≡ c))
    crossed h = inr (h.1, h.0)

    straight : (b ≡ d) × (a ≡ c) → ((a ≡ c) × (b ≡ d)) ⊎ ((a ≡ d) × (b ≡ c))
    straight h = inl (h.1, h.0)

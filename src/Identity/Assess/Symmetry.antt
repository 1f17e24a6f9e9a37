-- ===== src/Identity/Assess/Symmetry.antt =====
-- collector/identity/resolve.ts, the two conflicts: neither depends on the order of the pair.
use event_recommender.Prelude.{
  Bool, false, ◌||◌, Option, none, some, List, [], ◌∷◌, any_of, ◌≡◌, refl, sym, ap, ap₂, ◌∙◌, arith,
}
use event_recommender.Prelude.Text.{Text, text_eq, includes}
use event_recommender.Prelude.Distinct.{text_eq_sym}
use event_recommender.Identity.Listing.{
  AttendanceTiming, timed_session, unknown, admission_window, IdentityListing, Policy, child_only,
  adult_only, workshop, performance, adaptation, Rules, known_attendance_timing, policies_of,
}
use event_recommender.Identity.Assess.{
  timing_conflict, has, adaptations, other_adaptation, policy_conflict_of,
  attendance_timing_conflict, policy_conflict,
}
use event_recommender.Identity.Assess.Compatible.{Compatible}

timing_conflict_sym :
    (a b : Option AttendanceTiming) → timing_conflict a b ≡ none → timing_conflict b a ≡ none
timing_conflict_sym none none h = refl
timing_conflict_sym none (some timed_session) h = refl
timing_conflict_sym none (some unknown) h = refl
timing_conflict_sym none (some (admission_window s t)) h = refl
timing_conflict_sym (some timed_session) none h = refl
timing_conflict_sym (some unknown) none h = refl
timing_conflict_sym (some (admission_window s t)) none h = refl
timing_conflict_sym (some timed_session) (some timed_session) h = refl
timing_conflict_sym (some unknown) (some unknown) h = refl
timing_conflict_sym (some (admission_window s t)) (some (admission_window u v)) h =
    ground (arith, text_eq_sym s u, text_eq_sym t v)
timing_conflict_sym a b h = ground arith

has_adaptation : (ps : List Policy) (t : Text) → has ps (adaptation t) ≡ includes (adaptations ps) t
unfolding has adaptations includes
has_adaptation [] t = refl
has_adaptation (adaptation s ∷ ps) t = ap (λ b. text_eq s t || b) (has_adaptation ps t)
has_adaptation (child_only ∷ ps) t = has_adaptation ps t
has_adaptation (adult_only ∷ ps) t = has_adaptation ps t
has_adaptation (workshop ∷ ps) t = has_adaptation ps t
has_adaptation (performance ∷ ps) t = has_adaptation ps t

any_of-cong {ℓ} :
    {A : Type ℓ} (p q : A → Bool) (xs : List A) → ((x : A) → p x ≡ q x) → any_of p xs ≡ any_of q xs
unfolding any_of
any_of-cong p q [] h = refl
any_of-cong p q (x ∷ xs) h = ap₂ (λ a b. a || b) (h x) (any_of-cong p q xs h)

common_none : (xs : List Text) → any_of (includes []) xs ≡ false
unfolding any_of includes
common_none [] = refl
common_none (x ∷ xs) = common_none xs

common_cons :
    (y : Text) (xs ys : List Text)
    → any_of (includes (y ∷ ys)) xs ≡ (includes xs y || any_of (includes ys) xs)
unfolding any_of includes
common_cons y [] ys = refl
common_cons y (x ∷ xs) ys = ground (arith, common_cons y xs ys, text_eq_sym x y)

common_sym : (xs ys : List Text) → any_of (includes ys) xs ≡ any_of (includes xs) ys
unfolding any_of
common_sym xs [] = common_none xs
common_sym xs (y ∷ ys) = common_cons y xs ys ∙ ap (λ b. includes xs y || b) (common_sym xs ys)

shared_adaptation :
    (a b : List Policy)
    → any_of (λ t. has b (adaptation t)) (adaptations a)
      ≡ any_of (λ t. has a (adaptation t)) (adaptations b)
shared_adaptation a b =
    any_of-cong _ (includes (adaptations b)) (adaptations a) (has_adaptation b)
    ∙ common_sym (adaptations a) (adaptations b)
    ∙ sym (any_of-cong _ (includes (adaptations a)) (adaptations b) (has_adaptation a))

policy_conflict_sym :
    (a b : List Policy) → policy_conflict_of a b ≡ none → policy_conflict_of b a ≡ none
unfolding policy_conflict_of other_adaptation
policy_conflict_sym a b h = ground (arith, shared_adaptation a b)

pub Compatible-sym :
    (rules : Rules) (venue : Text → Text) (left right : IdentityListing)
    → Compatible rules venue left right
    → Compatible rules venue right left
Compatible-sym rules venue left right c = record {
  time = c.time;
  left_time = c.right_time;
  right_time = c.left_time;
  city = sym c.city;
  providers = λ e. c.providers (sym e);
  venues = sym c.venues;
  timing =
      unfold attendance_timing_conflict in
      timing_conflict_sym (known_attendance_timing rules left) (known_attendance_timing rules right)
        (unfold attendance_timing_conflict in c.timing);
  policy =
      unfold policy_conflict in
      policy_conflict_sym (policies_of rules left) (policies_of rules right)
        (unfold policy_conflict in c.policy);
}

-- ===== src/Plan/Evaluate/Facts.antt =====
-- The status of a condition speaks the truth about every event whose facts agree with the checks.
use mathlib.Core.Bool.{not as negate}
use event_recommender.Prelude.{
  ◌≡◌, refl, sym, subst, inl, inr, Bool, true, false, ◌&&◌, ◌||◌, List, [], ◌∷◌, arith, Bool-cases,
}
use event_recommender.Prelude.Text.{Text}
use event_recommender.Plan.{Atom, Condition, Conditions, nil, cons, all, any}
use event_recommender.Plan.Evaluate.{
  Status, supported, unknown, contradicted, Checked, status_of, statuses, is_topic, leaf_status,
  opposite, evaluate, evaluate_each,
}
use event_recommender.Plan.Evaluate.Logic.{meet, join, meet_all, join_all, group-all, group-any}

-- What a condition says of an event whose facts are `truth`.
mutual
  pub holds : (Atom → Bool) → Condition → Bool
  holds truth (Condition.atom a id) = truth a
  holds truth (Condition.not c id) = negate (holds truth c)
  holds truth (Condition.group all cs id) = holds_every truth cs
  holds truth (Condition.group any cs id) = holds_some truth cs

  pub holds_every : (Atom → Bool) → Conditions → Bool
  holds_every truth nil = true
  holds_every truth (cons c cs) = holds truth c && holds_every truth cs

  pub holds_some : (Atom → Bool) → Conditions → Bool
  holds_some truth nil = false
  holds_some truth (cons c cs) = holds truth c || holds_some truth cs

-- The facts agree with one check: what it supports is true, what it contradicts is false, and
-- under a negation a topic that the source does not name is false.
pub record AgreesAt (truth : Atom → Bool) (check : Atom → Checked) (negated : Bool) (a : Atom)
    : Type 0 where
  pub when_supported : (check a).status ≡ supported → truth a ≡ true
  pub when_contradicted : (check a).status ≡ contradicted → truth a ≡ false
  pub when_absent :
      negated ≡ true
      → is_topic a ≡ true
      → (check a).status ≡ unknown
      → (check a).evidence ≡ []
      → truth a ≡ false

-- They agree with the checks of all atoms of a condition, each under its own polarity.
unfoldable mutual
  pub Agrees : (Atom → Bool) → (Atom → Checked) → Bool → Condition → Type 0
  Agrees truth check negated (Condition.atom a id) = AgreesAt truth check negated a
  Agrees truth check negated (Condition.not c id) = Agrees truth check (negate negated) c
  Agrees truth check negated (Condition.group k cs id) = AgreesEach truth check negated cs

  pub AgreesEach : (Atom → Bool) → (Atom → Checked) → Bool → Conditions → Type 0
  AgreesEach truth check negated nil = Unit
  AgreesEach truth check negated (cons c cs) =
      Agrees truth check negated c × AgreesEach truth check negated cs

-- A status speaks the truth about `b`: supported means true, contradicted false, unknown nothing.
abbrev pub Tells : Status → Bool → Type 0
Tells supported b = b ≡ true
Tells contradicted b = b ≡ false
Tells unknown b = Unit

Tells-of :
    (negated : Bool) (a : Atom) (s : Status) (ts : List Text) (b : Bool)
    → (s ≡ supported → b ≡ true)
    → (s ≡ contradicted → b ≡ false)
    → (negated ≡ true → is_topic a ≡ true → s ≡ unknown → ts ≡ [] → b ≡ false)
    → Tells (leaf_status negated a (record { status = s; evidence = ts })) b
unfolding leaf_status
Tells-of negated a supported ts b p q r =
    let kept : leaf_status negated a (record { status = supported; evidence = ts }) ≡ supported =
      ground arith in
    subst (λ s. Tells s b) (sym kept) (p refl)
Tells-of negated a contradicted ts b p q r =
    let kept : leaf_status negated a (record { status = contradicted; evidence = ts })
        ≡ contradicted =
      ground arith in
    subst (λ s. Tells s b) (sym kept) (q refl)
Tells-of negated a unknown (t ∷ ts) b p q r =
    let kept : leaf_status negated a (record { status = unknown; evidence = t ∷ ts }) ≡ unknown =
      ground arith in
    subst (λ s. Tells s b) (sym kept) tt
Tells-of true a unknown [] b p q r = elim (Bool-cases (is_topic a)) [
  | inl named ↦ rw named (r refl named refl refl)
  | inr other ↦ rw other tt
]
Tells-of false a unknown [] b p q r = tt

leaf-Tells :
    (truth : Atom → Bool) (check : Atom → Checked) (negated : Bool) (a : Atom)
    → AgreesAt truth check negated a
    → Tells (leaf_status negated a (check a)) (truth a)
unfolding leaf_status
leaf-Tells truth check negated a h =
    Tells-of negated a (check a).status (check a).evidence (truth a) h.when_supported
      h.when_contradicted h.when_absent

opposite-Tells : (s : Status) (b : Bool) → Tells s b → Tells (opposite s) (negate b)
unfolding opposite
opposite-Tells supported b h = rw h refl
opposite-Tells contradicted b h = rw h refl
opposite-Tells unknown b h = tt

meet-Tells : (s t : Status) (b c : Bool) → Tells s b → Tells t c → Tells (meet s t) (b && c)
unfolding meet
meet-Tells supported supported b c h k = ground arith
meet-Tells supported contradicted b c h k = ground arith
meet-Tells supported unknown b c h k = tt
meet-Tells contradicted t b c h k = ground arith
meet-Tells unknown supported b c h k = tt
meet-Tells unknown contradicted b c h k = ground arith
meet-Tells unknown unknown b c h k = tt

join-Tells : (s t : Status) (b c : Bool) → Tells s b → Tells t c → Tells (join s t) (b || c)
unfolding join
join-Tells contradicted supported b c h k = ground arith
join-Tells contradicted contradicted b c h k = ground arith
join-Tells contradicted unknown b c h k = tt
join-Tells supported t b c h k = ground arith
join-Tells unknown contradicted b c h k = tt
join-Tells unknown supported b c h k = ground arith
join-Tells unknown unknown b c h k = tt

mutual
  unfolding evaluate evaluate_each holds holds_every holds_some Agrees AgreesEach meet_all join_all

  evaluate-Tells :
      (truth : Atom → Bool) (check : Atom → Checked) (negated : Bool) (c : Condition)
      → Agrees truth check negated c
      → Tells (status_of (evaluate check negated c)) (holds truth c)
  evaluate-Tells truth check negated (Condition.atom a id) h = leaf-Tells truth check negated a h
  evaluate-Tells truth check negated (Condition.not c id) h =
      opposite-Tells _ _ (evaluate-Tells truth check (negate negated) c h)
  evaluate-Tells truth check negated (Condition.group all cs id) h =
      rw (group-all (statuses (evaluate_each check negated cs)))
        (every-Tells truth check negated cs h)
  evaluate-Tells truth check negated (Condition.group any cs id) h =
      rw (group-any (statuses (evaluate_each check negated cs)))
        (some-Tells truth check negated cs h)

  every-Tells :
      (truth : Atom → Bool) (check : Atom → Checked) (negated : Bool) (cs : Conditions)
      → AgreesEach truth check negated cs
      → Tells (meet_all (statuses (evaluate_each check negated cs))) (holds_every truth cs)
  every-Tells truth check negated nil h = refl
  every-Tells truth check negated (cons c cs) h =
      meet-Tells _ _ _ _ (evaluate-Tells truth check negated c h.0)
        (every-Tells truth check negated cs h.1)

  some-Tells :
      (truth : Atom → Bool) (check : Atom → Checked) (negated : Bool) (cs : Conditions)
      → AgreesEach truth check negated cs
      → Tells (join_all (statuses (evaluate_each check negated cs))) (holds_some truth cs)
  some-Tells truth check negated nil h = refl
  some-Tells truth check negated (cons c cs) h =
      join-Tells _ _ _ _ (evaluate-Tells truth check negated c h.0)
        (some-Tells truth check negated cs h.1)

-- If the facts of an event agree with the checks of a condition's atoms, then a supported
-- condition is true of the event and a contradicted one is false.
pub evaluate_sound :
    (truth : Atom → Bool) (check : Atom → Checked) (negated : Bool) (c : Condition)
    → Agrees truth check negated c
    → Tells (status_of (evaluate check negated c)) (holds truth c)
evaluate_sound truth check negated c h = evaluate-Tells truth check negated c h

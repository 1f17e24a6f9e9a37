-- ===== src/Plan/Search/Accepted.antt =====
-- web/lib/plan-evidence.ts, `validateSearchPlan`: which plans it accepts, in terms of the plan alone.
use mathlib.Core.Bool.{not as negate}
use event_recommender.Prelude.{
  ℕ, ◌+◌, ◌≡◌, refl, sym, ap, subst, ◌∙◌, ◌⊎◌, inl, inr, Bool, true, false, ◌&&◌, List, [], ◌∷◌,
  ◌++◌, Option, Result, ok, guard, ◌>>=◌, ◌>>◌, >>=-eq-ok, Bool-cases, length, length-append, arith,
  if◌then◌else◌,
}
use event_recommender.Prelude.Text.{Text}
use event_recommender.Prelude.Number.{Number}
use event_recommender.Plan.{
  LocationPrecision, Experience, Atom, budget, party, BudgetBasis, Connective, all, any, Condition,
  Conditions, mood, age, companion, date, time, location, category, topic, experience, content,
}
use event_recommender.Plan.Evaluate.Event.{Checks}
use event_recommender.Plan.Evaluate.{gather_parties, gather_each}
use event_recommender.Plan.Search.{
  Tally, set_add, is_group_total, is_approx, is_all, is_canonical, visit_hard, visit_atom, visit,
  visit_each, count_budget, count_party,
}

-- The number of budgets of a condition that bound a group's total.
unfoldable mutual
  pub group_totals : Condition → ℕ
  group_totals (Condition.atom (budget comparison amount basis) id) =
      if is_group_total basis then 1 else 0
  group_totals (Condition.atom _ id) = 0
  group_totals (Condition.group conn cs id) = group_totals_each cs
  group_totals (Condition.not c id) = group_totals c

  pub group_totals_each : Conditions → ℕ
  group_totals_each Conditions.nil = 0
  group_totals_each (Conditions.cons c cs) = group_totals c + group_totals_each cs

-- The party counts that a condition states outside every alternative and negation.
abbrev parties_of : Bool → Condition → List Number
parties_of u c = if u then gather_parties c else []

abbrev parties_each : Bool → Conditions → List Number
parties_each u cs = if u then gather_each cs else []

unfoldable pub add_all : List Number → List Number → List Number
add_all set [] = set
add_all set (n ∷ ns) = add_all (set_add set n) ns

add_all-append : (set ms ns : List Number) → add_all set (ms ++ ns) ≡ add_all (add_all set ms) ns
unfolding add_all
add_all-append set [] ns = refl
add_all-append set (m ∷ ms) ns = add_all-append (set_add set m) ms ns

abbrev pub counted : Tally → List Number → ℕ → Tally
counted t ns g = record {
  parties = t.parties + length ns;
  group_budgets = t.group_budgets + g;
  party_counts = add_all t.party_counts ns;
}

Tally-ext :
    {t u : Tally}
    → t.parties ≡ u.parties
    → t.group_budgets ≡ u.group_budgets
    → t.party_counts ≡ u.party_counts
    → t ≡ u
Tally-ext p q r = λ i. record { parties = p i; group_budgets = q i; party_counts = r i }

counted-append :
    (t : Tally) (ms ns : List Number) (g h : ℕ)
    → counted (counted t ms g) ns h ≡ counted t (ms ++ ns) (g + h)
counted-append t ms ns g h =
    Tally-ext (omega (arith, length-append ms ns)) (omega arith)
      (sym (add_all-append t.party_counts ms ns))

counted_nothing : (t : Tally) → t ≡ counted t [] 0
unfolding add_all
counted_nothing t = Tally-ext (omega arith) (omega arith) refl

-- What the search supports in a hard condition; `u` tells that no alternative and no negation is around it.
unfoldable pub is_searchable_atom : Checks → Bool → Atom → Bool
is_searchable_atom k u (mood value) = false
is_searchable_atom k u (party count) = u
is_searchable_atom k u (companion value) = u
is_searchable_atom k u (budget comparison amount basis) = negate (is_approx comparison)
is_searchable_atom k u (location name LocationPrecision.neighborhood) = false
is_searchable_atom k u (location name precision) = is_canonical k (location name precision)
is_searchable_atom k u (experience Experience.beginner_friendly) = false
is_searchable_atom k u _ = true

unfoldable mutual
  unfolding is_searchable_atom

  pub is_searchable : Checks → Bool → Condition → Bool
  is_searchable k u (Condition.atom a id) = is_searchable_atom k u a
  is_searchable k u (Condition.group conn cs id) = is_searchable_each k (u && is_all conn) cs
  is_searchable k u (Condition.not c id) = is_searchable k false c

  pub is_searchable_each : Checks → Bool → Conditions → Bool
  is_searchable_each k u Conditions.nil = true
  is_searchable_each k u (Conditions.cons c cs) = is_searchable k u c && is_searchable_each k u cs

-- No party count, inside or outside every alternative.
nothing_counted : (u : Bool) (t : Tally) → t ≡ counted t (if u then [] else []) 0
unfolding add_all
nothing_counted true t = counted_nothing t
nothing_counted false t = counted_nothing t

count_budget-counted :
    (u : Bool) (basis : BudgetBasis) (t : Tally)
    → count_budget basis t
      ≡ counted t (if u then [] else []) (if is_group_total basis then 1 else 0)
unfolding count_budget add_all
count_budget-counted u BudgetBasis.per_person t = nothing_counted u t
count_budget-counted u BudgetBasis.per_ticket t = nothing_counted u t
count_budget-counted true BudgetBasis.group_total t = Tally-ext (omega arith) refl refl
count_budget-counted false BudgetBasis.group_total t = Tally-ext (omega arith) refl refl

-- What is supported passes with the counts `to`; the rest is refused.
abbrev Settles : Bool → Result Tally → Tally → Type 0
Settles supported r to =
    ((supported ≡ true) × (r ≡ ok to)) ⊎ ((supported ≡ false) × ((t : Tally) → ¬ r ≡ ok t))

guarded_location :
    (c : Bool) (u : Bool) (t : Tally)
    → Settles c
        (guard c "noncanonical district is unsupported" >> ok t)
        (counted t (if u then [] else []) 0)
guarded_location true u t = inl (refl, ap ok (nothing_counted u t))
guarded_location false u t = inr (refl, λ t' h. cc)

visit_hard_cases :
    (k : Checks) (u : Bool) (a : Atom) (id : Option Text) (t : Tally)
    → Settles
        (is_searchable_atom k u a)
        (visit_hard k u a t)
        (counted t (parties_of u (Condition.atom a id)) (group_totals (Condition.atom a id)))
unfolding visit_hard count_party gather_parties group_totals add_all is_searchable_atom
visit_hard_cases k u (budget comparison amount basis) id t =
    elim (Bool-cases (is_approx comparison)) [
      | inl e ↦ rw e (inr (refl, λ t' h. cc))
      | inr e ↦ rw e (inl (refl, ap ok (count_budget-counted u basis t)))
    ]
visit_hard_cases k true (party count) id t = inl (refl, ap ok (Tally-ext refl (omega arith) refl))
visit_hard_cases k false (party count) id t = inr (refl, λ t' h. cc)
visit_hard_cases k true (companion value) id t = inl (refl, ap ok (nothing_counted true t))
visit_hard_cases k false (companion value) id t = inr (refl, λ t' h. cc)
visit_hard_cases k u (mood value) id t = inr (refl, λ t' h. cc)
visit_hard_cases k u (experience Experience.beginner_friendly) id t = inr (refl, λ t' h. cc)
visit_hard_cases k u (location name LocationPrecision.neighborhood) id t = inr (refl, λ t' h. cc)
visit_hard_cases k u (location name LocationPrecision.side) id t =
    guarded_location (is_canonical k (location name LocationPrecision.side)) u t
visit_hard_cases k u (location name LocationPrecision.district) id t =
    guarded_location (is_canonical k (location name LocationPrecision.district)) u t
visit_hard_cases k u (age years) id t = inl (refl, ap ok (nothing_counted u t))
visit_hard_cases k u (date from until) id t = inl (refl, ap ok (nothing_counted u t))
visit_hard_cases k u (time from until x y) id t = inl (refl, ap ok (nothing_counted u t))
visit_hard_cases k u (category value) id t = inl (refl, ap ok (nothing_counted u t))
visit_hard_cases k u (topic value) id t = inl (refl, ap ok (nothing_counted u t))
visit_hard_cases k u (experience Experience.quiet) id t = inl (refl, ap ok (nothing_counted u t))
visit_hard_cases k u (experience Experience.seated) id t = inl (refl, ap ok (nothing_counted u t))
visit_hard_cases k u (experience Experience.outdoors) id t = inl (refl, ap ok (nothing_counted u t))
visit_hard_cases k u (experience Experience.wheelchair_accessible) id t =
    inl (refl, ap ok (nothing_counted u t))
visit_hard_cases k u (experience Experience.family_friendly) id t =
    inl (refl, ap ok (nothing_counted u t))
visit_hard_cases k u (experience Experience.uncrowded) id t =
    inl (refl, ap ok (nothing_counted u t))
visit_hard_cases k u (experience Experience.romantic) id t = inl (refl, ap ok (nothing_counted u t))
visit_hard_cases k u (content value) id t = inl (refl, ap ok (nothing_counted u t))

under_not :
    (k : Checks) (u : Bool) (c : Condition) (id : Option Text) (t : Tally)
    → Settles (is_searchable k false c) (visit k true false c t) (counted t [] (group_totals c))
    → Settles
        (is_searchable k u (Condition.not c id))
        (visit k true u (Condition.not c id) t)
        (counted t (parties_of u (Condition.not c id)) (group_totals (Condition.not c id)))
unfolding visit is_searchable group_totals gather_parties
under_not k true c id t h = h
under_not k false c id t h = h

under_group :
    (k : Checks) (u : Bool) (conn : Connective) (cs : Conditions) (id : Option Text) (t : Tally)
    → Settles
        (is_searchable_each k (u && is_all conn) cs)
        (visit_each k true (u && is_all conn) cs t)
        (counted t (parties_each (u && is_all conn) cs) (group_totals_each cs))
    → Settles
        (is_searchable k u (Condition.group conn cs id))
        (visit k true u (Condition.group conn cs id) t)
        (counted t
          (parties_of u (Condition.group conn cs id))
          (group_totals (Condition.group conn cs id)))
unfolding visit is_searchable group_totals gather_parties
under_group k true all cs id t h = h
under_group k true any cs id t h = h
under_group k false conn cs id t h = h

parties_each-cons :
    (u : Bool) (c : Condition) (cs : Conditions)
    → parties_of u c ++ parties_each u cs ≡ parties_each u (Conditions.cons c cs)
unfolding gather_parties
parties_each-cons true c cs = refl
parties_each-cons false c cs = refl

after_first :
    {s₁ s₂ : Bool} {to end : Tally} (m : Result Tally) (f : Tally → Result Tally)
    → Settles s₁ m to
    → Settles s₂ (f to) end
    → Settles (s₁ && s₂) (m >>= f) end
after_first m f (inl (p, q)) (inl (p₂, q₂)) = inl (rw p p₂, rw q q₂)
after_first m f (inl (p, q)) (inr (p₂, q₂)) = inr (rw p p₂, rw q q₂)
after_first m f (inr (p, q)) d =
    inr (rw p refl, λ t h. let (u, e, _) = >>=-eq-ok m f h in elim (q u e) [ ])

mutual
  unfolding visit visit_atom is_searchable group_totals gather_parties

  pub visit_cases :
      (k : Checks) (u : Bool) (c : Condition) (t : Tally)
      → Settles
          (is_searchable k u c)
          (visit k true u c t)
          (counted t (parties_of u c) (group_totals c))
  visit_cases k u (Condition.atom a id) t = visit_hard_cases k u a id t
  visit_cases k u (Condition.not c id) t = under_not k u c id t (visit_cases k false c t)
  visit_cases k u (Condition.group conn cs id) t =
      under_group k u conn cs id t (visit_each_cases k (u && is_all conn) cs t)

  visit_each_cases :
      (k : Checks) (u : Bool) (cs : Conditions) (t : Tally)
      → Settles
          (is_searchable_each k u cs)
          (visit_each k true u cs t)
          (counted t (parties_each u cs) (group_totals_each cs))
  visit_each_cases k u Conditions.nil t = inl (refl, ap ok (nothing_counted u t))
  visit_each_cases k u (Conditions.cons c cs) t =
      subst
        (λ end.
          Settles (is_searchable_each k u (Conditions.cons c cs))
            (visit_each k true u (Conditions.cons c cs) t) end)
        (counted-append t (parties_of u c) (parties_each u cs) (group_totals c)
            (group_totals_each cs)
          ∙ ap (λ ns. counted t ns (group_totals_each (Conditions.cons c cs)))
              (parties_each-cons u c cs))
        (after_first (visit k true u c t) (visit_each k true u cs) (visit_cases k u c t)
          (visit_each_cases k u cs (counted t (parties_of u c) (group_totals c))))

-- A preference is never refused and never counted.
mutual
  unfolding visit visit_atom

  visit_preference :
      (k : Checks) (u : Bool) (c : Condition) (t : Tally) → visit k false u c t ≡ ok t
  visit_preference k u (Condition.atom a id) t = refl
  visit_preference k u (Condition.not c id) t = visit_preference k false c t
  visit_preference k u (Condition.group conn cs id) t = visit_preferences k (u && is_all conn) cs t

  pub visit_preferences :
      (k : Checks) (u : Bool) (cs : Conditions) (t : Tally) → visit_each k false u cs t ≡ ok t
  visit_preferences k u Conditions.nil t = refl
  visit_preferences k u (Conditions.cons c cs) t =
      rw (visit_preference k u c t) (visit_preferences k u cs t)

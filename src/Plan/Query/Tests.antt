-- ===== src/Plan/Query/Tests.antt =====
-- The query of a plan that asks for jazz and for no concert.
use mathlib.Core.List.{Memᴰ}
use event_recommender.Prelude.{true, ◌↔◌, none, [], ◌≡◌, refl}
use event_recommender.Prelude.Text.{codes, take_units, includes}
use event_recommender.Plan.{Category, Order, Atom, Connective, Condition, Conditions}
use event_recommender.Plan.Query.{atom_text, positive_concepts, plan_retrieval_query}
use event_recommender.Plan.Query.Concepts.{Names, positive_concepts_iff}

abbrev no_concert_but_jazz : Condition
no_concert_but_jazz =
    Condition.group Connective.all
      (Conditions.cons (Condition.not (Condition.atom (Atom.category Category.concert) none) none)
        (Conditions.cons (Condition.atom (Atom.topic (codes "jazz")) none) Conditions.nil))
      none

positive_concepts_iff_example :
    Memᴰ (codes "jazz") (positive_concepts (λ n. []) no_concert_but_jazz true)
    ↔ Names (λ n. []) (codes "jazz") true no_concert_but_jazz
positive_concepts_iff_example = positive_concepts_iff (λ n. []) no_concert_but_jazz (codes "jazz")

only_jazz :
    plan_retrieval_query
      (λ n. [])
      (record { hard = no_concert_but_jazz; preferences = []; order = Order.none })
    ≡ codes "jazz"
unfolding plan_retrieval_query positive_concepts atom_text take_units includes
only_jazz = refl

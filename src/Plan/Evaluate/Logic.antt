-- ===== src/Plan/Evaluate/Logic.antt =====
-- The status of a group is a fold of the strong three-valued connectives.
use event_recommender.Prelude.{◌≡◌, refl, ap, ◌∙◌, List, [], ◌∷◌, arith}
use event_recommender.Plan.{all, any}
use event_recommender.Plan.Evaluate.{Status, supported, unknown, contradicted, group_status}

-- Conjunction and disjunction of the strong three-valued logic.
unfoldable pub meet : Status → Status → Status
meet contradicted t = contradicted
meet supported t = t
meet unknown contradicted = contradicted
meet unknown t = unknown

unfoldable pub join : Status → Status → Status
join supported t = supported
join contradicted t = t
join unknown supported = supported
join unknown t = unknown

unfoldable pub meet_all : List Status → Status
meet_all [] = supported
meet_all (s ∷ ss) = meet s (meet_all ss)

unfoldable pub join_all : List Status → Status
join_all [] = contradicted
join_all (s ∷ ss) = join s (join_all ss)

group-all-cons :
    (s : Status) (ss : List Status) → group_status all (s ∷ ss) ≡ meet s (group_status all ss)
unfolding group_status meet
group-all-cons supported ss = refl
group-all-cons contradicted ss = refl
group-all-cons unknown ss = ground arith

group-any-cons :
    (s : Status) (ss : List Status) → group_status any (s ∷ ss) ≡ join s (group_status any ss)
unfolding group_status join
group-any-cons supported ss = refl
group-any-cons contradicted ss = refl
group-any-cons unknown ss = ground arith

pub group-all : (ss : List Status) → group_status all ss ≡ meet_all ss
unfolding meet_all
group-all [] = unfold group_status in refl
group-all (s ∷ ss) = group-all-cons s ss ∙ ap (meet s) (group-all ss)

pub group-any : (ss : List Status) → group_status any ss ≡ join_all ss
unfolding join_all
group-any [] = unfold group_status in refl
group-any (s ∷ ss) = group-any-cons s ss ∙ ap (join s) (group-any ss)

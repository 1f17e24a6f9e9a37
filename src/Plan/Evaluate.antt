-- ===== src/Plan/Evaluate.antt =====
-- web/lib/plan-evidence.ts, lines 21 to 48 and 337 to 413: three-valued evidence for a plan.
-- `check` stands for `atomResult(event, atom, now, partyCount)`, which Plan/Evaluate/Atoms.antt models.
pub mod Event
pub mod Atoms
pub mod Logic
pub mod Facts
pub mod Duality
use mathlib.Core.Bool.{not as negate}
use event_recommender.Prelude.{
  Bool, true, false, ◌&&◌, ◌||◌, Option, none, some, List, [], ◌∷◌, ◌++◌, every, any_of,
  if◌then◌else◌,
}
use event_recommender.Prelude.Text.{Text}
use event_recommender.Prelude.Number.{Number}
use event_recommender.Plan.{
  Atom, topic, party, Condition, Conditions, Connective, all, any, Plan, to_list,
}

pub data Status : Type 0 where
  supported unknown contradicted : Status

abbrev pub is_supported : Status → Bool
is_supported supported = true
is_supported _ = false

abbrev pub is_unknown : Status → Bool
is_unknown unknown = true
is_unknown _ = false

abbrev pub is_contradicted : Status → Bool
is_contradicted contradicted = true
is_contradicted _ = false

-- { status, evidence }
pub record Checked : Type 0 where
  pub status : Status
  pub evidence : List Text

mutual
  pub data PlanEvidence : Type 0 where
    atom : Atom → Status → List Text → Option Text → PlanEvidence
    group : Connective → Status → Children → Option Text → PlanEvidence
    not : Status → PlanEvidence → Option Text → PlanEvidence

  pub data Children : Type 0 where
    nil : Children
    cons : PlanEvidence → Children → Children

abbrev pub status_of : PlanEvidence → Status
status_of (PlanEvidence.atom a status evidence id) = status
status_of (PlanEvidence.group k status children id) = status
status_of (PlanEvidence.not status child id) = status

abbrev pub statuses : Children → List Status
statuses Children.nil = []
statuses (Children.cons e es) = status_of e ∷ statuses es

abbrev pub is_topic : Atom → Bool
is_topic (topic value) = true
is_topic _ = false

abbrev pub no_texts : List Text → Bool
no_texts [] = true
no_texts (t ∷ ts) = false

-- An absent topic counts as contradicted under a negation.
unfoldable pub leaf_status : Bool → Atom → Checked → Status
leaf_status negated a c =
    if negated && is_topic a && is_unknown c.status && no_texts c.evidence
    then contradicted
    else c.status

unfoldable pub opposite : Status → Status
opposite unknown = unknown
opposite supported = contradicted
opposite contradicted = supported

unfoldable pub group_status : Connective → List Status → Status
unfolding every any_of
group_status all ss =
    if any_of is_contradicted ss
    then contradicted
    else if every is_supported ss
    then supported
    else unknown
group_status any ss =
    if any_of is_supported ss
    then supported
    else if every is_contradicted ss
    then contradicted
    else unknown

unfoldable mutual
  unfolding leaf_status opposite group_status

  pub evaluate : (Atom → Checked) → Bool → Condition → PlanEvidence
  evaluate check negated (Condition.atom a id) =
      PlanEvidence.atom a (leaf_status negated a (check a)) (check a).evidence id
  evaluate check negated (Condition.not c id) =
      let child = evaluate check (negate negated) c in
      PlanEvidence.not (opposite (status_of child)) child id
  evaluate check negated (Condition.group k cs id) =
      let children = evaluate_each check negated cs in
      PlanEvidence.group k (group_status k (statuses children)) children id

  pub evaluate_each : (Atom → Checked) → Bool → Conditions → Children
  evaluate_each check negated Conditions.nil = Children.nil
  evaluate_each check negated (Conditions.cons c cs) =
      Children.cons (evaluate check negated c) (evaluate_each check negated cs)

-- `gatherParties(condition, true)`: it goes down through `all` alone.
unfoldable mutual
  pub gather_parties : Condition → List Number
  gather_parties (Condition.atom (party count) id) = count ∷ []
  gather_parties (Condition.atom _ id) = []
  gather_parties (Condition.group all cs id) = gather_each cs
  gather_parties (Condition.group any cs id) = []
  gather_parties (Condition.not c id) = []

  pub gather_each : Conditions → List Number
  gather_each Conditions.nil = []
  gather_each (Conditions.cons c cs) = gather_parties c ++ gather_each cs

abbrev pub only : List Number → Option Number
only (n ∷ []) = some n
only _ = none

unfoldable pub plan_party_count : Plan → Option Number
unfolding gather_parties
plan_party_count plan = only (gather_parties plan.hard)

-- ===== src/Plan/Reduce.antt =====
-- web/parser/state.ts, lines 90 to 149: `applyOperations`, the reducer of plans.
-- The variables of the loop are the fields of `Work`; the loop throws by returning `err`.
pub mod Ids
pub mod Identities
pub mod Numbered
pub mod Targets
pub mod Corrections
pub mod Start
pub mod Additions
use mathlib.Core.Bool.{not as negate}
use mathlib.Core.List.{append-nil}
use Prim.Native.Nat.{max}
use event_recommender.Prelude.{
  ℕ, zero, suc, ◌+◌, Bool, true, false, ◌&&◌, ◌||◌, Option, none, some, List, [], ◌∷◌, ◌++◌, map,
  leb, ◌==◌, Result, ok, err, ◌>>=◌, ◌>>◌, guard, length, every, any_of, is_some, if◌then◌else◌,
}
use event_recommender.Prelude.Text.{Text, text_eq}
use event_recommender.Prelude.Decimal.{is_digit, scan, decimal}
use event_recommender.Prelude.Number.{Number, num, is_integer, num_le}
use event_recommender.Prelude.Double.{exact_limit, double_of}
use event_recommender.Prelude.Js.{Js}
use event_recommender.Plan.{
  Condition, Conditions, nil, cons, Plan, PreviousState, Strength, Operation, Order, empty_plan,
  id_of, with_id, to_list, of_list,
}
use event_recommender.Plan.Validate.{is_all, validate_plan}
use event_recommender.Plan.Stable.{stable}

unfoldable mutual
  pub clone_without_ids : Condition → Condition
  clone_without_ids (Condition.atom a id) = Condition.atom a none
  clone_without_ids (Condition.not c id) = Condition.not (clone_without_ids c) none
  clone_without_ids (Condition.group k cs id) = Condition.group k (clone_each cs) none

  pub clone_each : Conditions → Conditions
  clone_each nil = nil
  clone_each (cons c cs) = cons (clone_without_ids c) (clone_each cs)

-- The number of an id that matches /^h\d+$/u, or /^p\d+$/u, for the letter `prefix`.
unfoldable pub index_of : ℕ → Text → Option ℕ
unfolding every scan double_of
index_of prefix [] = none
index_of prefix (c ∷ []) = none
index_of prefix (c ∷ d ∷ s) =
    if c == prefix && every is_digit (d ∷ s) then some (double_of (scan 0 (d ∷ s))) else none

abbrev pub option_index : ℕ → Option Text → Option ℕ
option_index prefix none = none
option_index prefix (some id) = index_of prefix id

-- One more than an index, and 0 for none: `-1 + 1`.
abbrev pub successor : Option ℕ → ℕ
successor none = 0
successor (some n) = suc n

-- One more than Math.max(-1, ...indices), before it is rounded.
unfoldable pub above_indices : ℕ → List Condition → ℕ
above_indices prefix [] = 0
above_indices prefix (c ∷ cs) =
    max (successor (option_index prefix (id_of c))) (above_indices prefix cs)

-- Math.max(-1, ...indices) + 1
unfoldable pub next_index : ℕ → List Condition → ℕ
unfolding above_indices double_of
next_index prefix cs = double_of (above_indices prefix cs)

pub record Work : Type 0 where
  pub hard : List Condition
  pub preferred : List Condition
  pub order : Order
  pub hard_index : ℕ
  pub preferred_index : ℕ

-- c.id === id
abbrev pub has_id : Text → Condition → Bool
has_id id c = elim (id_of c) [ none ↦ false | some own ↦ text_eq own id ]

-- list.findIndex((c) => c.id === id), none for -1
unfoldable pub find_index : Text → List Condition → Option ℕ
find_index id [] = none
find_index id (c ∷ cs) =
    if has_id id c then some 0 else elim (find_index id cs) [ none ↦ none | some n ↦ some (suc n) ]

-- list.splice(index, 1)
unfoldable pub splice : ℕ → List Condition → List Condition
splice n [] = []
splice zero (c ∷ cs) = cs
splice (suc n) (c ∷ cs) = c ∷ splice n cs

-- list[index] = condition
unfoldable pub assign : ℕ → Condition → List Condition → List Condition
assign n d [] = []
assign zero d (c ∷ cs) = d ∷ cs
assign (suc n) d (c ∷ cs) = c ∷ assign n d cs

pub record Target : Type 0 where
  pub in_hard : Bool
  pub index : ℕ
  pub preferred : Bool

-- The list is `hard` if the id is found there, and `preferred` says whether it is found in the other.
abbrev pub target_of : Option ℕ → Option ℕ → Result Target
target_of (some h) p = ok (record { in_hard = true; index = h; preferred = is_some p })
target_of none (some p) = ok (record { in_hard = false; index = p; preferred = true })
target_of none none = err "unknown/non-top-level correction target"

unfoldable pub lookup : Text → Work → Result Target
unfolding find_index is_some
lookup id w = target_of (find_index id w.hard) (find_index id w.preferred)

-- target.list.splice(target.index, 1)
unfoldable pub take_out : Target → Work → Work
unfolding splice
take_out t w =
    if t.in_hard
    then record w { hard = splice t.index w.hard }
    else record w { preferred = splice t.index w.preferred }

-- target.list[target.index] = condition
unfoldable pub put_at : Target → Condition → Work → Work
unfolding assign
put_at t c w =
    if t.in_hard
    then record w { hard = assign t.index c w.hard }
    else record w { preferred = assign t.index c w.preferred }

abbrev pub is_preferred : Strength → Bool
is_preferred Strength.preferred = true
is_preferred Strength.hard = false

-- operation.strength ? operation.strength === 'preferred' : target.preferred
abbrev pub as_preferred : Option Strength → Target → Bool
as_preferred none t = t.preferred
as_preferred (some s) t = is_preferred s

abbrev pub same : Bool → Bool → Bool
same true b = b
same false b = negate b

-- list.push(condition)
unfoldable pub push : Bool → Condition → Work → Work
push true c w = record w { preferred = w.preferred ++ c ∷ [] }
push false c w = record w { hard = w.hard ++ c ∷ [] }

-- String(n): the decimal digits where `n` is exact, and the text of that number beyond.
abbrev pub number_digits : Js → ℕ → Text
number_digits js n = if leb n exact_limit then decimal n else js.number_text (num n)

unfoldable pub new_id : Js → ℕ → ℕ → Text
new_id js prefix n = prefix ∷ number_digits js n

-- list.some((c) => stable(cloneWithoutIds(c)) === same)
unfoldable pub holds_already : Js → Condition → List Condition → Bool
unfolding any_of
holds_already js condition =
    any_of (λ c. text_eq (stable js (clone_without_ids c)) (stable js condition))

-- `hardIndex++` adds one to a JavaScript number.
unfoldable pub add_condition : Js → Strength → Condition → Work → Work
unfolding double_of new_id
add_condition js Strength.hard condition w =
    if holds_already js condition w.hard then w else record w {
      hard = w.hard ++ with_id condition (some (new_id js b'h' w.hard_index)) ∷ [];
      hard_index = double_of (suc w.hard_index);
    }
add_condition js Strength.preferred condition w =
    if holds_already js condition w.preferred then w else record w {
      preferred = w.preferred ++ with_id condition (some (new_id js b'p' w.preferred_index)) ∷ [];
      preferred_index = double_of (suc w.preferred_index);
    }

unfoldable pub replace_condition : Text → Condition → Option Strength → Work → Target → Work
unfolding put_at take_out push
replace_condition id condition strength w t =
    let c = with_id (clone_without_ids condition) (some id) in
    if same (as_preferred strength t) t.preferred
    then put_at t c w
    else push (as_preferred strength t) c (take_out t w)

unfoldable pub apply_operation : Js → Operation → Work → Result Work
unfolding add_condition holds_already new_id replace_condition lookup take_out
apply_operation js Operation.reset w =
    ok (record w { hard = []; preferred = []; order = Order.none })
apply_operation js (Operation.order value) w = ok (record w { order = value })
apply_operation js (Operation.add strength condition) w =
    ok (add_condition js strength (clone_without_ids condition) w)
apply_operation js (Operation.remove id) w = do t ← lookup id w; ok (take_out t w)
apply_operation js (Operation.keep id) w = do t ← lookup id w; ok w
apply_operation js (Operation.replace id condition strength) w = do
  t ← lookup id w
  ok (replace_condition id condition strength w t)

-- The loop over the operations.
unfoldable pub run : Js → List Operation → Work → Result Work
unfolding apply_operation
run js [] w = ok w
run js (op ∷ ops) w = do w' ← apply_operation js op w; run js ops w'

abbrev pub children_of : Condition → List Condition
children_of (Condition.group k cs id) = to_list cs
children_of _ = []

unfoldable pub start : Plan → Work
unfolding next_index index_of
start plan = record {
  hard = children_of plan.hard;
  preferred = plan.preferences;
  order = plan.order;
  hard_index = next_index b'h' (children_of plan.hard ++ plan.preferences);
  preferred_index = next_index b'p' (children_of plan.hard ++ plan.preferences);
}

-- `plan.hard.children = hard`; the root keeps its connective and its id.
abbrev pub with_children : Condition → List Condition → Condition
with_children (Condition.group k cs id) children = Condition.group k (of_list children) id
with_children c children = c

unfoldable pub finish : Plan → Work → Plan
finish plan w = record {
  hard = with_children plan.hard w.hard;
  preferences = w.preferred;
  order = w.order;
}

abbrev pub plan_of : Option PreviousState → Plan
plan_of none = empty_plan
plan_of (some previous) = previous.plan

unfoldable pub check_previous : Js → Option PreviousState → Result (Unit {0})
check_previous js none = ok tt
check_previous js (some previous) = do
  guard (is_integer previous.revision && num_le (num 0) previous.revision) "invalid prior revision"
  validate_plan js previous.plan

unfoldable pub apply_operations : Js → Option PreviousState → List Operation → Result Plan
unfolding check_previous run start finish
apply_operations js previous operations = do
  check_previous js previous
  guard (leb (length operations) 64) "operation limit"
  guard (is_all (plan_of previous).hard) "invalid hard root"
  w ← run js operations (start (plan_of previous))
  validate_plan js (finish (plan_of previous) w)
  ok (finish (plan_of previous) w)

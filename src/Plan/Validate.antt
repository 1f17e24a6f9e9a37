-- ===== src/Plan/Validate.antt =====
-- web/parser/state.ts, lines 5 to 88: the validator of plans.
-- Checks that only reject values outside the declared TypeScript types have no counterpart.
pub mod WellFormed
pub mod Correct
use mathlib.Core.Bool.{not as negate}
use event_recommender.Prelude.{
  ℕ, ◌+◌, Bool, true, false, ◌&&◌, ◌||◌, Option, some, List, [], ◌∷◌, ◌++◌, leb, ltb, ◌==◌, Result,
  ok, ◌>>=◌, ◌>>◌, guard, length, every, if◌then◌else◌,
}
use event_recommender.Prelude.Text.{Text, codes, text_eq, text_le, includes}
use event_recommender.Prelude.Decimal.{is_digit}
use event_recommender.Prelude.Number.{Number, num, is_finite, is_integer, num_le, num_lt}
use event_recommender.Prelude.Js.{Js}
use event_recommender.Plan.{
  Atom, budget, party, age, mood, companion, date, time, location, category, topic, experience,
  content, LocationPrecision, side, Condition, Conditions, nil, cons, Connective, all, Plan,
  of_list,
}

-- Object.keys(SIDES)
abbrev side_names : List Text
side_names = codes "Avrupa yakası" ∷ codes "Anadolu yakası" ∷ []

-- /^\d{4}-\d{2}-\d{2}$/u
unfoldable pub is_date_syntax : Text → Bool
is_date_syntax (a ∷ b ∷ c ∷ d ∷ e ∷ f ∷ g ∷ h ∷ i ∷ j ∷ []) =
    every is_digit (a ∷ b ∷ c ∷ d ∷ f ∷ g ∷ i ∷ j ∷ []) && e == b'-' && h == b'-'
is_date_syntax _ = false

-- /^(?:[01]\d|2[0-3]):[0-5]\d$/u
unfoldable pub is_clock : Text → Bool
is_clock (a ∷ b ∷ c ∷ d ∷ e ∷ []) =
    ((a == b'0' || a == b'1') && is_digit b || a == b'2' && leb b'0' b && leb b b'3')
    && c == b':'
    && leb b'0' d
    && leb d b'5'
    && is_digit e
is_clock _ = false

-- The value of an optional string as a condition: absent and empty are false.
abbrev pub truthy : Option Text → Bool
truthy Option.none = false
truthy (some []) = false
truthy (some (c ∷ s)) = true

abbrev pub is_true : Option Bool → Bool
is_true (some true) = true
is_true _ = false

abbrev pub text_or_empty : Option Text → Text
text_or_empty Option.none = []
text_or_empty (some s) = s

-- date(value)
unfoldable pub check_date : Js → Text → Result (Unit {0})
check_date js value = do
  guard (is_date_syntax value) "invalid date syntax"
  guard (elim (js.noon_day value) [ Option.none ↦ false | some day ↦ text_eq day value ])
      "invalid date value"

-- `if (value) clock(value)`
unfoldable pub check_clock : Option Text → Result (Unit {0})
check_clock value = guard (negate (truthy value) || is_clock (text_or_empty value)) "invalid clock"

unfoldable pub is_side : LocationPrecision → Bool
is_side side = true
is_side _ = false

unfoldable pub validate_atom : Js → Atom → Result (Unit {0})
unfolding check_date check_clock is_side
validate_atom js (budget comparison amount basis) =
    guard (is_finite amount && num_le (num 0) amount && num_le amount (num 1_000_000_000))
      "invalid budget amount"
validate_atom js (party count) =
    guard (is_integer count && num_lt (num 0) count && num_le count (num 1000))
      "invalid party count"
validate_atom js (age years) =
    guard (is_integer years && num_le (num 0) years && num_le years (num 120))
      "invalid attendee age"
validate_atom js (mood value) = ok tt
validate_atom js (companion value) = ok tt
validate_atom js (date from until) = do
  check_date js from
  check_date js until
  guard (text_le from until) "reversed date bounds"
validate_atom js (time from until from_exclusive to_exclusive) = do
  guard (truthy from || truthy until) "missing clock bound"
  check_clock from
  check_clock until
  guard (negate (is_true from_exclusive) || truthy from) "exclusive clock has no lower bound"
  guard (negate (is_true to_exclusive) || truthy until) "exclusive clock has no upper bound"
  guard (negate (truthy from && truthy until) || text_le (text_or_empty from) (text_or_empty until))
      "unsupported overnight range"
  guard
      (negate (truthy from && truthy until)
        || negate (text_eq (text_or_empty from) (text_or_empty until))
        || negate (is_true from_exclusive) && negate (is_true to_exclusive))
      "empty strict clock range"
validate_atom js (location name precision) = do
  guard (ltb 0 (length (js.trim name)) && leb (length name) 64) "invalid location"
  guard (negate (is_side precision) || includes side_names name) "invalid Istanbul side"
validate_atom js (category value) = ok tt
validate_atom js (topic value) =
    guard (ltb 0 (length (js.trim value)) && leb (length value) 160) "invalid topic"
validate_atom js (experience value) = ok tt
validate_atom js (content value) = ok tt

-- /^[a-z][a-z0-9_]{0,39}$/u
unfoldable pub is_id_start : ℕ → Bool
is_id_start c = leb b'a' c && leb c b'z'

unfoldable pub is_id_char : ℕ → Bool
unfolding is_id_start is_digit
is_id_char c = is_id_start c || is_digit c || c == b'_'

unfoldable pub is_condition_id : Text → Bool
unfolding is_id_char every
is_condition_id [] = false
is_condition_id (c ∷ s) = is_id_start c && every is_id_char s && leb (length s) 39

-- The variables that `visit` shares: a JavaScript Set keeps the order of insertion.
pub record Seen : Type 0 where
  pub ids : List Text
  pub nodes : ℕ

unfoldable pub check_id : Option Text → Seen → Result Seen
check_id Option.none s = ok s
check_id (some id) s = do
  guard (is_condition_id id) "invalid condition ID"
  guard (negate (includes s.ids id)) "duplicate condition ID"
  ok (record s { ids = s.ids ++ id ∷ [] })

abbrev pub is_empty : Conditions → Bool
is_empty nil = true
is_empty (cons c cs) = false

unfoldable pub enter : Option Text → ℕ → Seen → Result Seen
enter id depth s = do
  guard (leb (s.nodes + 1) 256 && leb depth 12) "condition complexity limit"
  check_id id (record s { nodes = s.nodes + 1 })

unfoldable mutual
  pub visit : Js → Condition → ℕ → Bool → Seen → Result Seen
  visit js (Condition.atom a id) depth allow_empty s = do
    s' ← enter id depth s
    validate_atom js a
    ok s'
  visit js (Condition.not c id) depth allow_empty s = do
    s' ← enter id depth s
    visit js c (depth + 1) false s'
  visit js (Condition.group k cs id) depth allow_empty s = do
    s' ← enter id depth s
    guard (allow_empty || negate (is_empty cs)) "empty connective"
    visit_each js cs (depth + 1) s'

  pub visit_each : Js → Conditions → ℕ → Seen → Result Seen
  visit_each js nil depth s = ok s
  visit_each js (cons c cs) depth s = do s' ← visit js c depth false s; visit_each js cs depth s'

abbrev pub is_all : Condition → Bool
is_all (Condition.group all cs id) = true
is_all _ = false

abbrev pub nothing_seen : Seen
nothing_seen = record { ids = []; nodes = 0 }

unfoldable pub validate_plan : Js → Plan → Result (Unit {0})
unfolding visit visit_each enter check_id
validate_plan js plan = do
  guard (is_all plan.hard) "invalid plan"
  s ← visit js plan.hard 0 true nothing_seen
  s' ← visit_each js (of_list plan.preferences) 0 s
  ok tt

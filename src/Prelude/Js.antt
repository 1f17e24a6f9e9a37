-- ===== src/Prelude/Js.antt =====
-- The JavaScript built-ins that the planner calls, as parameters.
use mathlib.Core.Option.{Option}
use event_recommender.Prelude.Text.{Text}
use event_recommender.Prelude.Number.{Number}

pub record Js : Type 0 where
  -- String.prototype.trim
  pub trim : Text → Text
  -- `new Date(`${value}T12:00:00Z`)`: none if it is invalid, or else its toISOString().slice(0, 10)
  pub noon_day : Text → Option Text
  -- JSON.stringify of a string, and of a number
  pub quote : Text → Text
  pub number_text : Number → Text

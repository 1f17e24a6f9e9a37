-- ===== src/Plan/Stable.antt =====
-- web/parser/semantics.ts, lines 12 to 20, `stable` at the values that the reducer compares:
-- conditions. An object is written with its keys in alphabetical order and without its undefined
-- fields; `JSON.stringify` of strings and numbers is the parameter `Js`.
use event_recommender.Prelude.{Bool, true, false, Option, none, some, List, [], ◌∷◌, ◌++◌}
use event_recommender.Prelude.Text.{Text, codes}
use event_recommender.Prelude.Js.{Js}
use event_recommender.Plan.{
  Atom, budget, party, age, mood, companion, date, time, location, category, topic, experience,
  content, BudgetBasis, Comparison, Category, LocationPrecision, Mood, Companion, Experience,
  Content, Connective, Condition, Conditions, nil, cons,
}

basis_name : BudgetBasis → Text
basis_name BudgetBasis.per_person = codes "per_person"
basis_name BudgetBasis.per_ticket = codes "per_ticket"
basis_name BudgetBasis.group_total = codes "group_total"

comparison_name : Comparison → Text
comparison_name Comparison.lt = codes "lt"
comparison_name Comparison.lte = codes "lte"
comparison_name Comparison.gt = codes "gt"
comparison_name Comparison.gte = codes "gte"
comparison_name Comparison.approx = codes "approx"

category_name : Category → Text
category_name Category.concert = codes "concert"
category_name Category.theatre = codes "theatre"
category_name Category.standup = codes "standup"
category_name Category.workshop = codes "workshop"
category_name Category.exhibition = codes "exhibition"
category_name Category.festival = codes "festival"
category_name Category.sport = codes "sport"
category_name Category.cinema = codes "cinema"
category_name Category.talk = codes "talk"
category_name Category.dance = codes "dance"
category_name Category.show = codes "show"
category_name Category.course = codes "course"
category_name Category.tour = codes "tour"
category_name Category.museum = codes "museum"

precision_name : LocationPrecision → Text
precision_name LocationPrecision.district = codes "district"
precision_name LocationPrecision.neighborhood = codes "neighborhood"
precision_name LocationPrecision.side = codes "side"

mood_name : Mood → Text
mood_name Mood.calm = codes "calm"
mood_name Mood.intimate = codes "intimate"

companion_name : Companion → Text
companion_name Companion.partner = codes "partner"
companion_name Companion.friends = codes "friends"
companion_name Companion.family = codes "family"
companion_name Companion.children = codes "children"

experience_name : Experience → Text
experience_name Experience.quiet = codes "quiet"
experience_name Experience.seated = codes "seated"
experience_name Experience.outdoors = codes "outdoors"
experience_name Experience.wheelchair_accessible = codes "wheelchair_accessible"
experience_name Experience.family_friendly = codes "family_friendly"
experience_name Experience.uncrowded = codes "uncrowded"
experience_name Experience.romantic = codes "romantic"
experience_name Experience.beginner_friendly = codes "beginner_friendly"

content_name : Content → Text
content_name Content.profanity = codes "profanity"
content_name Content.sexual_content = codes "sexual_content"

connective_name : Connective → Text
connective_name Connective.all = codes "all"
connective_name Connective.any = codes "any"

boolean : Bool → Text
boolean true = codes "true"
boolean false = codes "false"

-- parts.join(',')
join : List Text → Text
join [] = []
join (s ∷ []) = s
join (s ∷ t ∷ ts) = s ++ b',' ∷ join (t ∷ ts)

module _ (js : Js) where
  -- `${JSON.stringify(key)}:${stable(v)}`
  entry : Text → Text → Text
  entry key value = js.quote key ++ b':' ∷ value

  word : Text → Text → Text
  word key value = entry key (js.quote value)

  braces : List Text → Text
  unfolding join
  braces entries = b'{' ∷ (join entries ++ b'}' ∷ [])

  text_entry : Text → Option Text → List Text
  text_entry key none = []
  text_entry key (some v) = word key v ∷ []

  boolean_entry : Text → Option Bool → List Text
  unfolding boolean
  boolean_entry key none = []
  boolean_entry key (some v) = entry key (boolean v) ∷ []

  atom_entries : Atom → List Text
  unfolding basis_name comparison_name mood_name companion_name text_entry boolean_entry
      precision_name category_name experience_name content_name
  atom_entries (budget comparison amount basis) =
      entry (codes "amount") (js.number_text amount)
      ∷ word (codes "basis") (basis_name basis)
      ∷ word (codes "comparison") (comparison_name comparison)
      ∷ word (codes "currency") (codes "TRY")
      ∷ word (codes "kind") (codes "budget")
      ∷ []
  atom_entries (party count) =
      entry (codes "count") (js.number_text count) ∷ word (codes "kind") (codes "party") ∷ []
  atom_entries (age years) =
      word (codes "kind") (codes "age") ∷ entry (codes "years") (js.number_text years) ∷ []
  atom_entries (mood value) =
      word (codes "kind") (codes "mood") ∷ word (codes "value") (mood_name value) ∷ []
  atom_entries (companion value) =
      word (codes "kind") (codes "companion") ∷ word (codes "value") (companion_name value) ∷ []
  atom_entries (date from until) =
      word (codes "from") from ∷ word (codes "kind") (codes "date") ∷ word (codes "to") until ∷ []
  atom_entries (time from until from_exclusive to_exclusive) =
      text_entry (codes "from") from
      ++ (boolean_entry (codes "fromExclusive") from_exclusive
          ++ (word (codes "kind") (codes "time")
              ∷ (text_entry (codes "to") until
                  ++ boolean_entry (codes "toExclusive") to_exclusive)))
  atom_entries (location name precision) =
      word (codes "kind") (codes "location")
      ∷ word (codes "name") name
      ∷ word (codes "precision") (precision_name precision)
      ∷ []
  atom_entries (category value) =
      word (codes "kind") (codes "category") ∷ word (codes "value") (category_name value) ∷ []
  atom_entries (topic value) = word (codes "kind") (codes "topic") ∷ word (codes "value") value ∷ []
  atom_entries (experience value) =
      word (codes "kind") (codes "experience") ∷ word (codes "value") (experience_name value) ∷ []
  atom_entries (content value) =
      word (codes "kind") (codes "content") ∷ word (codes "value") (content_name value) ∷ []

-- The id of a condition is written where it is defined.
unfoldable mutual
  unfolding braces entry atom_entries word join connective_name text_entry

  pub stable : Js → Condition → Text
  stable js (Condition.atom a id) = braces js (
      entry js (codes "atom") (braces js (atom_entries js a))
      ∷ (text_entry js (codes "id") id ++ word js (codes "type") (codes "atom") ∷ []))
  stable js (Condition.not c id) = braces js (
      entry js (codes "child") (stable js c)
      ∷ (text_entry js (codes "id") id ++ word js (codes "type") (codes "not") ∷ []))
  stable js (Condition.group k cs id) = braces js (
      entry js (codes "children") (b'[' ∷ (join (stable_each js cs) ++ b']' ∷ []))
      ∷ (text_entry js (codes "id") id ++ word js (codes "type") (connective_name k) ∷ []))

  pub stable_each : Js → Conditions → List Text
  stable_each js nil = []
  stable_each js (cons c cs) = stable js c ∷ stable_each js cs

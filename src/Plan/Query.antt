-- ===== src/Plan/Query.antt =====
-- web/lib/plan-query.ts: a plan in words, for retrieval and for display. `number_text` is
-- `${number}`.
pub mod Concepts
mod Tests
use event_recommender.Prelude.{
  ℕ, zero, suc, Bool, true, false, ◌&&◌, Option, none, some, List, [], ◌∷◌, ◌++◌, if◌then◌else◌,
}
use event_recommender.Prelude.Text.{Text, codes, includes, take_units}
use event_recommender.Prelude.Number.{Number}
use event_recommender.Prelude.Sorting.{distinct_onto}
use event_recommender.Plan.{
  BudgetBasis, Comparison, Category, Order, LocationPrecision, Mood, Companion, Experience, Content,
  Atom, Connective, Condition, Conditions, Plan, to_list,
}

abbrev pub category_word : Category → Text
category_word Category.concert = codes "konser"
category_word Category.theatre = codes "tiyatro"
category_word Category.standup = codes "stand-up"
category_word Category.workshop = codes "atölye"
category_word Category.exhibition = codes "sergi"
category_word Category.festival = codes "festival"
category_word Category.sport = codes "spor"
category_word Category.cinema = codes "sinema"
category_word Category.talk = codes "söyleşi"
category_word Category.dance = codes "dans"
category_word Category.show = codes "gösteri"
category_word Category.course = codes "eğitim"
category_word Category.tour = codes "gezi"
category_word Category.museum = codes "müze"

abbrev pub experience_word : Experience → Text
experience_word Experience.quiet = codes "sakin"
experience_word Experience.seated = codes "oturmalı"
experience_word Experience.outdoors = codes "açık hava"
experience_word Experience.wheelchair_accessible = codes "engelsiz erişim"
experience_word Experience.family_friendly = codes "aileye uygun"
experience_word Experience.uncrowded = codes "kalabalık olmayan"
experience_word Experience.romantic = codes "romantik"
experience_word Experience.beginner_friendly = codes "başlangıç seviyesine uygun"

abbrev pub basis_word : BudgetBasis → Text
basis_word BudgetBasis.group_total = codes "grup toplamı"
basis_word BudgetBasis.per_person = codes "kişi başı"
basis_word BudgetBasis.per_ticket = codes "bilet"

abbrev pub comparison_word : Comparison → Text
comparison_word Comparison.lt = codes "altı"
comparison_word Comparison.lte = codes "veya altı"
comparison_word Comparison.gt = codes "üstü"
comparison_word Comparison.gte = codes "veya üstü"
comparison_word Comparison.approx = codes "civarı"

abbrev pub mood_word : Mood → Text
mood_word Mood.calm = codes "sakin bir deneyim"
mood_word Mood.intimate = codes "samimi bir deneyim"

abbrev pub companion_word : Companion → Text
companion_word Companion.partner = codes "partner"
companion_word Companion.friends = codes "arkadaşlar"
companion_word Companion.family = codes "aile"
companion_word Companion.children = codes "çocuklar"

abbrev pub content_word : Content → Text
content_word Content.profanity = codes "küfürlü içerik"
content_word Content.sexual_content = codes "cinsel içerik"

abbrev pub location_text : (name : Text) → LocationPrecision → Text
location_text name LocationPrecision.side = name
location_text name LocationPrecision.district = codes "ilçe: " ++ name
location_text name LocationPrecision.neighborhood = codes "mahalle: " ++ name

-- A flag that is absent is false.
abbrev pub flag : Option Bool → Bool
flag (some b) = b
flag none = false

-- A limit that is absent or empty has no text.
abbrev pub limit_text : (exclusive inclusive : Text) → Option Bool → Option Text → Text
limit_text exclusive inclusive b (some (c ∷ t)) = (if flag b then exclusive else inclusive) ++ c ∷ t
limit_text exclusive inclusive b _ = []

abbrev pub comma_between : Option Text → Option Text → Text
comma_between (some (c ∷ s)) (some (d ∷ t)) = codes ", "
comma_between _ _ = []

-- parts.join(separator)
abbrev pub join_by : (separator : Text) → List Text → Text
join_by separator [] = []
join_by separator (t ∷ []) = t
join_by separator (t ∷ ts) = t ++ separator ++ join_by separator ts

abbrev pub separator_of : Connective → Text
separator_of Connective.all = codes " VE "
separator_of Connective.any = codes " VEYA "

-- The atoms that say what an event is like.
abbrev pub is_concept : Atom → Bool
is_concept (Atom.category value) = true
is_concept (Atom.topic value) = true
is_concept (Atom.experience value) = true
is_concept (Atom.companion value) = true
is_concept (Atom.mood value) = true
is_concept (Atom.age years) = true
is_concept _ = false

abbrev pub opposite_polarity : Bool → Bool
opposite_polarity true = false
opposite_polarity false = true

module _ (number_text : Number → Text) where
  unfoldable pub atom_text : Atom → Text
  atom_text (Atom.budget comparison amount basis) =
      basis_word basis
      ++ codes ": "
      ++ number_text amount
      ++ codes " TRY "
      ++ comparison_word comparison
  atom_text (Atom.party count) = number_text count ++ codes " kişi"
  atom_text (Atom.age years) = number_text years ++ codes " yaş için uygun"
  atom_text (Atom.mood value) = mood_word value
  atom_text (Atom.companion value) = codes "eşlik: " ++ companion_word value
  atom_text (Atom.date first last) = codes "tarih " ++ first ++ codes "–" ++ last
  atom_text (Atom.time first last after before) =
      codes "saat "
      ++ limit_text (codes ">") (codes "≥") after first
      ++ comma_between first last
      ++ limit_text (codes "<") (codes "≤") before last
  atom_text (Atom.location name precision) = location_text name precision
  atom_text (Atom.category value) = category_word value
  atom_text (Atom.topic value) = value
  atom_text (Atom.experience value) = experience_word value
  atom_text (Atom.content value) = content_word value

  unfoldable mutual
    unfolding atom_text

    pub condition_text : Condition → Text
    condition_text (Condition.atom a id) = atom_text a
    condition_text (Condition.not child id) = codes "(DEĞİL " ++ condition_text child ++ codes ")"
    condition_text (Condition.group k children id) =
        codes "(" ++ join_by (separator_of k) (condition_texts children) ++ codes ")"

    pub condition_texts : Conditions → List Text
    condition_texts Conditions.nil = []
    condition_texts (Conditions.cons c cs) = condition_text c ∷ condition_texts cs

  unfoldable mutual
    unfolding atom_text

    pub positive_concepts : Condition → (positive : Bool) → List Text
    positive_concepts (Condition.not child id) positive =
        positive_concepts child (opposite_polarity positive)
    positive_concepts (Condition.group k children id) positive = concepts_of_each children positive
    positive_concepts (Condition.atom a id) positive =
        if positive && is_concept a then atom_text a ∷ [] else []

    pub concepts_of_each : Conditions → (positive : Bool) → List Text
    concepts_of_each Conditions.nil positive = []
    concepts_of_each (Conditions.cons c cs) positive =
        positive_concepts c positive ++ concepts_of_each cs positive

  abbrev pub preferred_concepts : List Condition → List Text
  preferred_concepts [] = []
  preferred_concepts (c ∷ cs) = positive_concepts c true ++ preferred_concepts cs

  abbrev pub plan_concepts : Plan → List Text
  plan_concepts plan = positive_concepts plan.hard true ++ preferred_concepts plan.preferences

  unfoldable pub plan_retrieval_query : Plan → Text
  unfolding take_units includes
  plan_retrieval_query plan =
      take_units 1_200 (join_by (codes " ") (distinct_onto [] (plan_concepts plan)))

  abbrev pub texts_of : List Condition → List Text
  texts_of [] = []
  texts_of (c ∷ cs) = condition_text c ∷ texts_of cs

  abbrev required_texts : Condition → List Text
  required_texts (Condition.group Connective.all children id) = condition_texts children
  required_texts c = condition_text c ∷ []

  abbrev order_texts : Order → List Text
  order_texts Order.soonest = codes "en yakın tarihli olanlar önce" ∷ []
  order_texts Order.cheapest = codes "en ucuz olanlar önce" ∷ []
  order_texts _ = []

  -- The required texts and the preferred ones.
  unfoldable pub plan_summary : Plan → List Text × List Text
  plan_summary plan =
      (required_texts plan.hard, texts_of plan.preferences ++ order_texts plan.order)

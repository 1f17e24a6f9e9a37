-- ===== src/Plan/Evaluate/Atoms/Labels.antt =====
-- web/lib/plan-evidence.ts, lines 50 to 66 and 119 to 125, and the small tests of `atomResult`
-- on an event's labels.
use event_recommender.Prelude.{
  Bool, true, false, Option, none, some, List, [], ◌∷◌, ◌++◌, if◌then◌else◌,
}
use event_recommender.Prelude.Text.{Text, codes, includes}
use event_recommender.Prelude.Number.{Number, num, millionths}
use event_recommender.Plan.{Category}
use event_recommender.Plan.Validate.{truthy, text_or_empty}
use event_recommender.Plan.Evaluate.Event.{
  LabelAudience, general, adult_only, family, children, LabelPlace, istanbul, other_city, online,
  unknown_place, EventLabels,
}
use event_recommender.Plan.Evaluate.{Status, supported, contradicted, Checked}

abbrev pub result : Status → List Text → Checked
result status evidence = record { status = status; evidence = evidence }

-- texts.filter(Boolean), of optional texts
unfoldable pub label_evidence : List (Option Text) → List Text
label_evidence [] = []
label_evidence (t ∷ ts) =
    if truthy t then text_or_empty t ∷ label_evidence ts else label_evidence ts

abbrev pub label_support : Number
label_support = millionths 700_000

abbrev pub child_suitable_from : Number
child_suitable_from = millionths 650_000

abbrev pub child_unsuitable_to : Number
child_unsuitable_to = millionths 250_000

unfoldable pub category_labels : Category → List Text
category_labels Category.concert = codes "Konser" ∷ []
category_labels Category.theatre = codes "Tiyatro" ∷ []
category_labels Category.standup = codes "Stand-up" ∷ []
category_labels Category.workshop = codes "Workshop" ∷ codes "Eğitim" ∷ []
category_labels Category.exhibition = codes "Sergi" ∷ codes "Müze" ∷ []
category_labels Category.festival = codes "Festival" ∷ []
category_labels Category.sport = codes "Spor" ∷ []
category_labels Category.cinema = codes "Sinema" ∷ []
category_labels Category.talk = codes "Söyleşi" ∷ []
category_labels Category.dance = codes "Dans" ∷ []
category_labels Category.show =
    codes "Gösteri" ∷ codes "Tiyatro" ∷ codes "Stand-up" ∷ codes "Dans" ∷ []
category_labels Category.course = codes "Eğitim" ∷ codes "Workshop" ∷ []
category_labels Category.tour = codes "Gezi" ∷ []
category_labels Category.museum = codes "Müze" ∷ []

-- new Set(Object.values(categoryMap).flat())
unfoldable pub canonical_categories : List Text
canonical_categories =
    codes "Konser"
    ∷ codes "Tiyatro"
    ∷ codes "Stand-up"
    ∷ codes "Workshop"
    ∷ codes "Eğitim"
    ∷ codes "Sergi"
    ∷ codes "Müze"
    ∷ codes "Festival"
    ∷ codes "Spor"
    ∷ codes "Sinema"
    ∷ codes "Söyleşi"
    ∷ codes "Dans"
    ∷ codes "Gösteri"
    ∷ codes "Gezi"
    ∷ []

unfoldable pub genre_topics : List Text
genre_topics =
    codes "jazz"
    ∷ codes "blues"
    ∷ codes "rock"
    ∷ codes "electronic"
    ∷ codes "rap"
    ∷ codes "classical"
    ∷ codes "comedy"
    ∷ codes "drama"
    ∷ []

abbrev pub supported_if : Bool → Status
supported_if true = supported
supported_if false = contradicted

unfoldable pub filter_in : List Text → List Text → List Text
filter_in allowed [] = []
filter_in allowed (t ∷ ts) =
    if includes allowed t then t ∷ filter_in allowed ts else filter_in allowed ts

-- [...new Set(texts)]
unfoldable pub unique_from : List Text → List Text → List Text
unique_from seen [] = []
unique_from seen (t ∷ ts) =
    if includes seen t then unique_from seen ts else t ∷ unique_from (seen ++ t ∷ []) ts

abbrev pub option_list : Option Text → List Text
option_list none = []
option_list (some t) = t ∷ []

abbrev pub number_or : Option Number → Number → Number
number_or none d = d
number_or (some n) d = n

abbrev pub or_else : List Text → List Text → List Text
or_else [] fallback = fallback
or_else (t ∷ ts) fallback = t ∷ ts

abbrev pub is_adult_only : LabelAudience → Bool
is_adult_only adult_only = true
is_adult_only _ = false

abbrev pub is_for_children : LabelAudience → Bool
is_for_children children = true
is_for_children family = true
is_for_children _ = false

abbrev pub admits_adults : LabelAudience → Bool
admits_adults general = true
admits_adults family = true
admits_adults adult_only = true
admits_adults _ = false

-- place === 'other_city' || place === 'online'
abbrev pub is_elsewhere : Option EventLabels → Bool
is_elsewhere none = false
is_elsewhere (some l) = elim l.place [ other_city ↦ true | online ↦ true | _ ↦ false ]

abbrev pub place_word : LabelPlace → Text
place_word istanbul = codes "istanbul"
place_word other_city = codes "other_city"
place_word online = codes "online"
place_word unknown_place = codes "unknown"

-- labels !== null && test(labels.minAge)
abbrev pub option_test : Option Number → (Number → Bool) → Bool
option_test none p = false
option_test (some n) p = p n

-- s || t
abbrev pub or_text : Text → Text → Text
or_text [] t = t
or_text (c ∷ s) t = c ∷ s

-- labels?.district, where an empty text is as good as none
abbrev pub labelled_district : Option EventLabels → Option Text
labelled_district none = none
labelled_district (some l) = if truthy l.district then l.district else none

abbrev pub place_word_of : Option EventLabels → Option Text
place_word_of none = none
place_word_of (some l) = some (place_word l.place)

abbrev pub place_evidence_of : Option EventLabels → Option Text
place_evidence_of none = none
place_evidence_of (some l) = l.place_evidence

abbrev pub format_evidence_of : Option EventLabels → Option Text
format_evidence_of none = none
format_evidence_of (some l) = l.format_evidence

-- labels?.formats.outdoor ?? 0
abbrev pub outdoor_of : Option EventLabels → Number
outdoor_of none = num 0
outdoor_of (some l) = l.outdoor

abbrev pub seated_of : Option EventLabels → Number
seated_of none = num 0
seated_of (some l) = l.seated

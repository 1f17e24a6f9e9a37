-- ===== src/Prelude/Value.antt =====
-- JavaScript values of the type `unknown`, as JSON.parse and the document store give them.
use event_recommender.Prelude.{Bool, true, false, if◌then◌else◌}
use event_recommender.Prelude.Text.{Text, text_eq}
use event_recommender.Prelude.Number.{Number, nan, num}

mutual
  pub data Value : Type 0 where
    undefined null : Value
    boolean : Bool → Value
    number : Number → Value
    text : Text → Value
    array : Values → Value
    object : Fields → Value

  pub data Values : Type 0 where
    no_values : Values
    with_value : Value → Values → Values

  pub data Fields : Type 0 where
    no_fields : Fields
    with_field : Text → Value → Fields → Fields

-- object[key]
unfoldable pub field : Text → Fields → Value
field key no_fields = Value.undefined
field key (with_field k v fields) = if text_eq k key then v else field key fields

-- The conversions of the language: Number of a string, and String of an array or an object.
pub record Conversions : Type 0 where
  pub number_of : Text → Number
  pub string_of : Value → Text

-- Number(value)
unfoldable pub to_number : Conversions → Value → Number
to_number by Value.undefined = nan
to_number by Value.null = num 0
to_number by (Value.boolean true) = num 1
to_number by (Value.boolean false) = num 0
to_number by (Value.number n) = n
to_number by (Value.text t) = by.number_of t
to_number by (Value.array vs) = by.number_of (by.string_of (Value.array vs))
to_number by (Value.object fields) = by.number_of (by.string_of (Value.object fields))

-- ===== src/DeviceProperties/Definitions.antt =====
-- What web/src/pages/Admin/DevicePropertyManagement.tsx reads from the definitions of a things model,
-- which are JSON values of any form; `undefined` is `none`.
use linkflow_v.Prelude.{
  ℕ, ◌/◌, ◌%◌, String, Bool, true, false, ◌&&◌, ◌||◌, Option, none, some, List, [], ◌∷◌, map, ◌==◌,
  keep, find, leb, eqb, if◌then◌else◌,
}
use linkflow_v.Js.Json.{Json, null, num, str, arr, obj, Fields, end, field, entries}
use linkflow_v.Js.Object.{get}
use linkflow_v.Js.Number.{Numbers}
use linkflow_v.Js.Text.{trim}
use linkflow_v.Services.Call.{◌⧺◌}
use linkflow_v.Services.Devices.{DeviceLatestProperties}
use linkflow_v.Services.ThingsModels.{ThingsModel}

pub record DeviceTrendPropertyOption : Type 0 where
  pub key : String
  pub label : String
  pub unit : Option String

-- The label of a bucket, with its number.
pub data BucketLabel : Type 0 where
  minutes seconds : ℕ → BucketLabel

abbrev pub format_trend_bucket_label : ℕ → BucketLabel
format_trend_bucket_label n = if leb 60 n && eqb (n % 60) 0 then minutes (n / 60) else seconds n

-- `text.trim() ? text : undefined`.
abbrev pub non_blank : Option String → Option String
non_blank none = none
non_blank (some s) = if trim s == "" then none else some s

abbrev pub or_name : String → Option String → String
or_name name none = name
or_name name (some s) = s

abbrev pub is_numeric_type : Option String → Bool
is_numeric_type none = false
is_numeric_type (some t) = t == "int" || t == "float" || t == "double"

abbrev pub is_writing_mode : Option String → Bool
is_writing_mode none = false
is_writing_mode (some mode) = mode == "write" || mode == "readwrite"

abbrev pub or_options :
    List DeviceTrendPropertyOption → List DeviceTrendPropertyOption → List DeviceTrendPropertyOption
or_options [] others = others
or_options (option ∷ options) others = option ∷ options

module _ {N : Type 0} where
  abbrev pub value_type_of : Json N → String
  value_type_of (arr items) = "array"
  value_type_of null = "null"
  value_type_of (Json.bool b) = "boolean"
  value_type_of (num n) = "number"
  value_type_of (str s) = "string"
  value_type_of (obj o) = "object"

  -- The own properties of a value that is a record.
  abbrev pub is_record : Option (Json N) → Option (Fields N)
  is_record (some (obj o)) = some o
  is_record (some (arr items)) = none
  is_record (some null) = none
  is_record (some (Json.bool b)) = none
  is_record (some (num n)) = none
  is_record (some (str s)) = none
  is_record none = none

  abbrev pub as_text : Option (Json N) → Option String
  as_text (some (str s)) = some s
  as_text (some (obj o)) = none
  as_text (some (arr items)) = none
  as_text (some null) = none
  as_text (some (Json.bool b)) = none
  as_text (some (num n)) = none
  as_text none = none

  abbrev pub is_true : Option (Json N) → Bool
  is_true (some (Json.bool b)) = b
  is_true (some (str s)) = false
  is_true (some (obj o)) = false
  is_true (some (arr items)) = false
  is_true (some null) = false
  is_true (some (num n)) = false
  is_true none = false

  abbrev pub is_number : Json N → Bool
  is_number (num n) = true
  is_number null = false
  is_number (Json.bool b) = false
  is_number (str s) = false
  is_number (arr items) = false
  is_number (obj o) = false

  abbrev pub field_of : String → Option (Fields N) → Option (Json N)
  field_of key none = none
  field_of key (some o) = get key o

  -- A text under a key of a definition, if it is a record with a text there.
  abbrev pub text_at : String → Option (Json N) → Option String
  text_at key definition = as_text (field_of key (is_record definition))

  abbrev pub property_display_name : String → Option (Json N) → String
  property_display_name name definition = or_name name (non_blank (text_at "name" definition))

  abbrev pub property_data_type : Option (Json N) → Option String
  property_data_type definition = text_at "data_type" definition

  abbrev pub property_unit : Option (Json N) → Option String
  property_unit definition = elim (non_blank (text_at "unit" definition)) [
    | some unit ↦ some unit
    | none ↦ non_blank (text_at "unit" (field_of "spec" (is_record definition)))
  ]

  abbrev pub is_numeric_property_definition : Option (Json N) → Bool
  is_numeric_property_definition definition = is_numeric_type (property_data_type definition)

  abbrev pub is_writable_property_definition : Option (Json N) → Bool
  is_writable_property_definition definition = is_writing_mode (text_at "access_mode" definition)

  abbrev pub properties_of : Option (ThingsModel N) → Fields N
  properties_of none = end
  properties_of (some model) = model.properties

  abbrev pub services_of : Option (ThingsModel N) → Fields N
  services_of none = end
  services_of (some model) = model.services

  abbrev pub writable_property_entries_of : Option (ThingsModel N) → List (String × Json N)
  writable_property_entries_of model =
      keep (λ e. is_writable_property_definition (some e.1)) (entries (properties_of model))

  -- The options of the trend, by the model, or by the values if the model has none.
  abbrev pub option_of : String × Json N → DeviceTrendPropertyOption
  option_of e = record {
    key = e.0;
    label = property_display_name e.0 (some e.1);
    unit = property_unit (some e.1);
  }

  abbrev pub plain_option : String × Json N → DeviceTrendPropertyOption
  plain_option e = record { key = e.0; label = e.0; unit = none }

  abbrev pub latest_values : Option (DeviceLatestProperties N) → Fields N
  latest_values none = end
  latest_values (some latest) = latest.properties

  unfoldable pub trend_property_options_of :
      Option (ThingsModel N) → Option (DeviceLatestProperties N) → List DeviceTrendPropertyOption
  trend_property_options_of current_model latest =
      or_options
        (map option_of (
          keep (λ e. is_numeric_property_definition (some e.1))
            (entries (properties_of current_model))))
        (map plain_option (keep (λ e. is_number e.1) (entries (latest_values latest))))

-- Texts of values; `stringify` is `JSON.stringify` with an indentation of two.
module _ {N : Type 0} (ops : Numbers N) (stringify : Json N → String) where
  abbrev pub format_property_value : Json N → String
  format_property_value (str s) = s
  format_property_value (num n) = ops.to_text n
  format_property_value (Json.bool true) = "true"
  format_property_value (Json.bool false) = "false"
  format_property_value null = "null"
  format_property_value (arr items) = stringify (arr items)
  format_property_value (obj o) = stringify (obj o)

  abbrev pub value_for : Option String → Json N
  value_for none = null
  value_for (some t) =
      if t == "int" || t == "float" || t == "double"
      then num (ops.of_nat 0)
      else if t == "bool"
      then Json.bool false
      else if t == "string"
      then str ""
      else null

  abbrev pub default_property_value : Option (Json N) → Json N
  default_property_value definition = value_for (property_data_type definition)

  -- The text that sets one property to its default.
  abbrev pub set_text : String → Option (Json N) → String
  set_text name definition = stringify (obj (field name (default_property_value definition) end))

  abbrev pub first_set_text : List (String × Json N) → String
  first_set_text [] = "{}"
  first_set_text (first ∷ others) = set_text first.0 (some first.1)

  unfoldable pub default_property_set_text : Option (ThingsModel N) → String
  default_property_set_text model = first_set_text (writable_property_entries_of model)

abbrev pub labelled : DeviceTrendPropertyOption → Option String → String
labelled option none = option.label
labelled option (some unit) =
    if unit == "" then option.label else option.label ⧺ (" (" ⧺ (unit ⧺ ")"))

abbrev pub series_label : String → Option DeviceTrendPropertyOption → String
series_label property none = property
series_label property (some option) = labelled option option.unit

abbrev pub trend_series_label : String → List DeviceTrendPropertyOption → String
trend_series_label property property_options =
    series_label property (find (λ option. option.key == property) property_options)

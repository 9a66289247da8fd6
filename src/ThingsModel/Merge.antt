-- ===== src/ThingsModel/Merge.antt =====
-- Definitions as texts in web/src/pages/Admin/ThingsModelManagement.tsx: the preview of what the rows
-- give, and the functions that merge an entry into a text. `parse` is `JSON.parse`, `stringify` is
-- `stringifyObject`, the JSON text of an object.
use linkflow_v.Prelude.{
  ℕ, String, Option, none, some, List, [], ◌∷◌, Attempt, ok, thrown, ◌>>=◌, length,
}
use linkflow_v.Js.Json.{Json, null, num, str, arr, obj, Fields, end, field}
use linkflow_v.Js.Object.{get, put, spread, keys}
use linkflow_v.Js.Number.{Numbers}
use linkflow_v.Js.Text.{trim}
use linkflow_v.ThingsModel.Types.{
  ParamDraft, EventDraft, ServiceDraft, PropertyDraftRow, EventDraftRow, ServiceDraftRow,
  event_level_text, call_type_text,
}
use linkflow_v.ThingsModel.Build.{
  param_definition_from_draft, object_from_property_rows, object_from_event_rows,
  object_from_service_rows,
}

module _ {N : Type 0} where
  abbrev pub as_plain_object : Json N → Attempt (Fields N)
  as_plain_object (obj o) = ok o
  as_plain_object (arr items) = thrown "json object required"
  as_plain_object null = thrown "json object required"
  as_plain_object (Json.bool b) = thrown "json object required"
  as_plain_object (num n) = thrown "json object required"
  as_plain_object (str s) = thrown "json object required"

  abbrev pub entry_or_empty : Option (Json N) → Fields N
  entry_or_empty (some (obj o)) = o
  entry_or_empty (some (arr items)) = end
  entry_or_empty (some null) = end
  entry_or_empty (some (Json.bool b)) = end
  entry_or_empty (some (num n)) = end
  entry_or_empty (some (str s)) = end
  entry_or_empty none = end

  abbrev pub object_entry : Fields N → String → Fields N
  object_entry value key = entry_or_empty (get key value)

  abbrev pub object_key_count : Fields N → ℕ
  object_key_count value = length (keys value)

module _ {N : Type 0} (ops : Numbers N) (stringify : Fields N → String) where
  -- What the builder gives, or an object with the message of its error.
  abbrev pub safe_definition_preview : Attempt (Fields N) → String
  safe_definition_preview (ok o) = stringify o
  safe_definition_preview (thrown message) = stringify (field "error" (str message) end)

  abbrev pub property_definitions_text : List PropertyDraftRow → String
  property_definitions_text rows = safe_definition_preview (object_from_property_rows ops rows)

  abbrev pub event_definitions_text : List EventDraftRow → String
  event_definitions_text rows = safe_definition_preview (object_from_event_rows ops rows)

  abbrev pub service_definitions_text : List ServiceDraftRow → String
  service_definitions_text rows = safe_definition_preview (object_from_service_rows ops rows)

  module _ (parse : String → Attempt (Json N)) where
    abbrev pub parse_object_field : String → Attempt (Fields N)
    parse_object_field value = parse value >>= as_plain_object

    abbrev pub set_object_entry : String → String → Fields N → Attempt String
    set_object_entry raw key value = do
      current ← parse_object_field raw
      ok (stringify (put key (obj value) (spread end current)))

    abbrev pub merge_object_template : String → Fields N → Attempt String
    merge_object_template raw template = do
      current ← parse_object_field raw
      ok (stringify (spread (spread end current) template))

    -- `params.reduce(...)`, from the object that is there.
    abbrev pub merge_params : List ParamDraft → Fields N → Attempt (Fields N)
    merge_params [] result = ok result
    merge_params (param ∷ params) result = do
      definition ← param_definition_from_draft ops param
      merge_params params (put (trim param.identifier) (obj definition) (spread end result))

    abbrev pub merge_event_definition :
        String → String → EventDraft → List ParamDraft → Attempt String
    merge_event_definition raw event_key event output_params = do
      current ← parse_object_field raw
      let existing = object_entry current event_key
      output ← merge_params output_params (object_entry existing "output")
      ok (
          stringify (
            put event_key
              (obj (
                put "output" (obj output) (
                  put "desc" (str (trim event.desc)) (
                    put "level" (str (event_level_text event.level))
                      (put "name" (str (trim event.name)) (spread end existing))))))
              (spread end current)))

    abbrev pub merge_service_definition :
        String → String → ServiceDraft → List ParamDraft → List ParamDraft → Attempt String
    merge_service_definition raw service_key service input_params output_params = do
      current ← parse_object_field raw
      let existing = object_entry current service_key
      input ← merge_params input_params (object_entry existing "input")
      output ← merge_params output_params (object_entry existing "output")
      ok (
          stringify (
            put service_key
              (obj (
                put "output" (obj output) (
                  put "input" (obj input) (
                    put "desc" (str (trim service.desc)) (
                      put "call_type" (str (call_type_text service.call_type))
                        (put "name" (str (trim service.name)) (spread end existing)))))))
              (spread end current)))

-- ===== src/DeviceProperties/Inputs.antt =====
-- The services of a things model and the form of their input, as
-- web/src/pages/Admin/DevicePropertyManagement.tsx reads them from the model.
use linkflow_v.Prelude.{
  String, Bool, true, false, Option, none, some, List, map, ◌==◌, keep, if◌then◌else◌,
}
use linkflow_v.Js.Json.{Json, Fields, end, entries}
use linkflow_v.Services.ThingsModels.{ThingsModel}
use linkflow_v.ServiceInput.{
  ServiceInputValueType, int, float, double, string, json, ServiceInputParamDraft,
}
use linkflow_v.DeviceProperties.Definitions.{
  non_blank, or_name, is_record, is_true, field_of, text_at, property_data_type, services_of,
}

abbrev pub value_type_named : Option String → ServiceInputValueType
value_type_named none = json
value_type_named (some t) =
    if t == "int"
    then int
    else if t == "float"
    then float
    else if t == "double"
    then double
    else if t == "bool"
    then ServiceInputValueType.bool
    else if t == "string"
    then string
    else json

abbrev pub default_service_input_value : ServiceInputValueType → String
default_service_input_value int = "0"
default_service_input_value float = "0"
default_service_input_value double = "0"
default_service_input_value ServiceInputValueType.bool = "false"
default_service_input_value string = ""
default_service_input_value json = "null"

module _ {N : Type 0} where
  abbrev pub is_some_record : Option (Fields N) → Bool
  is_some_record none = false
  is_some_record (some o) = true

  abbrev pub service_entries_of : Option (ThingsModel N) → List (String × Json N)
  service_entries_of model =
      keep (λ e. is_some_record (is_record (some e.1))) (entries (services_of model))

  abbrev pub service_display_name : String → Option (Json N) → String
  service_display_name name definition = or_name name (non_blank (text_at "name" definition))

  abbrev pub or_none : Option (Fields N) → Fields N
  or_none none = end
  or_none (some o) = o

  abbrev pub service_input_definition : Option (Json N) → Fields N
  service_input_definition definition =
      or_none (is_record (field_of "input" (is_record definition)))

  unfoldable pub service_input_value_type : Option (Json N) → ServiceInputValueType
  service_input_value_type definition = value_type_named (property_data_type definition)

  abbrev pub is_required : Json N → Bool
  is_required raw_field = is_true (field_of "required" (is_record (some raw_field)))

  abbrev pub default_param : (String → String) → String × Json N → ServiceInputParamDraft
  default_param new_id e = record {
    id = new_id e.0;
    name = e.0;
    value = default_service_input_value (service_input_value_type (some e.1));
    value_type = service_input_value_type (some e.1);
  }

  -- The required fields of the input, each with the default of its type; `new_id` gives the ids
  -- that `createDraftID` makes.
  unfoldable pub default_service_input_params :
      (String → String) → Option (Json N) → List ServiceInputParamDraft
  default_service_input_params new_id definition =
      map (default_param new_id)
        (keep (λ e. is_required e.1) (entries (service_input_definition definition)))

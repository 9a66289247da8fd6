-- ===== src/DeviceProperties/Choose.antt =====
-- What the controls of web/src/pages/Admin/DevicePropertyManagement.tsx set.
use linkflow_v.Prelude.{
  ℕ, String, not, Option, none, List, [], ◌∷◌, ◌++◌, map, ◌==◌, any, keep, leb, length,
  if◌then◌else◌,
}
use linkflow_v.Js.Json.{Json}
use linkflow_v.Js.Object.{get}
use linkflow_v.Js.Number.{Numbers}
use linkflow_v.ServiceInput.{ServiceInputParamDraft}
use linkflow_v.DeviceProperties.Definitions.{properties_of, services_of, set_text}
use linkflow_v.DeviceProperties.Inputs.{
  default_service_input_params, default_service_input_value, service_input_value_type,
}
use linkflow_v.DeviceProperties.State.{History, DevicePropertyPage}

abbrev pub clear_history : {E : Type 0} → History E → History E
clear_history h = record h { entries = []; total = 0; page = 1 }

abbrev pub set_name_filter : {E : Type 0} → String → History E → History E
set_name_filter next_name h = record h { name_filter = next_name; page = 1 }

abbrev pub set_page_size : {E : Type 0} → ℕ → History E → History E
set_page_size next_page_size h = record h { page_size = next_page_size; page = 1 }

-- `handleTrendPropertyToggle`, on the list.
unfoldable pub toggle_property : String → List String → List String
toggle_property property current =
    if any (λ item. item == property) current
    then keep (λ item. not (item == property)) current
    else if leb 8 (length current)
    then current
    else current ++ (property ∷ [])

module _ {N : Type 0} where
  -- What the handlers of the tenant, the product and the device have in common.
  abbrev pub clear_device : DevicePropertyPage N → DevicePropertyPage N
  clear_device s = record s {
    latest_properties = none;
    trend = none;
    trend_properties = [];
    events = clear_history s.events;
    property_sets = clear_history s.property_sets;
    service_calls = clear_history s.service_calls;
    service_call_result = none;
    property_set_result = none;
  }

  unfoldable pub handle_tenant_change : String → DevicePropertyPage N → DevicePropertyPage N
  handle_tenant_change next_tenant_id s =
      clear_device (record s { tenant_id = next_tenant_id; product_filter = ""; device_id = "" })

  unfoldable pub handle_product_filter_change : String → DevicePropertyPage N → DevicePropertyPage N
  handle_product_filter_change next_product_id s =
      clear_device (record s { product_filter = next_product_id; device_id = "" })

  unfoldable pub handle_device_change : String → DevicePropertyPage N → DevicePropertyPage N
  handle_device_change next_device_id s = clear_device (record s { device_id = next_device_id })

  unfoldable pub handle_event_name_change : String → DevicePropertyPage N → DevicePropertyPage N
  handle_event_name_change next_event_name s = record s {
    events = set_name_filter next_event_name s.events;
  }

  unfoldable pub handle_event_page_size_change : ℕ → DevicePropertyPage N → DevicePropertyPage N
  handle_event_page_size_change next_page_size s = record s {
    events = set_page_size next_page_size s.events;
  }

  unfoldable pub handle_property_set_history_name_change :
      String → DevicePropertyPage N → DevicePropertyPage N
  handle_property_set_history_name_change next_property_name s = record s {
    property_sets = set_name_filter next_property_name s.property_sets;
  }

  unfoldable pub handle_property_set_history_page_size_change :
      ℕ → DevicePropertyPage N → DevicePropertyPage N
  handle_property_set_history_page_size_change next_page_size s = record s {
    property_sets = set_page_size next_page_size s.property_sets;
  }

  unfoldable pub handle_property_set_ack_deadline_seconds_change :
      ℕ → DevicePropertyPage N → DevicePropertyPage N
  handle_property_set_ack_deadline_seconds_change next_seconds s = record s {
    property_set_ack_deadline_seconds = next_seconds;
    property_sets = record (s.property_sets) { page = 1 };
  }

  unfoldable pub handle_service_history_name_change :
      String → DevicePropertyPage N → DevicePropertyPage N
  handle_service_history_name_change next_service_name s = record s {
    service_calls = set_name_filter next_service_name s.service_calls;
  }

  unfoldable pub handle_service_history_page_size_change :
      ℕ → DevicePropertyPage N → DevicePropertyPage N
  handle_service_history_page_size_change next_page_size s = record s {
    service_calls = set_page_size next_page_size s.service_calls;
  }

  unfoldable pub handle_service_ack_deadline_seconds_change :
      ℕ → DevicePropertyPage N → DevicePropertyPage N
  handle_service_ack_deadline_seconds_change next_seconds s = record s {
    service_ack_deadline_seconds = next_seconds;
    service_calls = record (s.service_calls) { page = 1 };
  }

  unfoldable pub handle_trend_property_toggle : String → DevicePropertyPage N → DevicePropertyPage N
  handle_trend_property_toggle property s = record s {
    trend_properties = toggle_property property s.trend_properties;
  }

  unfoldable pub handle_trend_from_change : String → DevicePropertyPage N → DevicePropertyPage N
  handle_trend_from_change next_from s = record s {
    trend_range = record (s.trend_range) { from = next_from };
  }

  unfoldable pub handle_trend_to_change : String → DevicePropertyPage N → DevicePropertyPage N
  handle_trend_to_change next_to s = record s {
    trend_range = record (s.trend_range) { to = next_to };
  }

-- The form of a service call; `new_id` and `id` are what `createDraftID` makes.
module _ {N : Type 0} where
  abbrev pub default_params :
      (String → String) → String → Option (Json N) → List ServiceInputParamDraft
  default_params new_id name definition =
      if name == "" then [] else default_service_input_params new_id definition

  unfoldable pub handle_service_name_change :
      (String → String) → String → DevicePropertyPage N → DevicePropertyPage N
  handle_service_name_change new_id next_service_name s = record s {
    service_name = next_service_name;
    service_input_params =
        default_params new_id next_service_name
          (get next_service_name (services_of s.current_model));
    service_call_result = none;
  }

  abbrev pub new_param : String → String → Option (Json N) → ServiceInputParamDraft
  new_param id name definition = record {
    id = id;
    name = name;
    value = default_service_input_value (service_input_value_type definition);
    value_type = service_input_value_type definition;
  }

  unfoldable pub handle_add_service_input_param :
      String → String → Option (Json N) → DevicePropertyPage N → DevicePropertyPage N
  handle_add_service_input_param id name definition s = record s {
    service_input_params = s.service_input_params ++ (new_param id name definition ∷ []);
  }

  -- The patch is a change that keeps the id.
  unfoldable pub handle_service_input_param_change :
      String
      → (ServiceInputParamDraft → ServiceInputParamDraft)
      → DevicePropertyPage N
      → DevicePropertyPage N
  handle_service_input_param_change id patch s = record s {
    service_input_params =
        map (λ param. if param.id == id then record (patch param) { id = param.id } else param)
          s.service_input_params;
  }

  unfoldable pub handle_remove_service_input_param :
      String → DevicePropertyPage N → DevicePropertyPage N
  handle_remove_service_input_param id s = record s {
    service_input_params = keep (λ param. not (param.id == id)) s.service_input_params;
  }

module _ {N : Type 0} (ops : Numbers N) (stringify : Json N → String) where
  unfoldable pub handle_use_writable_property : String → DevicePropertyPage N → DevicePropertyPage N
  handle_use_writable_property property_name s = record s {
    property_set_text =
        set_text ops stringify property_name (get property_name (properties_of s.current_model));
    property_set_result = none;
  }

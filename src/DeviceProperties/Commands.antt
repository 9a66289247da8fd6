-- ===== src/DeviceProperties/Commands.antt =====
-- Setting properties and calling services: `handleSetProperties` and `handleCallService` of
-- web/src/pages/Admin/DevicePropertyManagement.tsx, each cut at its `await`; the part after it has
-- the page that the handler closed over as its first argument.
use linkflow_v.Prelude.{
  String, Bool, true, false, not, ◌&&◌, ◌||◌, Option, none, some, List, [], ◌∷◌, ◌==◌, Attempt, ok,
  thrown, if◌then◌else◌,
}
use linkflow_v.Js.Json.{Json, Fields}
use linkflow_v.Js.Number.{Numbers}
use linkflow_v.Js.Text.{trim}
use linkflow_v.Answers.{Answer, answered, failed}
use linkflow_v.Services.Devices.{
  Device, DeviceStatus, DeviceConnectionStatus, DeviceServiceCallResult, DevicePropertySetResult,
  active, disabled, online, offline, set_device_properties, call_device_service,
}
use linkflow_v.ServiceInput.{service_input_params_to_record}
use linkflow_v.DeviceProperties.Definitions.{is_record, writable_property_entries_of}
use linkflow_v.DeviceProperties.State.{
  DevicePropertyTab, latest, history, set, services, event_history, property_set_history,
  service_history, DevicePropertyPage, success, properties_set, service_called, notify_error,
}
use linkflow_v.DeviceProperties.Histories.{
  HistoryOptions, load_property_set_history, load_service_history,
}

-- `canSet` and `canCall` of the panels, by which their buttons are enabled.
abbrev pub is_reachable : Option Device → Bool
is_reachable none = false
is_reachable (some device) = is_active device.status && is_online device.connection_status
  where
    is_active : DeviceStatus → Bool
    is_active active = true
    is_active disabled = false

    is_online : DeviceConnectionStatus → Bool
    is_online online = true
    is_online offline = false

abbrev pub is_services_tab : DevicePropertyTab → Bool
is_services_tab services = true
is_services_tab latest = false
is_services_tab history = false
is_services_tab set = false
is_services_tab property_set_history = false
is_services_tab service_history = false
is_services_tab event_history = false

abbrev pub first_page_silently : HistoryOptions
first_page_silently = record { page = some 1; silent = true }

abbrev pub or_braces : String → String
or_braces text = if text == "" then "{}" else text

-- `must_object` is the text of the message for a payload that is no object.
abbrev pub as_payload : {N : Type 0} → String → Option (Fields N) → Attempt (Fields N)
as_payload must_object none = thrown must_object
as_payload must_object (some o) = ok o

abbrev pub payload_of : {N : Type 0} → String → Attempt (Json N) → Attempt (Fields N)
payload_of must_object (thrown message) = thrown message
payload_of must_object (ok v) = as_payload must_object (is_record (some v))

module _ {N : Type 0} where
  abbrev pub can_set : Option Device → DevicePropertyPage N → Bool
  can_set device s =
      is_reachable device
      && has_entries (writable_property_entries_of s.current_model)
      && not s.setting_properties
    where
      has_entries : List (String × Json N) → Bool
      has_entries [] = false
      has_entries (e ∷ es) = true

  abbrev pub can_call : Option Device → DevicePropertyPage N → Bool
  can_call device s = is_reachable device && not (s.service_name == "") && not s.calling_service

  abbrev pub send_properties : Attempt (Fields N) → DevicePropertyPage N → DevicePropertyPage N
  send_properties (thrown message) s =
      notify_error "adminDevicePropertySetInvalidPayload" (some message) s
  send_properties (ok properties) s = record s {
    setting_properties = true;
    sent =
        properties_set (set_device_properties s.device_id (record { properties = properties }))
        ∷ s.sent;
  }

  unfoldable pub handle_set_properties :
      String → (String → Attempt (Json N)) → DevicePropertyPage N → DevicePropertyPage N
  handle_set_properties must_object parse s =
      if s.device_id == ""
      then s
      else send_properties (payload_of must_object (parse (or_braces (trim s.property_set_text)))) s

  unfoldable pub properties_answered :
      DevicePropertyPage N
      → Answer (DevicePropertySetResult N)
      → DevicePropertyPage N
      → DevicePropertyPage N
  properties_answered c (answered result) s =
      load_property_set_history c c.device_id first_page_silently (record s {
        property_set_result = some result;
        notified = success "adminDevicePropertySetSuccess" (some result.command_id) ∷ s.notified;
        setting_properties = false;
      })
  properties_answered c (failed e) s =
      notify_error "adminDevicePropertySetFailed" e (record s { setting_properties = false })

  abbrev pub send_call : Attempt (Fields N) → DevicePropertyPage N → DevicePropertyPage N
  send_call (thrown message) s = notify_error "adminDeviceServiceInvalidInput" (some message) s
  send_call (ok input) s = record s {
    calling_service = true;
    sent =
        service_called (call_device_service s.device_id s.service_name (record { input = input }))
        ∷ s.sent;
  }

  unfoldable pub handle_call_service :
      Numbers N → (String → Attempt (Json N)) → DevicePropertyPage N → DevicePropertyPage N
  handle_call_service ops parse s =
      if s.device_id == "" || s.service_name == ""
      then s
      else send_call (service_input_params_to_record ops parse s.service_input_params) s

  unfoldable pub call_answered :
      DevicePropertyPage N
      → Answer (DeviceServiceCallResult N)
      → DevicePropertyPage N
      → DevicePropertyPage N
  call_answered c (answered result) s =
      let s' = record s {
        service_call_result = some result;
        notified = success "adminDeviceServiceCallSuccess" (some result.command_id) ∷ s.notified;
        calling_service = false;
      } in
      if is_services_tab c.active_tab
      then load_service_history c c.device_id first_page_silently s'
      else s'
  call_answered c (failed e) s =
      notify_error "adminDeviceServiceCallFailed" e (record s { calling_service = false })

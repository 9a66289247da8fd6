-- ===== src/DeviceProperties/Examples.antt =====
-- Runs of the page of web/src/pages/Admin/DevicePropertyManagement.tsx.
use linkflow_v.Prelude.{
  String, true, false, some, none, List, [], ◌∷◌, take, ◌≡◌, refl, arith, eq_iff, All, Attempt, ok,
  keep, map,
}
use linkflow_v.Js.Json.{Json, null, str, obj, Fields, end, field, entries}
use linkflow_v.Js.Object.{get}
use linkflow_v.Js.Samples.{Small, small}
use linkflow_v.Js.Text.{trim}
use linkflow_v.Answers.{answered}
use linkflow_v.Services.Devices.{DeviceLatestProperties, Device, active, online}
use linkflow_v.Stores.EventInbox.{EventInboxItem}
use linkflow_v.ServiceInput.{service_input_params_to_record}
use linkflow_v.DeviceProperties.Definitions.{trend_property_options_of}
use linkflow_v.DeviceProperties.Inputs.{
  default_service_input_params, service_input_definition, is_required, service_input_value_type,
}
use linkflow_v.DeviceProperties.Defaults.{HasDefault, default_service_input_params-HasDefault}
use linkflow_v.DeviceProperties.State.{DevicePropertyPage, history, event_history, open_page}
use linkflow_v.DeviceProperties.Choose.{handle_device_change}
use linkflow_v.DeviceProperties.Trend.{keep_properties}
use linkflow_v.DeviceProperties.Live.{
  entry_of, inbox_effect, add_entry, is_for, is_shown, changed_read,
}
use linkflow_v.DeviceProperties.TrendBounds.{
  IsSelection, TrendStep, toggles, has_data, chooses_device, trend_run, trend_run-IsSelection,
}
use linkflow_v.Stores.EventInbox.{push_event, mark_all_read}
use linkflow_v.DeviceProperties.Deliveries.{
  Delivery, Console, on_page, deliver, deliver_run, id_of, press_mark_all_read,
  deliver_run-live_run,
}
use linkflow_v.DeviceProperties.Chart.{no_chart, render_chart}
use linkflow_v.DeviceProperties.Panels.{IsReachingSend, call_button, press, press-sent}
use linkflow_v.DeviceProperties.EventList.{live_run, newest, live_run-take}

-- A service with one required field.
abbrev service : Json Small
service = obj (
    field "input"
      (obj (
        field "speed" (obj (field "data_type" (str "int") (field "required" (Json.bool true) end)))
          (field "note" (obj (field "data_type" (str "string") end)) end)))
      end)

abbrev parse : String → Attempt (Json Small)
parse text = ok null

default_service_input_params-HasDefault_example :
    (o : Fields Small) × (service_input_params_to_record small parse
        (default_service_input_params (λ key. key) (some service))
      ≡ ok o)
    × All
        (HasDefault small parse refl refl refl o)
        (keep (λ e. is_required e.1) (entries (service_input_definition (some service))))
unfolding default_service_input_params trim get service_input_value_type
default_service_input_params-HasDefault_example =
    default_service_input_params-HasDefault small parse refl refl refl (λ key. key) service
      ((ground (arith, eq_iff "speed" ""), ground (arith, eq_iff "speed" "__proto__")), tt) (tt, tt)

abbrev item : String → String → EventInboxItem Small
item id device_id = record {
  payload = record {
    tenant_id = "t1";
    product_id = "p1";
    device_id = device_id;
    tenant_slug = "tenant";
    product_key = "key";
    device_slug = "pump";
    event_name = "alarm";
    params = end;
  };
  event_id = id;
  occurred_at = "2026-01-01";
  received_at = "2026-01-01";
  read = false;
}

abbrev on_screen : DevicePropertyPage Small
on_screen = record (open_page (record { from = ""; to = "" })) {
  device_id = "d1";
  active_tab = event_history;
}

abbrev events : List (EventInboxItem Small)
events = item "e1" "d1" ∷ item "e2" "d2" ∷ item "e3" "d1" ∷ []

live_run-take_example :
    ((live_run events on_screen).events.entries ≡ take 20 (newest (is_shown on_screen) events []))
    × ((live_run events on_screen).events.total ≡ 2)
unfolding is_for trim
live_run-take_example = live_run-take events on_screen [] refl refl

-- An event that the history has already read is counted a second time.
abbrev already_read : DevicePropertyPage Small
already_read = record on_screen {
  events = record (on_screen.events) { entries = entry_of (item "e1" "d1") ∷ []; total = 1 };
}

already_read-inbox_effect :
    inbox_effect (some (item "e1" "d1")) already_read
    ≡ record already_read { events = record (already_read.events) { total = 2 } }
unfolding inbox_effect add_entry is_for trim
already_read-inbox_effect = refl

-- With no property chosen, none of the options is chosen.
keep_properties-nil :
    keep_properties (record { key = "speed"; label = "Speed"; unit = none } ∷ []) [] ≡ []
unfolding keep_properties
keep_properties-nil = refl

-- The answer to a reading that a change of properties of one device started is shown for another
-- device that was chosen meanwhile.
abbrev properties_of_d1 : DeviceLatestProperties Small
properties_of_d1 = record {
  id = "d1";
  tenant_id = "t1";
  product_id = "p1";
  product_key = "key";
  device_slug = "pump";
  reported = true;
  properties = end;
  occurred_at = none;
  received_at = none;
}

changed_read-handle_device_change :
    (changed_read
      (answered properties_of_d1)
      (handle_device_change "d2" on_screen)).latest_properties
    ≡ some properties_of_d1
unfolding changed_read
changed_read-handle_device_change = refl

abbrev presses : List (TrendStep Small)
presses =
    chooses_device "d1"
    ∷ has_data none (some properties_of_d1)
    ∷ toggles "speed"
    ∷ toggles "force"
    ∷ toggles "speed"
    ∷ []

trend_run-IsSelection_example : IsSelection (trend_run presses on_screen).trend_properties
unfolding trend_property_options_of
trend_run-IsSelection_example = trend_run-IsSelection presses on_screen refl (refl, omega arith)

abbrev delivery : String → Delivery Small
delivery id = record {
  now = "2026-01-01";
  payload = (item id "d1").payload;
  meta = record { event_id = id; occurred_at = "2026-01-01" };
}

abbrev console : Console Small
console = record { inbox = record { items = []; unread_count = 0 }; page = on_screen }

-- The second event comes twice.
abbrev deliveries : List (Delivery Small)
deliveries = delivery "e1" ∷ delivery "e2" ∷ delivery "e2" ∷ []

deliver_run-live_run_example :
    (map id_of (deliver_run deliveries console).inbox.items ≡ "e2" ∷ "e1" ∷ [])
    × ((deliver_run deliveries console).page
        ≡ live_run (item "e1" "d1" ∷ item "e2" "d1" ∷ []) on_screen)
deliver_run-live_run_example = deliver_run-live_run deliveries console

-- Marking the events as read makes a new object of the first one, and the page counts it again.
press_mark_all_read-deliver :
    ((press_mark_all_read (deliver (delivery "e1") console)).page.events.total ≡ 2)
    × ((press_mark_all_read (deliver (delivery "e1") console)).page.events.entries
        ≡ entry_of (item "e1" "d1") ∷ [])
unfolding press_mark_all_read deliver push_event mark_all_read inbox_effect add_entry is_for trim
press_mark_all_read-deliver = (refl, refl)

-- An event that came while another tab was open is added when the tab of events is opened.
abbrev elsewhere : Console Small
elsewhere = record console { page = record on_screen { active_tab = history } }

opened_later-deliver :
    (on_page
      (λ s. record s { active_tab = event_history })
      (deliver (delivery "e1") elsewhere)).page.events.entries
    ≡ entry_of (item "e1" "d1") ∷ []
unfolding on_page deliver push_event inbox_effect add_entry is_for trim
opened_later-deliver = refl

-- A chart that was empty in between is drawn on an element that is no longer in the document.
empty_between-render_chart :
    render_chart 3 (render_chart 0 (render_chart 3 no_chart))
    ≡ record { chart_ref = some 1; chart_instance_ref = some 0; made = 2 }
unfolding render_chart
empty_between-render_chart = refl

abbrev pump : Device
pump = record {
  id = "d1";
  tenant_id = "t1";
  product_id = "p1";
  device_slug = "pump";
  device_name = "Pump";
  description = "";
  status = active;
  connection_status = online;
  gateway_device_id = none;
  firmware_version = none;
  ip_address = none;
  last_seen_at = none;
  created_at = "2026-01-01";
  updated_at = "2026-01-01";
}

abbrev reboot_chosen : DevicePropertyPage Small
reboot_chosen = record on_screen { devices = pump ∷ []; service_name = "reboot" }

press-sent_example :
    IsReachingSend reboot_chosen (press (call_button small parse) reboot_chosen).sent
press-sent_example = press-sent (call_button small parse) reboot_chosen

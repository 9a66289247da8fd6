-- ===== src/ThingsModel/Presets/Examples.antt =====
-- Runs of the ready-made definitions of web/src/pages/Admin/ThingsModelManagement.tsx: the
-- rows of each one pass the validation, and events and services are built again as they were. Numbers are their own texts here.
use linkflow_v.Prelude.{String, true, false, [], ◌≡◌, refl, ok}
use linkflow_v.Js.Object.{get, put, assign, comes_before}
use linkflow_v.Js.Number.{Numbers}
use linkflow_v.Js.Text.{trim}
use linkflow_v.ThingsModel.Examples.{fresh}
use linkflow_v.ThingsModel.Rows.{validate_definition_rows}
use linkflow_v.ThingsModel.Read.{
  property_rows_from_object, event_rows_from_object, service_rows_from_object, param_draft_of,
  event_level_from_unknown, call_type_from_unknown,
}
use linkflow_v.ThingsModel.Build.{
  object_from_event_rows, object_from_service_rows, object_from_params, param_definition_from_draft,
  param_spec_from_draft, number_or_undefined, int_or_undefined, spec_of,
}
use linkflow_v.ThingsModel.Presets.Properties.{
  temperature_preset, humidity_preset, battery_level_preset, switch_state_preset,
}
use linkflow_v.ThingsModel.Presets.Events.{
  temperature_alarm_preset, low_battery_preset, fault_report_preset,
}
use linkflow_v.ThingsModel.Presets.Services.{
  reboot_preset, set_report_interval_preset, set_switch_state_preset,
}

abbrev texts : Numbers String
texts = record {
  of_text = λ text. text;
  to_text = λ text. text;
  of_nat = λ n. "0";
  same = λ x y. true;
  is_finite = λ x. true;
  is_integer = λ x. true;
  is_negative = λ x. false;
}

temperature_preset-valid :
    validate_definition_rows
      (property_rows_from_object texts fresh (temperature_preset texts).template 0).0
      []
      []
    ≡ true
unfolding validate_definition_rows property_rows_from_object param_draft_of get trim
temperature_preset-valid = refl

humidity_preset-valid :
    validate_definition_rows
      (property_rows_from_object texts fresh (humidity_preset texts).template 0).0
      []
      []
    ≡ true
unfolding validate_definition_rows property_rows_from_object param_draft_of get trim
humidity_preset-valid = refl

battery_level_preset-valid :
    validate_definition_rows
      (property_rows_from_object texts fresh (battery_level_preset texts).template 0).0
      []
      []
    ≡ true
unfolding validate_definition_rows property_rows_from_object param_draft_of get trim
battery_level_preset-valid = refl

switch_state_preset-valid :
    validate_definition_rows
      (property_rows_from_object texts fresh (switch_state_preset texts).template 0).0
      []
      []
    ≡ true
unfolding validate_definition_rows property_rows_from_object param_draft_of get trim
switch_state_preset-valid = refl

temperature_alarm_preset-valid :
    validate_definition_rows []
      (event_rows_from_object texts fresh (temperature_alarm_preset texts).template 0).0
      []
    ≡ true
unfolding validate_definition_rows event_rows_from_object param_draft_of get trim
temperature_alarm_preset-valid = refl

temperature_alarm_preset-built :
    object_from_event_rows texts
      (event_rows_from_object texts fresh (temperature_alarm_preset texts).template 0).0
    ≡ ok (temperature_alarm_preset texts).template
unfolding event_rows_from_object event_level_from_unknown object_from_event_rows object_from_params
    param_definition_from_draft param_spec_from_draft number_or_undefined int_or_undefined spec_of
    trim get put assign comes_before param_draft_of
temperature_alarm_preset-built = refl

low_battery_preset-valid :
    validate_definition_rows []
      (event_rows_from_object texts fresh (low_battery_preset texts).template 0).0
      []
    ≡ true
unfolding validate_definition_rows event_rows_from_object param_draft_of get trim
low_battery_preset-valid = refl

low_battery_preset-built :
    object_from_event_rows texts
      (event_rows_from_object texts fresh (low_battery_preset texts).template 0).0
    ≡ ok (low_battery_preset texts).template
unfolding event_rows_from_object event_level_from_unknown object_from_event_rows object_from_params
    param_definition_from_draft param_spec_from_draft number_or_undefined int_or_undefined spec_of
    trim get put assign comes_before param_draft_of
low_battery_preset-built = refl

fault_report_preset-valid :
    validate_definition_rows []
      (event_rows_from_object texts fresh (fault_report_preset texts).template 0).0
      []
    ≡ true
unfolding validate_definition_rows event_rows_from_object param_draft_of get trim
fault_report_preset-valid = refl

fault_report_preset-built :
    object_from_event_rows texts
      (event_rows_from_object texts fresh (fault_report_preset texts).template 0).0
    ≡ ok (fault_report_preset texts).template
unfolding event_rows_from_object event_level_from_unknown object_from_event_rows object_from_params
    param_definition_from_draft param_spec_from_draft number_or_undefined int_or_undefined spec_of
    trim get put assign comes_before param_draft_of
fault_report_preset-built = refl

reboot_preset-valid :
    validate_definition_rows [] []
      (service_rows_from_object texts fresh (reboot_preset texts).template 0).0
    ≡ true
unfolding validate_definition_rows service_rows_from_object param_draft_of get trim
reboot_preset-valid = refl

reboot_preset-built :
    object_from_service_rows texts
      (service_rows_from_object texts fresh (reboot_preset texts).template 0).0
    ≡ ok (reboot_preset texts).template
unfolding service_rows_from_object call_type_from_unknown object_from_service_rows
    object_from_params param_definition_from_draft param_spec_from_draft number_or_undefined
    int_or_undefined spec_of trim get put assign comes_before param_draft_of
reboot_preset-built = refl

set_report_interval_preset-valid :
    validate_definition_rows [] []
      (service_rows_from_object texts fresh (set_report_interval_preset texts).template 0).0
    ≡ true
unfolding validate_definition_rows service_rows_from_object param_draft_of get trim
set_report_interval_preset-valid = refl

set_report_interval_preset-built :
    object_from_service_rows texts
      (service_rows_from_object texts fresh (set_report_interval_preset texts).template 0).0
    ≡ ok (set_report_interval_preset texts).template
unfolding service_rows_from_object call_type_from_unknown object_from_service_rows
    object_from_params param_definition_from_draft param_spec_from_draft number_or_undefined
    int_or_undefined spec_of trim get put assign comes_before param_draft_of
set_report_interval_preset-built = refl

set_switch_state_preset-valid :
    validate_definition_rows [] []
      (service_rows_from_object texts fresh (set_switch_state_preset texts).template 0).0
    ≡ true
unfolding validate_definition_rows service_rows_from_object param_draft_of get trim
set_switch_state_preset-valid = refl

set_switch_state_preset-built :
    object_from_service_rows texts
      (service_rows_from_object texts fresh (set_switch_state_preset texts).template 0).0
    ≡ ok (set_switch_state_preset texts).template
unfolding service_rows_from_object call_type_from_unknown object_from_service_rows
    object_from_params param_definition_from_draft param_spec_from_draft number_or_undefined
    int_or_undefined spec_of trim get put assign comes_before param_draft_of
set_switch_state_preset-built = refl

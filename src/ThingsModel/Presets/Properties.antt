-- ===== src/ThingsModel/Presets/Properties.antt =====
-- The ready-made definitions of web/src/pages/Admin/ThingsModelManagement.tsx: those of
-- properties.
use linkflow_v.Prelude.{false, List, [], ◌∷◌}
use linkflow_v.Js.Json.{Json, str}
use linkflow_v.Js.Number.{Numbers}
use linkflow_v.ThingsModel.Presets.{DefinitionPreset, ◌⇒◌, fields, object, number}

module _ {N : Type 0} (ops : Numbers N) where
  abbrev pub temperature_preset : DefinitionPreset N
  temperature_preset = record {
    label_key = "adminThingsModelPresetTemperature";
    template = fields (
        "temperature"
          ⇒ object (
              "name" ⇒ str "温度"
              ∷ "data_type" ⇒ str "float"
              ∷ "access_mode" ⇒ str "read"
              ∷ "required" ⇒ Json.bool false
              ∷ "spec"
                ⇒ object (
                    "min" ⇒ number ops "-40"
                    ∷ "max" ⇒ number ops "125"
                    ∷ "step" ⇒ number ops "0.1"
                    ∷ "unit" ⇒ str "celsius"
                    ∷ "precision" ⇒ number ops "1"
                    ∷ [])
              ∷ [])
        ∷ []);
  }

  abbrev pub humidity_preset : DefinitionPreset N
  humidity_preset = record {
    label_key = "adminThingsModelPresetHumidity";
    template = fields (
        "humidity"
          ⇒ object (
              "name" ⇒ str "湿度"
              ∷ "data_type" ⇒ str "float"
              ∷ "access_mode" ⇒ str "read"
              ∷ "required" ⇒ Json.bool false
              ∷ "spec"
                ⇒ object (
                    "min" ⇒ number ops "0"
                    ∷ "max" ⇒ number ops "100"
                    ∷ "step" ⇒ number ops "0.1"
                    ∷ "unit" ⇒ str "percent"
                    ∷ "precision" ⇒ number ops "1"
                    ∷ [])
              ∷ [])
        ∷ []);
  }

  abbrev pub battery_level_preset : DefinitionPreset N
  battery_level_preset = record {
    label_key = "adminThingsModelPresetBattery";
    template = fields (
        "battery_level"
          ⇒ object (
              "name" ⇒ str "电量"
              ∷ "data_type" ⇒ str "int"
              ∷ "access_mode" ⇒ str "read"
              ∷ "required" ⇒ Json.bool false
              ∷ "spec"
                ⇒ object (
                    "min" ⇒ number ops "0"
                    ∷ "max" ⇒ number ops "100"
                    ∷ "step" ⇒ number ops "1"
                    ∷ "unit" ⇒ str "percent"
                    ∷ [])
              ∷ [])
        ∷ []);
  }

  abbrev pub switch_state_preset : DefinitionPreset N
  switch_state_preset = record {
    label_key = "adminThingsModelPresetSwitch";
    template = fields (
        "switch_state"
          ⇒ object (
              "name" ⇒ str "开关状态"
              ∷ "data_type" ⇒ str "bool"
              ∷ "access_mode" ⇒ str "readwrite"
              ∷ "required" ⇒ Json.bool false
              ∷ [])
        ∷ []);
  }

  abbrev pub property_presets : List (DefinitionPreset N)
  property_presets =
      temperature_preset ∷ humidity_preset ∷ battery_level_preset ∷ switch_state_preset ∷ []

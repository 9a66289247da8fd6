-- ===== src/ThingsModel/Presets/Events.antt =====
-- The ready-made definitions of web/src/pages/Admin/ThingsModelManagement.tsx: those of
-- events.
use linkflow_v.Prelude.{true, false, List, [], ◌∷◌}
use linkflow_v.Js.Json.{Json, str}
use linkflow_v.Js.Number.{Numbers}
use linkflow_v.ThingsModel.Presets.{DefinitionPreset, ◌⇒◌, fields, object, number}

module _ {N : Type 0} (ops : Numbers N) where
  abbrev pub temperature_alarm_preset : DefinitionPreset N
  temperature_alarm_preset = record {
    label_key = "adminThingsModelPresetTemperatureAlarm";
    template = fields (
        "temperature_alarm"
          ⇒ object (
              "name" ⇒ str "温度报警"
              ∷ "level" ⇒ str "warning"
              ∷ "desc" ⇒ str "设备检测到温度超过安全阈值"
              ∷ "output"
                ⇒ object (
                    "temperature"
                      ⇒ object (
                          "name" ⇒ str "当前温度"
                          ∷ "data_type" ⇒ str "float"
                          ∷ "required" ⇒ Json.bool true
                          ∷ "spec"
                            ⇒ object (
                                "min" ⇒ number ops "-40"
                                ∷ "max" ⇒ number ops "125"
                                ∷ "step" ⇒ number ops "0.1"
                                ∷ "unit" ⇒ str "celsius"
                                ∷ "precision" ⇒ number ops "1"
                                ∷ [])
                          ∷ [])
                    ∷ "threshold"
                      ⇒ object (
                          "name" ⇒ str "报警阈值"
                          ∷ "data_type" ⇒ str "float"
                          ∷ "required" ⇒ Json.bool false
                          ∷ "spec"
                            ⇒ object ("unit" ⇒ str "celsius" ∷ "precision" ⇒ number ops "1" ∷ [])
                          ∷ [])
                    ∷ [])
              ∷ [])
        ∷ []);
  }

  abbrev pub low_battery_preset : DefinitionPreset N
  low_battery_preset = record {
    label_key = "adminThingsModelPresetLowBattery";
    template = fields (
        "low_battery"
          ⇒ object (
              "name" ⇒ str "低电量告警"
              ∷ "level" ⇒ str "warning"
              ∷ "desc" ⇒ str "设备电量低于设定阈值"
              ∷ "output"
                ⇒ object (
                    "battery_level"
                      ⇒ object (
                          "name" ⇒ str "当前电量"
                          ∷ "data_type" ⇒ str "int"
                          ∷ "required" ⇒ Json.bool true
                          ∷ "spec"
                            ⇒ object (
                                "min" ⇒ number ops "0"
                                ∷ "max" ⇒ number ops "100"
                                ∷ "step" ⇒ number ops "1"
                                ∷ "unit" ⇒ str "percent"
                                ∷ [])
                          ∷ [])
                    ∷ [])
              ∷ [])
        ∷ []);
  }

  abbrev pub fault_report_preset : DefinitionPreset N
  fault_report_preset = record {
    label_key = "adminThingsModelPresetFaultReport";
    template = fields (
        "fault_report"
          ⇒ object (
              "name" ⇒ str "故障上报"
              ∷ "level" ⇒ str "error"
              ∷ "desc" ⇒ str "设备上报故障码和故障信息"
              ∷ "output"
                ⇒ object (
                    "code"
                      ⇒ object (
                          "name" ⇒ str "故障码"
                          ∷ "data_type" ⇒ str "string"
                          ∷ "required" ⇒ Json.bool true
                          ∷ [])
                    ∷ "message"
                      ⇒ object (
                          "name" ⇒ str "故障信息"
                          ∷ "data_type" ⇒ str "string"
                          ∷ "required" ⇒ Json.bool false
                          ∷ [])
                    ∷ [])
              ∷ [])
        ∷ []);
  }

  abbrev pub event_presets : List (DefinitionPreset N)
  event_presets = temperature_alarm_preset ∷ low_battery_preset ∷ fault_report_preset ∷ []

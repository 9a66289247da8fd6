-- ===== src/ThingsModel/Presets/Services.antt =====
-- The ready-made definitions of web/src/pages/Admin/ThingsModelManagement.tsx: those of
-- services.
use linkflow_v.Prelude.{true, List, [], ◌∷◌}
use linkflow_v.Js.Json.{Json, str, obj, end}
use linkflow_v.Js.Number.{Numbers}
use linkflow_v.ThingsModel.Presets.{DefinitionPreset, ◌⇒◌, fields, object, number}

module _ {N : Type 0} (ops : Numbers N) where
  abbrev pub reboot_preset : DefinitionPreset N
  reboot_preset = record {
    label_key = "adminThingsModelPresetReboot";
    template = fields (
        "reboot"
          ⇒ object (
              "name" ⇒ str "重启设备"
              ∷ "call_type" ⇒ str "async"
              ∷ "desc" ⇒ str "平台下发重启命令，设备返回执行结果"
              ∷ "input" ⇒ obj end
              ∷ "output"
                ⇒ object (
                    "accepted"
                      ⇒ object (
                          "name" ⇒ str "是否接受"
                          ∷ "data_type" ⇒ str "bool"
                          ∷ "required" ⇒ Json.bool true
                          ∷ [])
                    ∷ [])
              ∷ [])
        ∷ []);
  }

  abbrev pub set_report_interval_preset : DefinitionPreset N
  set_report_interval_preset = record {
    label_key = "adminThingsModelPresetReportInterval";
    template = fields (
        "set_report_interval"
          ⇒ object (
              "name" ⇒ str "设置上报周期"
              ∷ "call_type" ⇒ str "sync"
              ∷ "desc" ⇒ str "设置设备属性上报间隔"
              ∷ "input"
                ⇒ object (
                    "interval_seconds"
                      ⇒ object (
                          "name" ⇒ str "上报间隔"
                          ∷ "data_type" ⇒ str "int"
                          ∷ "required" ⇒ Json.bool true
                          ∷ "spec"
                            ⇒ object (
                                "min" ⇒ number ops "1"
                                ∷ "max" ⇒ number ops "86400"
                                ∷ "step" ⇒ number ops "1"
                                ∷ "unit" ⇒ str "second"
                                ∷ [])
                          ∷ [])
                    ∷ [])
              ∷ "output"
                ⇒ object (
                    "applied"
                      ⇒ object (
                          "name" ⇒ str "是否生效"
                          ∷ "data_type" ⇒ str "bool"
                          ∷ "required" ⇒ Json.bool true
                          ∷ [])
                    ∷ [])
              ∷ [])
        ∷ []);
  }

  abbrev pub set_switch_state_preset : DefinitionPreset N
  set_switch_state_preset = record {
    label_key = "adminThingsModelPresetSwitchService";
    template = fields (
        "set_switch_state"
          ⇒ object (
              "name" ⇒ str "设置开关"
              ∷ "call_type" ⇒ str "sync"
              ∷ "desc" ⇒ str "平台设置设备开关状态"
              ∷ "input"
                ⇒ object (
                    "switch_state"
                      ⇒ object (
                          "name" ⇒ str "目标开关状态"
                          ∷ "data_type" ⇒ str "bool"
                          ∷ "required" ⇒ Json.bool true
                          ∷ [])
                    ∷ [])
              ∷ "output"
                ⇒ object (
                    "applied"
                      ⇒ object (
                          "name" ⇒ str "是否生效"
                          ∷ "data_type" ⇒ str "bool"
                          ∷ "required" ⇒ Json.bool true
                          ∷ [])
                    ∷ [])
              ∷ [])
        ∷ []);
  }

  abbrev pub service_presets : List (DefinitionPreset N)
  service_presets = reboot_preset ∷ set_report_interval_preset ∷ set_switch_state_preset ∷ []

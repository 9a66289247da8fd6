-- ===== src/DeviceProperties/HistoryEffects.antt =====
-- The effects that read the histories of web/src/pages/Admin/DevicePropertyManagement.tsx, each up to
-- its `await` and after it.
use linkflow_v.Prelude.{Bool, false, none}
use linkflow_v.Answers.{Answer}
use linkflow_v.Services.Call.{PageResult}
use linkflow_v.Services.Devices.{
  DeviceEventEntry, DevicePropertySetHistoryEntry, DeviceServiceCallHistoryEntry,
}
use linkflow_v.DeviceProperties.State.{
  DevicePropertyTab, latest, history, set, services, event_history, property_set_history,
  service_history, DevicePropertyPage,
}
use linkflow_v.DeviceProperties.Histories.{
  HistoryOptions, history_effect_read, failure, tell, load_event_history, load_service_history,
  load_property_set_history,
}

abbrev pub as_effect : HistoryOptions
as_effect = record { page = none; silent = false }

module _ {N : Type 0} where
  -- The effects do what the readings of the current device do, on their own tab.
  unfoldable pub read_events_on : DevicePropertyTab → DevicePropertyPage N → DevicePropertyPage N
  read_events_on event_history s = load_event_history s s.device_id as_effect s
  read_events_on latest s = s
  read_events_on history s = s
  read_events_on set s = s
  read_events_on services s = s
  read_events_on property_set_history s = s
  read_events_on service_history s = s

  unfoldable pub events_effect_read :
      Bool → Answer (PageResult (DeviceEventEntry N)) → DevicePropertyPage N → DevicePropertyPage N
  events_effect_read cancelled a s =
      tell (failure false cancelled "adminDeviceEventHistoryFailed" a)
        (record s { events = history_effect_read cancelled a s.events })

  unfoldable pub read_property_sets_on :
      DevicePropertyTab → DevicePropertyPage N → DevicePropertyPage N
  read_property_sets_on property_set_history s = load_property_set_history s s.device_id as_effect s
  read_property_sets_on latest s = s
  read_property_sets_on history s = s
  read_property_sets_on set s = s
  read_property_sets_on services s = s
  read_property_sets_on event_history s = s
  read_property_sets_on service_history s = s

  unfoldable pub property_sets_effect_read :
      Bool
      → Answer (PageResult (DevicePropertySetHistoryEntry N))
      → DevicePropertyPage N
      → DevicePropertyPage N
  property_sets_effect_read cancelled a s =
      tell (failure false cancelled "adminDevicePropertySetHistoryFailed" a)
        (record s { property_sets = history_effect_read cancelled a s.property_sets })

  unfoldable pub read_service_calls_on :
      DevicePropertyTab → DevicePropertyPage N → DevicePropertyPage N
  read_service_calls_on service_history s = load_service_history s s.device_id as_effect s
  read_service_calls_on latest s = s
  read_service_calls_on history s = s
  read_service_calls_on set s = s
  read_service_calls_on services s = s
  read_service_calls_on event_history s = s
  read_service_calls_on property_set_history s = s

  unfoldable pub service_calls_effect_read :
      Bool
      → Answer (PageResult (DeviceServiceCallHistoryEntry N))
      → DevicePropertyPage N
      → DevicePropertyPage N
  service_calls_effect_read cancelled a s =
      tell (failure false cancelled "adminDeviceServiceHistoryFailed" a)
        (record s { service_calls = history_effect_read cancelled a s.service_calls })

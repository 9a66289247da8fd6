-- ===== src/DeviceProperties/Histories.antt =====
-- Reading the three histories of web/src/pages/Admin/DevicePropertyManagement.tsx: the effects, and
-- `loadEventHistory`, `loadServiceHistory` and `loadPropertySetHistory`, each cut at its `await`;
-- a `load` function has the page that it closed over as its first argument.
use linkflow_v.Prelude.{
  ℕ, String, Bool, true, false, ◌||◌, Option, none, some, [], ◌∷◌, ◌==◌, if◌then◌else◌,
}
use linkflow_v.Js.Text.{trim}
use linkflow_v.Answers.{Answer, answered, failed}
use linkflow_v.Services.Call.{PageResult}
use linkflow_v.Services.Devices.{
  DeviceEventEntry, DevicePropertySetHistoryEntry, DeviceServiceCallHistoryEntry,
  list_device_events, list_device_service_calls, list_device_property_sets,
}
use linkflow_v.DeviceProperties.State.{
  History, PageNotice, error, events_listed, service_calls_listed, property_sets_listed,
  DevicePropertyPage,
}

-- The options that the page gives to a reading: `page` and `silent`.
pub record HistoryOptions : Type 0 where
  pub page : Option ℕ
  pub silent : Bool

-- `options.page ?? page`.
abbrev pub page_or : Option ℕ → ℕ → ℕ
page_or none current = current
page_or (some page) current = page

-- `text.trim() || undefined`.
abbrev pub filter_of : String → Option String
filter_of name = if trim name == "" then none else some (trim name)

module _ {E : Type 0} where
  abbrev pub no_entries : History E → History E
  no_entries h = record h { entries = []; total = 0 }

  abbrev pub begin_reading : Bool → History E → History E
  begin_reading silent h = if silent then h else record h { loading = true }

  abbrev pub show_entries : PageResult E → History E → History E
  show_entries r h = record h {
    entries = r.items;
    total = r.total;
    page = r.page;
    page_size = r.page_size;
  }

  -- A reading that was started by a handler or the timer.
  abbrev pub entries_or : Bool → Answer (PageResult E) → History E → History E
  entries_or true a h = h
  entries_or false (answered r) h = show_entries r h
  entries_or false (failed e) h = h

  unfoldable pub history_read : Bool → Bool → Answer (PageResult E) → History E → History E
  history_read silent cancelled a h =
      let h' = entries_or cancelled a h in if silent then h' else record h' { loading = false }

  -- A reading of the effect.
  unfoldable pub history_effect_read : Bool → Answer (PageResult E) → History E → History E
  history_effect_read true a h = h
  history_effect_read false a h = record (entries_or false a h) { loading = false }

  -- The notification of a failure.
  abbrev pub failure : Bool → Bool → String → Answer (PageResult E) → Option PageNotice
  failure silent cancelled key (answered r) = none
  failure silent cancelled key (failed e) = if cancelled || silent then none else some (error key e)

module _ {N : Type 0} where
  abbrev pub tell : Option PageNotice → DevicePropertyPage N → DevicePropertyPage N
  tell none s = s
  tell (some notice) s = record s { notified = notice ∷ s.notified }

  unfoldable pub load_event_history :
      DevicePropertyPage N → String → HistoryOptions → DevicePropertyPage N → DevicePropertyPage N
  load_event_history c next_device_id options s =
      if next_device_id == "" then record s { events = no_entries s.events } else record s {
        events = begin_reading options.silent s.events;
        sent =
            events_listed (
              list_device_events next_device_id (record {
                event_name = filter_of c.events.name_filter;
                page = page_or options.page c.events.page;
                page_size = c.events.page_size;
              }))
            ∷ s.sent;
      }

  unfoldable pub event_history_read :
      Bool
      → Bool
      → Answer (PageResult (DeviceEventEntry N))
      → DevicePropertyPage N
      → DevicePropertyPage N
  event_history_read silent cancelled a s =
      tell (failure silent cancelled "adminDeviceEventHistoryFailed" a)
        (record s { events = history_read silent cancelled a s.events })

  unfoldable pub load_service_history :
      DevicePropertyPage N → String → HistoryOptions → DevicePropertyPage N → DevicePropertyPage N
  load_service_history c next_device_id options s =
      if next_device_id == ""
      then record s { service_calls = no_entries s.service_calls }
      else record s {
        service_calls = begin_reading options.silent s.service_calls;
        sent =
            service_calls_listed (
              list_device_service_calls next_device_id (record {
                service_name = filter_of c.service_calls.name_filter;
                ack_deadline_seconds = c.service_ack_deadline_seconds;
                page = page_or options.page c.service_calls.page;
                page_size = c.service_calls.page_size;
              }))
            ∷ s.sent;
      }

  unfoldable pub service_history_read :
      Bool
      → Bool
      → Answer (PageResult (DeviceServiceCallHistoryEntry N))
      → DevicePropertyPage N
      → DevicePropertyPage N
  service_history_read silent cancelled a s =
      tell (failure silent cancelled "adminDeviceServiceHistoryFailed" a)
        (record s { service_calls = history_read silent cancelled a s.service_calls })

  unfoldable pub load_property_set_history :
      DevicePropertyPage N → String → HistoryOptions → DevicePropertyPage N → DevicePropertyPage N
  load_property_set_history c next_device_id options s =
      if next_device_id == ""
      then record s { property_sets = no_entries s.property_sets }
      else record s {
        property_sets = begin_reading options.silent s.property_sets;
        sent =
            property_sets_listed (
              list_device_property_sets next_device_id (record {
                property_name = filter_of c.property_sets.name_filter;
                ack_deadline_seconds = c.property_set_ack_deadline_seconds;
                page = page_or options.page c.property_sets.page;
                page_size = c.property_sets.page_size;
              }))
            ∷ s.sent;
      }

  unfoldable pub property_set_history_read :
      Bool
      → Bool
      → Answer (PageResult (DevicePropertySetHistoryEntry N))
      → DevicePropertyPage N
      → DevicePropertyPage N
  property_set_history_read silent cancelled a s =
      tell (failure silent cancelled "adminDevicePropertySetHistoryFailed" a)
        (record s { property_sets = history_read silent cancelled a s.property_sets })

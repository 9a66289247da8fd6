-- ===== src/DeviceProperties/Live.antt =====
-- What events of the stream, through the inbox and directly, change on the page of
-- web/src/pages/Admin/DevicePropertyManagement.tsx.
use linkflow_v.Prelude.{
  ℕ, ◌+◌, String, Bool, true, false, not, ◌&&◌, ◌||◌, Option, none, some, List, ◌∷◌, map, ◌==◌, any,
  take, eqb, if◌then◌else◌,
}
use linkflow_v.Js.Json.{Fields}
use linkflow_v.Js.Text.{trim}
use linkflow_v.Answers.{Answer, answered, failed}
use linkflow_v.Services.Devices.{
  DeviceEventEntry, DeviceLatestProperties, get_device_latest_properties,
}
use linkflow_v.Stores.EventInbox.{EventInboxItem}
use linkflow_v.Devices.{ConnectionChange, StreamMeta, connection_changed}
use linkflow_v.DeviceProperties.State.{
  DevicePropertyTab, latest, history, set, services, event_history, property_set_history,
  service_history, DevicePropertyPage, latest_read, notify_error,
}
use linkflow_v.DeviceProperties.Histories.{
  HistoryOptions, load_event_history, load_property_set_history, load_service_history,
}
use linkflow_v.DeviceProperties.Readings.{load_selectable_devices}
use linkflow_v.DeviceProperties.Trend.{load_latest_properties, load_property_trend}

-- `realtimeFallbackRefreshMs` and `isRealtimeFallbackStatus` are in components/RealtimeStatusBadge.tsx.
abbrev pub is_event_history : DevicePropertyTab → Bool
is_event_history event_history = true
is_event_history latest = false
is_event_history history = false
is_event_history set = false
is_event_history services = false
is_event_history property_set_history = false
is_event_history service_history = false

-- The payload of a change of properties, as the page reads it.
pub record PropertyChange (N : Type 0) : Type 0 where
  pub tenant_id : String
  pub product_id : String
  pub device_id : String
  pub product_key : String
  pub device_slug : String
  pub properties : Fields N

-- What the timer reads while the stream is down.
abbrev pub silently : HistoryOptions
silently = record { page = none; silent = true }

module _ {N : Type 0} where
  abbrev pub entry_of : EventInboxItem N → DeviceEventEntry N
  entry_of item = record {
    event_id = item.event_id;
    tenant_id = item.tenant_id;
    product_id = item.product_id;
    product_key = item.product_key;
    device_slug = item.device_slug;
    event_name = item.event_name;
    params = item.params;
    occurred_at = item.occurred_at;
    received_at = item.received_at;
  }

  unfoldable pub add_entry :
      ℕ → EventInboxItem N → List (DeviceEventEntry N) → List (DeviceEventEntry N)
  add_entry page_size item current =
      if any (λ entry. entry.event_id == item.event_id) current
      then current
      else take page_size (entry_of item ∷ current)

  -- The event is for the first page of the history that is on the screen, and passes its filter.
  unfoldable pub is_for : DevicePropertyTab → ℕ → String → String → EventInboxItem N → Bool
  is_for active_tab event_page device_id event_name_filter item =
      (is_event_history active_tab && eqb event_page 1)
      && (item.device_id == device_id
          && (trim event_name_filter == "" || item.event_name == trim event_name_filter))

  abbrev pub is_shown : DevicePropertyPage N → EventInboxItem N → Bool
  is_shown s = is_for s.active_tab s.events.page s.device_id s.events.name_filter

  -- The effect of the inbox's latest event.
  unfoldable pub inbox_effect :
      Option (EventInboxItem N) → DevicePropertyPage N → DevicePropertyPage N
  inbox_effect none s = s
  inbox_effect (some item) s = if not (is_shown s item) then s else record s {
    events = record (s.events) {
      entries = add_entry s.events.page_size item s.events.entries;
      total = s.events.total + 1;
    };
  }

  unfoldable pub on_connection_changed :
      ConnectionChange → StreamMeta → DevicePropertyPage N → DevicePropertyPage N
  on_connection_changed payload meta s =
      if not (meta.meta_tenant_id == s.tenant_id) then s else record s {
        devices =
            map
              (λ device.
                if device.id == payload.device_id
                then connection_changed payload meta device
                else device)
              s.devices;
      }

  abbrev pub reported : PropertyChange N → StreamMeta → DeviceLatestProperties N
  reported payload meta = record {
    id = payload.device_id;
    tenant_id = payload.tenant_id;
    product_id = payload.product_id;
    product_key = payload.product_key;
    device_slug = payload.device_slug;
    reported = true;
    properties = payload.properties;
    occurred_at = some meta.occurred_at;
    received_at = some meta.occurred_at;
  }

  unfoldable pub on_property_changed :
      PropertyChange N → StreamMeta → DevicePropertyPage N → DevicePropertyPage N
  on_property_changed payload meta s =
      if not (meta.meta_tenant_id == s.tenant_id) || not (payload.device_id == s.device_id)
      then s
      else record s {
        latest_properties = some (reported payload meta);
        sent = latest_read (get_device_latest_properties payload.device_id) ∷ s.sent;
      }

  -- The answer to the reading that a change of properties starts.
  unfoldable pub changed_read :
      Answer (DeviceLatestProperties N) → DevicePropertyPage N → DevicePropertyPage N
  changed_read (answered r) s = record s { latest_properties = some r }
  changed_read (failed e) s = notify_error "adminDevicePropertyLatestFailed" e s

  abbrev pub refresh_tab :
      (String → String) → DevicePropertyTab → DevicePropertyPage N → DevicePropertyPage N
  refresh_tab to_iso history s = load_property_trend to_iso s.device_id true s
  refresh_tab to_iso event_history s = load_event_history s s.device_id silently s
  refresh_tab to_iso property_set_history s = load_property_set_history s s.device_id silently s
  refresh_tab to_iso service_history s = load_service_history s s.device_id silently s
  refresh_tab to_iso latest s = s
  refresh_tab to_iso set s = s
  refresh_tab to_iso services s = s

  unfoldable pub refresh : (String → String) → DevicePropertyPage N → DevicePropertyPage N
  refresh to_iso s =
      let s' = load_selectable_devices s in
      if s.device_id == ""
      then s'
      else refresh_tab to_iso s.active_tab (load_latest_properties s.device_id true s')

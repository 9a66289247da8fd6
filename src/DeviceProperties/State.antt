-- ===== src/DeviceProperties/State.antt =====
-- The state of the page of web/src/pages/Admin/DevicePropertyManagement.tsx. The variables of each
-- of its three histories are one record.
use linkflow_v.Prelude.{ℕ, String, Bool, false, Option, none, List, [], ◌∷◌, find, ◌==◌}
use linkflow_v.Services.Call.{ApiCall}
use linkflow_v.Services.Tenants.{Tenant}
use linkflow_v.Services.Products.{Product, ProductListParams}
use linkflow_v.Services.ThingsModels.{ThingsModel, ThingsModelListParams}
use linkflow_v.Services.Devices.{
  Device, DeviceLatestProperties, DevicePropertyTrend, DeviceEventEntry,
  DevicePropertySetHistoryEntry, DeviceServiceCallHistoryEntry, DeviceServiceCallResult,
  DevicePropertySetResult, DeviceListParams, DeviceEventHistoryParams, DevicePropertyTrendParams,
  DeviceServiceCallHistoryParams, DevicePropertySetHistoryParams, DeviceServiceCallInput,
  DevicePropertySetInput,
}
use linkflow_v.ServiceInput.{ServiceInputParamDraft}

pub data DevicePropertyTab : Type 0 where
  latest history set services property_set_history service_history event_history : DevicePropertyTab

pub data DevicePropertyTrendAggregate : Type 0 where
  avg min max last : DevicePropertyTrendAggregate

-- A range of local times, as the inputs hold them.
pub record TrendRange : Type 0 where
  pub from : String
  pub to : String

pub record History (E : Type 0) : Type 0 where
  pub entries : List E
  pub total : ℕ
  pub page : ℕ
  pub page_size : ℕ
  pub name_filter : String
  pub loading : Bool

abbrev pub empty_history : {E : Type 0} → History E
empty_history = record {
  entries = [];
  total = 0;
  page = 1;
  page_size = 20;
  name_filter = "";
  loading = false;
}

-- A notification, with the key of its message and its description.
pub data PageNotice : Type 0 where
  success error : String → Option String → PageNotice

-- The calls of the services.
pub data Sent (N : Type 0) : Type 0 where
  products_listed : ApiCall ProductListParams → Sent N
  devices_listed : ApiCall DeviceListParams → Sent N
  latest_read : ApiCall (Unit {0}) → Sent N
  trend_read : ApiCall DevicePropertyTrendParams → Sent N
  events_listed : ApiCall DeviceEventHistoryParams → Sent N
  service_calls_listed : ApiCall DeviceServiceCallHistoryParams → Sent N
  property_sets_listed : ApiCall DevicePropertySetHistoryParams → Sent N
  models_listed : ApiCall ThingsModelListParams → Sent N
  properties_set : ApiCall (DevicePropertySetInput N) → Sent N
  service_called : ApiCall (DeviceServiceCallInput N) → Sent N

pub record DevicePropertyPage (N : Type 0) : Type 0 where
  pub tenants : List Tenant
  pub tenant_id : String
  pub products : List Product
  pub product_filter : String
  pub devices : List Device
  pub device_id : String
  pub active_tab : DevicePropertyTab
  pub latest_properties : Option (DeviceLatestProperties N)
  pub loading_latest : Bool
  pub trend : Option (DevicePropertyTrend N)
  pub loading_trend : Bool
  pub trend_properties : List String
  pub trend_range : TrendRange
  pub trend_bucket_seconds : ℕ
  pub trend_aggregate : DevicePropertyTrendAggregate
  pub events : History (DeviceEventEntry N)
  pub property_sets : History (DevicePropertySetHistoryEntry N)
  pub property_set_ack_deadline_seconds : ℕ
  pub service_calls : History (DeviceServiceCallHistoryEntry N)
  pub service_ack_deadline_seconds : ℕ
  pub current_model : Option (ThingsModel N)
  pub loading_services : Bool
  pub service_name : String
  pub service_input_params : List ServiceInputParamDraft
  pub calling_service : Bool
  pub service_call_result : Option (DeviceServiceCallResult N)
  pub property_set_text : String
  pub setting_properties : Bool
  pub property_set_result : Option (DevicePropertySetResult N)
  -- The calls and the notifications, latest first.
  pub sent : List (Sent N)
  pub notified : List PageNotice

module _ {N : Type 0} where
  -- The first render; the range is that of `defaultTrendRange`.
  abbrev pub open_page : TrendRange → DevicePropertyPage N
  open_page default_trend_range = record {
    tenants = [];
    tenant_id = "";
    products = [];
    product_filter = "";
    devices = [];
    device_id = "";
    active_tab = latest;
    latest_properties = none;
    loading_latest = false;
    trend = none;
    loading_trend = false;
    trend_properties = [];
    trend_range = default_trend_range;
    trend_bucket_seconds = 300;
    trend_aggregate = avg;
    events = empty_history;
    property_sets = empty_history;
    property_set_ack_deadline_seconds = 90;
    service_calls = empty_history;
    service_ack_deadline_seconds = 90;
    current_model = none;
    loading_services = false;
    service_name = "";
    service_input_params = [];
    calling_service = false;
    service_call_result = none;
    property_set_text = "{}";
    setting_properties = false;
    property_set_result = none;
    sent = [];
    notified = [];
  }

  abbrev pub selected_device : DevicePropertyPage N → Option Device
  selected_device s = find (λ device. device.id == s.device_id) s.devices

  abbrev pub notify_error : String → Option String → DevicePropertyPage N → DevicePropertyPage N
  notify_error key description s = record s { notified = error key description ∷ s.notified }

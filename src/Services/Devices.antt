-- ===== src/Services/Devices.antt =====
-- Requests about devices: web/src/services/devices.ts.
mod Types
pub use Types.*
use linkflow_v.Prelude.{String}
use linkflow_v.Services.Call.{ApiCall, get, post, put, delete, nothing, as_params, as_data, ◌⧺◌}

unfoldable pub list_devices : DeviceListParams → ApiCall DeviceListParams
list_devices params = record { method = get; url = "/api/v1/devices"; payload = as_params params }

unfoldable pub get_device_latest_properties : String → ApiCall (Unit {0})
get_device_latest_properties device_id = record {
  method = get;
  url = "/api/v1/devices/" ⧺ (device_id ⧺ "/properties/latest");
  payload = nothing;
}

unfoldable pub get_device_property_trend :
    String → DevicePropertyTrendParams → ApiCall DevicePropertyTrendParams
get_device_property_trend device_id params = record {
  method = get;
  url = "/api/v1/devices/" ⧺ (device_id ⧺ "/properties/trend");
  payload = as_params params;
}

unfoldable pub list_device_events :
    String → DeviceEventHistoryParams → ApiCall DeviceEventHistoryParams
list_device_events device_id params = record {
  method = get;
  url = "/api/v1/devices/" ⧺ (device_id ⧺ "/events");
  payload = as_params params;
}

unfoldable pub call_device_service :
    {N : Type 0} → String → String → (DeviceServiceCallInput N) → ApiCall (DeviceServiceCallInput N)
call_device_service device_id service_name body = record {
  method = post;
  url = "/api/v1/devices/" ⧺ (device_id ⧺ ("/services/" ⧺ (service_name ⧺ "/call")));
  payload = as_data body;
}

unfoldable pub set_device_properties :
    {N : Type 0} → String → (DevicePropertySetInput N) → ApiCall (DevicePropertySetInput N)
set_device_properties device_id body = record {
  method = post;
  url = "/api/v1/devices/" ⧺ (device_id ⧺ "/property/set");
  payload = as_data body;
}

unfoldable pub list_device_service_calls :
    String → DeviceServiceCallHistoryParams → ApiCall DeviceServiceCallHistoryParams
list_device_service_calls device_id params = record {
  method = get;
  url = "/api/v1/devices/" ⧺ (device_id ⧺ "/services/history");
  payload = as_params params;
}

unfoldable pub list_device_property_sets :
    String → DevicePropertySetHistoryParams → ApiCall DevicePropertySetHistoryParams
list_device_property_sets device_id params = record {
  method = get;
  url = "/api/v1/devices/" ⧺ (device_id ⧺ "/property/set/history");
  payload = as_params params;
}

unfoldable pub create_device : DeviceCreateInput → ApiCall DeviceCreateInput
create_device body = record { method = post; url = "/api/v1/devices"; payload = as_data body }

unfoldable pub update_device : String → DeviceUpdateInput → ApiCall DeviceUpdateInput
update_device device_id body = record {
  method = put;
  url = "/api/v1/devices/" ⧺ device_id;
  payload = as_data body;
}

unfoldable pub delete_device : String → ApiCall (Unit {0})
delete_device device_id = record {
  method = delete;
  url = "/api/v1/devices/" ⧺ device_id;
  payload = nothing;
}

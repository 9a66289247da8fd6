-- ===== src/DeviceProperties/Readings.antt =====
-- Reading the tenants, products, devices, model, latest properties and trend of
-- web/src/pages/Admin/DevicePropertyManagement.tsx, each cut at its `await`.
use linkflow_v.Prelude.{
  String, Bool, true, false, not, ◌&&◌, ◌||◌, Option, none, some, List, [], ◌∷◌, ◌==◌, any, find,
  if◌then◌else◌,
}
use linkflow_v.Js.Json.{Json}
use linkflow_v.Js.Object.{get}
use linkflow_v.Js.Number.{Numbers}
use linkflow_v.Answers.{Answer, answered, failed}
use linkflow_v.Services.Call.{PageResult}
use linkflow_v.Services.Tenants.{Tenant}
use linkflow_v.Services.Products.{Product, list_products}
use linkflow_v.Services.ThingsModels.{ThingsModel, list_things_models}
use linkflow_v.Services.Devices.{Device, list_devices}
use linkflow_v.DeviceProperties.Definitions.{services_of, default_property_set_text}
use linkflow_v.DeviceProperties.Inputs.{service_entries_of}
use linkflow_v.DeviceProperties.Choose.{default_params}
use linkflow_v.DeviceProperties.State.{
  DevicePropertyPage, products_listed, devices_listed, models_listed, selected_device, notify_error,
}

-- `value?.id || ''` of the first item, and `value || undefined`.
abbrev pub first_device_id : List Device → String
first_device_id [] = ""
first_device_id (device ∷ devices) = device.id

abbrev pub first_tenant_id : List Tenant → String
first_tenant_id [] = ""
first_tenant_id (tenant ∷ tenants) = tenant.id

abbrev pub none_if_empty : String → Option String
none_if_empty s = if s == "" then none else some s

-- The device that stays chosen, or the first one.
abbrev pub kept_device : String → List Device → String
kept_device current devices =
    if not (current == "") && any (λ device. device.id == current) devices
    then current
    else first_device_id devices

abbrev pub kept_product : String → List Product → String
kept_product current products =
    if not (current == "") && any (λ product. product.id == current) products then current else ""

-- `selectedDevice?.product_id || productFilter`.
abbrev pub product_of : Option Device → String → String
product_of none product_filter = product_filter
product_of (some device) product_filter =
    if device.product_id == "" then product_filter else device.product_id

abbrev pub first_name : {N : Type 0} → List (String × Json N) → String
first_name [] = ""
first_name (e ∷ es) = e.0

module _ {N : Type 0} where
  abbrev pub selected_product_id : DevicePropertyPage N → String
  selected_product_id s = product_of (selected_device s) s.product_filter

  unfoldable pub tenants_loaded :
      Bool → Answer (PageResult Tenant) → DevicePropertyPage N → DevicePropertyPage N
  tenants_loaded true a s = s
  tenants_loaded false (answered r) s = record s {
    tenants = r.items;
    tenant_id = if s.tenant_id == "" then first_tenant_id r.items else s.tenant_id;
  }
  tenants_loaded false (failed e) s = notify_error "adminTenantLoadFailed" e s

  unfoldable pub read_products : DevicePropertyPage N → DevicePropertyPage N
  read_products s =
      if s.tenant_id == "" then record s { products = []; product_filter = "" } else record s {
        sent =
            products_listed
              (list_products (record { tenant_id = s.tenant_id; page = 1; page_size = 100 }))
            ∷ s.sent;
      }

  unfoldable pub products_loaded :
      Bool → Answer (PageResult Product) → DevicePropertyPage N → DevicePropertyPage N
  products_loaded true a s = s
  products_loaded false (answered r) s = record s {
    products = r.items;
    product_filter = kept_product s.product_filter r.items;
  }
  products_loaded false (failed e) s = notify_error "adminProductLoadFailed" e s

  unfoldable pub load_selectable_devices : DevicePropertyPage N → DevicePropertyPage N
  load_selectable_devices s =
      if s.tenant_id == "" then record s { devices = []; device_id = "" } else record s {
        sent =
            devices_listed (
              list_devices (record {
                tenant_id = s.tenant_id;
                product_id = none_if_empty s.product_filter;
                page = 1;
                page_size = 100;
              }))
            ∷ s.sent;
      }

  unfoldable pub devices_loaded :
      Bool → Bool → Answer (PageResult Device) → DevicePropertyPage N → DevicePropertyPage N
  devices_loaded silent true a s = s
  devices_loaded silent false (answered r) s = record s {
    devices = r.items;
    device_id = kept_device s.device_id r.items;
  }
  devices_loaded silent false (failed e) s =
      if silent then s else notify_error "adminDeviceLoadFailed" e s

  abbrev pub clear_model : DevicePropertyPage N → DevicePropertyPage N
  clear_model s = record s {
    current_model = none;
    service_name = "";
    service_input_params = [];
    service_call_result = none;
    property_set_text = "{}";
    property_set_result = none;
  }

  unfoldable pub read_model : DevicePropertyPage N → DevicePropertyPage N
  read_model s =
      if s.tenant_id == "" || selected_product_id s == "" then clear_model s else record s {
        loading_services = true;
        sent =
            models_listed (
              list_things_models (record {
                tenant_id = s.tenant_id;
                product_id = some (selected_product_id s);
                page = 1;
                page_size = 100;
              }))
            ∷ s.sent;
      }

  -- The current model, with its first service chosen.
  abbrev pub use_model :
      Numbers N
      → (Json N → String)
      → (String → String)
      → Option (ThingsModel N)
      → DevicePropertyPage N
      → DevicePropertyPage N
  use_model ops stringify new_id next_model s =
      let next_service_name = first_name (service_entries_of next_model) in
      record s {
        current_model = next_model;
        property_set_text = default_property_set_text ops stringify next_model;
        property_set_result = none;
        service_name = next_service_name;
        service_input_params =
            default_params new_id next_service_name
              (get next_service_name (services_of next_model));
        service_call_result = none;
        loading_services = false;
      }

  unfoldable pub model_loaded :
      Numbers N
      → (Json N → String)
      → (String → String)
      → Bool
      → Answer (PageResult (ThingsModel N))
      → DevicePropertyPage N
      → DevicePropertyPage N
  model_loaded ops stringify new_id true a s = s
  model_loaded ops stringify new_id false (answered r) s =
      use_model ops stringify new_id (find (λ model. model.is_current) r.items) s
  model_loaded ops stringify new_id false (failed e) s =
      notify_error "adminThingsModelLoadFailed" e
        (record (clear_model s) { loading_services = false })

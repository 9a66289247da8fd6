-- ===== src/Devices.antt =====
-- The list of devices and its form: web/src/pages/Admin/DeviceManagement.tsx. Each `set` is a
-- change of one field; an asynchronous call has its answer as an argument.
pub mod SecretMap
pub mod Handlers
pub mod Effects
pub mod Live
pub mod Choice
mod Examples
use linkflow_v.Prelude.{
  change_row, ℕ, ◌-◌, String, Bool, true, false, not, ◌&&◌, Option, none, some, List, [], ◌∷◌, map,
  ◌==◌, any, eqb, ltb, length, if◌then◌else◌,
}
pub use linkflow_v.Answers.{
  Answer, answered, failed, Notice, success, error, FormMode, create, edit,
}
use linkflow_v.Js.Text.{trim}
use linkflow_v.Services.Call.{ApiCall, PageResult}
use linkflow_v.Services.Products.{Product}
use linkflow_v.Services.Devices.{
  DeviceStatus, active, Device, DeviceConnectionStatus, DeviceListParams, DeviceCreateInput,
  DeviceUpdateInput, DeviceCreateResult, DeviceDeleteResult, list_devices, create_device,
  update_device, delete_device,
}
use linkflow_v.Devices.SecretMap.{Secrets}

pub record DeviceFormState : Type 0 where
  pub product_id : String
  pub device_slug : String
  pub device_name : String
  pub description : String
  pub status : DeviceStatus
  pub gateway_device_id : String

abbrev pub empty_form : DeviceFormState
empty_form = record {
  product_id = "";
  device_slug = "";
  device_name = "";
  description = "";
  status = active;
  gateway_device_id = "";
}

-- The calls of the services.
pub data Sent : Type 0 where
  listed : ApiCall DeviceListParams → Sent
  created : ApiCall DeviceCreateInput → Sent
  updated : ApiCall DeviceUpdateInput → Sent
  deleted : ApiCall (Unit {0}) → Sent

pub record DevicePage : Type 0 where
  pub tenant_id : String
  pub products : List Product
  pub product_filter : String
  pub devices : List Device
  pub total : ℕ
  pub page : ℕ
  pub page_size : ℕ
  pub loading : Bool
  pub saving : Bool
  pub deleting_id : Option String
  pub form_mode : Option FormMode
  pub editing_device : Option Device
  pub form : DeviceFormState
  pub created_secret : String
  pub device_secrets_by_id : Secrets
  pub secret_dialog_device : Option Device
  -- The calls and the notifications, latest first.
  pub sent : List Sent
  pub notified : List Notice

-- `value ?? ''`.
abbrev pub or_empty : Option String → String
or_empty none = ""
or_empty (some s) = s

abbrev pub first_product_id : List Product → String
first_product_id [] = ""
first_product_id (p ∷ ps) = p.id

abbrev pub has_product : String → List Product → Bool
has_product id products = any (λ product. product.id == id) products

-- `a && b` of a text and a test.
abbrev pub chosen : String → List Product → Bool
chosen id products = not (id == "") && has_product id products

-- What the effect of a tenant does with the answer of `listProducts`.
unfoldable pub products_loaded : Bool → Answer (PageResult Product) → DevicePage → DevicePage
products_loaded true answer s = s
products_loaded false (answered result) s = record s {
  products = result.items;
  product_filter = if chosen s.product_filter result.items then s.product_filter else "";
  form = record (s.form) {
    product_id =
        if chosen s.form.product_id result.items
        then s.form.product_id
        else first_product_id result.items;
  };
}
products_loaded false (failed e) s = record s {
  notified = error "adminProductLoadFailed" e ∷ s.notified;
}

-- The parts of the payloads of the stream that the page reads, and the meta data of the envelope.
pub record ConnectionChange : Type 0 where
  pub device_id : String
  pub status : DeviceConnectionStatus

pub record StreamMeta : Type 0 where
  pub occurred_at : String
  pub meta_tenant_id : String

abbrev pub connection_changed : ConnectionChange → StreamMeta → Device → Device
connection_changed payload meta device = record device {
  connection_status = payload.status;
  last_seen_at = some meta.occurred_at;
  updated_at = meta.occurred_at;
}

abbrev pub device_seen : StreamMeta → Device → Device
device_seen meta device = record device {
  last_seen_at = some meta.occurred_at;
  updated_at = meta.occurred_at;
}

-- `setDevices` of both handlers: the list stays the same object if no device is changed.
abbrev pub change_device : String → (Device → Device) → List Device → List Device
change_device device_id change current =
    if any (λ device. device.id == device_id) current
    then change_row (λ device. device.id) device_id change current
    else current

unfoldable pub on_connection_changed : ConnectionChange → StreamMeta → DevicePage → DevicePage
on_connection_changed payload meta s =
    if not (meta.meta_tenant_id == s.tenant_id) then s else record s {
      devices = change_device payload.device_id (connection_changed payload meta) s.devices;
    }

unfoldable pub on_property_changed : String → StreamMeta → DevicePage → DevicePage
on_property_changed device_id meta s =
    if not (meta.meta_tenant_id == s.tenant_id)
    then s
    else record s { devices = change_device device_id (device_seen meta) s.devices }

unfoldable pub open_create_form : DevicePage → DevicePage
open_create_form s = record s {
  editing_device = none;
  created_secret = "";
  form = record empty_form {
    product_id = if s.product_filter == "" then first_product_id s.products else s.product_filter;
  };
  form_mode = some create;
}

unfoldable pub to_form_state : Device → DeviceFormState
to_form_state device = record {
  product_id = device.product_id;
  device_slug = device.device_slug;
  device_name = device.device_name;
  description = device.description;
  status = device.status;
  gateway_device_id = or_empty device.gateway_device_id;
}

unfoldable pub open_edit_form : Device → DevicePage → DevicePage
unfolding to_form_state
open_edit_form device s = record s {
  editing_device = some device;
  created_secret = "";
  form = to_form_state device;
  form_mode = some edit;
}

unfoldable pub close_form : DevicePage → DevicePage
close_form s = record s { form_mode = none; editing_device = none; form = empty_form }

unfoldable pub handle_tenant_change : String → DevicePage → DevicePage
unfolding close_form
handle_tenant_change next_tenant_id s =
    close_form (record s { tenant_id = next_tenant_id; product_filter = ""; page = 1 })

unfoldable pub handle_product_filter_change : String → DevicePage → DevicePage
handle_product_filter_change next_product_id s = record s {
  product_filter = next_product_id;
  page = 1;
}

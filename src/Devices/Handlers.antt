-- ===== src/Devices/Handlers.antt =====
-- Loading, saving and deleting in web/src/pages/Admin/DeviceManagement.tsx, with the answers of the
-- services as arguments.
use linkflow_v.Prelude.{
  ℕ, ◌-◌, String, Bool, true, false, not, ◌&&◌, Option, none, some, [], ◌∷◌, ◌==◌, eqb, ltb, length,
  if◌then◌else◌,
}
use linkflow_v.Js.Text.{trim}
use linkflow_v.Services.Call.{PageResult}
use linkflow_v.Services.Devices.{
  Device, DeviceListParams, DeviceCreateInput, DeviceUpdateInput, DeviceCreateResult,
  DeviceDeleteResult, list_devices, create_device, update_device, delete_device,
}
use linkflow_v.Devices.SecretMap.{Secrets, put_secret, delete_secret}
use linkflow_v.Devices.{
  FormMode, create, edit, Answer, answered, failed, success, error, listed, created, updated,
  deleted, DevicePage, or_empty, close_form,
}

abbrev pub none_if_empty : String → Option String
none_if_empty a = if a == "" then none else some a

abbrev pub list_params : ℕ → ℕ → DevicePage → DeviceListParams
list_params next_page next_page_size s = record {
  tenant_id = s.tenant_id;
  product_id = none_if_empty s.product_filter;
  page = next_page;
  page_size = next_page_size;
}

-- The `finally` of `loadDevices`.
abbrev pub loaded : Bool → DevicePage → DevicePage
loaded silent s = if silent then s else record s { loading = false }

-- `loadDevices` before its `await`, where a tenant is chosen, and after it.
abbrev pub devices_asked : ℕ → ℕ → Bool → DevicePage → DevicePage
devices_asked next_page next_page_size silent s = record s {
  loading = if silent then s.loading else true;
  sent = listed (list_devices (list_params next_page next_page_size s)) ∷ s.sent;
}

abbrev pub devices_answered : Answer (PageResult Device) → Bool → DevicePage → DevicePage
devices_answered (answered result) silent s = loaded silent (record s {
  devices = result.items;
  total = result.total;
  page = result.page;
  page_size = result.page_size;
})
devices_answered (failed e) silent s =
    loaded silent (record s { notified = error "adminDeviceLoadFailed" e ∷ s.notified })

-- A reading that is answered before anything else happens.
unfoldable pub load_devices : Answer (PageResult Device) → ℕ → ℕ → Bool → DevicePage → DevicePage
load_devices answer next_page next_page_size silent s =
    if s.tenant_id == ""
    then record s { devices = []; total = 0 }
    else devices_answered answer silent (devices_asked next_page next_page_size silent s)

abbrev pub create_input : DevicePage → DeviceCreateInput
create_input s = record {
  tenant_id = s.tenant_id;
  product_id = s.form.product_id;
  device_slug = trim s.form.device_slug;
  device_name = trim s.form.device_name;
  description = trim s.form.description;
  gateway_device_id = trim s.form.gateway_device_id;
}

abbrev pub update_input : DevicePage → DeviceUpdateInput
update_input s = record {
  device_name = trim s.form.device_name;
  description = trim s.form.description;
  status = s.form.status;
  gateway_device_id = trim s.form.gateway_device_id;
}

-- The secret of a new device is kept if it is there and not empty.
abbrev pub keep_secret : String → Option String → Secrets → Secrets
keep_secret id none secrets = secrets
keep_secret id (some secret) secrets =
    if secret == "" then secrets else put_secret id secret secrets

abbrev pub save_failed : Option FormMode → String
save_failed (some create) = "adminDeviceCreateFailed"
save_failed (some edit) = "adminDeviceUpdateFailed"
save_failed none = "adminDeviceUpdateFailed"

abbrev pub report : Option String → DevicePage → DevicePage
report e s = record s { notified = error (save_failed s.form_mode) e ∷ s.notified; saving = false }

abbrev pub finish : DevicePage → DevicePage
finish s = record s { saving = false }

-- After a creation the form keeps the product, the status and the gateway.
abbrev pub clear_names : DevicePage → DevicePage
clear_names s = record s {
  form = record (s.form) { device_slug = ""; device_name = ""; description = "" };
}

abbrev pub close_dialog : String → Option Device → Option Device
close_dialog id none = none
close_dialog id (some device) = if device.id == id then none else some device

-- The page after the answer to a deletion.
abbrev pub device_deleted : Device → DevicePage → DevicePage
device_deleted device s = record s {
  sent = deleted (delete_device device.id) ∷ s.sent;
  notified = success "adminDeviceDeleteSuccess" ∷ s.notified;
  device_secrets_by_id = delete_secret device.id s.device_secrets_by_id;
  secret_dialog_device = close_dialog device.id s.secret_dialog_device;
}

module _ (list : Answer (PageResult Device)) where
  abbrev pub submit_create : Answer DeviceCreateResult → DevicePage → DevicePage
  submit_create answer s =
      let s' = record s { sent = created (create_device (create_input s)) ∷ s.sent } in
      elim answer [
        | failed e ↦ report e s'
        | answered result ↦ finish (
            clear_names (
              load_devices list 1 s.page_size false (record s' {
                notified = success "adminDeviceCreateSuccess" ∷ s.notified;
                created_secret = or_empty result.device_secret;
                device_secrets_by_id =
                    keep_secret result.device.id result.device_secret s.device_secrets_by_id;
                page = 1;
              })))
      ]

  abbrev pub submit_update : Answer Device → Device → DevicePage → DevicePage
  submit_update answer device s =
      let s' = record s { sent = updated (update_device device.id (update_input s)) ∷ s.sent } in
      elim answer [
        | failed e ↦ report e s'
        | answered result ↦ finish (
            load_devices list s.page s.page_size false (
              close_form
                (record s' { notified = success "adminDeviceUpdateSuccess" ∷ s.notified })))
      ]

  abbrev pub submit_nothing : DevicePage → DevicePage
  submit_nothing s = finish (load_devices list s.page s.page_size false s)

  abbrev pub submit :
      Answer DeviceCreateResult
      → Answer Device
      → Option FormMode
      → Option Device
      → DevicePage
      → DevicePage
  submit made kept (some create) device s = submit_create made s
  submit made kept (some edit) (some device) s = submit_update kept device s
  submit made kept (some edit) none s = submit_nothing s
  submit made kept none device s = submit_nothing s

  unfoldable pub handle_submit : Answer DeviceCreateResult → Answer Device → DevicePage → DevicePage
  handle_submit made kept s =
      if s.tenant_id == "" then s else submit made kept s.form_mode s.editing_device s

  -- The page before, if the only device of a page is deleted; else the list is read again.
  abbrev pub after_delete : DevicePage → DevicePage
  after_delete s =
      if eqb (length s.devices) 1 && ltb 1 s.page
      then record s { page = s.page - 1 }
      else load_devices list s.page s.page_size false s

  unfoldable pub handle_delete : Bool → Answer DeviceDeleteResult → Device → DevicePage → DevicePage
  handle_delete confirmed answer device s =
      let s' = record s { sent = deleted (delete_device device.id) ∷ s.sent } in
      if not confirmed then s else elim answer [
        | answered result ↦ record (after_delete (device_deleted device s)) { deleting_id = none }
        | failed e ↦ record s' {
          notified = error "adminDeviceDeleteFailed" e ∷ s.notified;
          deleting_id = none;
        }
      ]

-- ===== src/Devices/Examples.antt =====
-- Runs of the device list of web/src/pages/Admin/DeviceManagement.tsx.
use linkflow_v.Prelude.{
  true, false, none, some, [], ◌∷◌, ◌==◌, ◌≡◌, ◌≢◌, refl, arith, eq_iff, if◌then◌else◌,
}
use linkflow_v.Services.Call.{PageResult}
use linkflow_v.Services.Products.{Product, ProductStatus, direct, secret, mqtt}
use linkflow_v.Services.Devices.{
  Device, active, online, offline, DeviceCreateResult, DeviceDeleteResult,
}
use linkflow_v.Devices.SecretMap.{secret_of, put_secret}
use linkflow_v.Devices.{
  answered, failed, DevicePage, ConnectionChange, StreamMeta, empty_form, on_connection_changed,
  products_loaded, open_create_form,
}
use linkflow_v.Devices.Handlers.{load_devices, handle_submit}
use linkflow_v.Devices.Effects.{read_devices, devices_read, devices_read-read_devices}
use linkflow_v.Devices.Live.{device_at, device_at-on_connection_changed}
use linkflow_v.Devices.Choice.{is_choice, products_loaded-is_choice, handle_submit-secret_of}

abbrev device : Device
device = record {
  id = "d1";
  tenant_id = "t1";
  product_id = "p1";
  device_slug = "pump";
  device_name = "Pump";
  description = "";
  status = active;
  connection_status = offline;
  gateway_device_id = none;
  firmware_version = none;
  ip_address = none;
  last_seen_at = none;
  created_at = "2026-01-01";
  updated_at = "2026-01-01";
}

abbrev page : DevicePage
page = record {
  tenant_id = "t1";
  products = [];
  product_filter = "old";
  devices = device ∷ [];
  total = 1;
  page = 1;
  page_size = 10;
  loading = false;
  saving = false;
  deleting_id = none;
  form_mode = none;
  editing_device = none;
  form = empty_form;
  created_secret = "";
  device_secrets_by_id = [];
  secret_dialog_device = none;
  sent = [];
  notified = [];
}

abbrev goes_online : ConnectionChange
goes_online = record { device_id = "d1"; status = online }

abbrev meta : StreamMeta
meta = record { occurred_at = "2026-02-01"; meta_tenant_id = "t1" }

device_at-on_connection_changed_example :
    device_at "d1" (on_connection_changed goes_online meta page).devices
    ≡ some (record device {
      connection_status = online;
      last_seen_at = some meta.occurred_at;
      updated_at = meta.occurred_at;
    })
device_at-on_connection_changed_example = device_at-on_connection_changed "d1" goes_online meta page

abbrev product : Product
product = record {
  id = "p1";
  tenant_id = "t1";
  product_key = "pumps";
  product_name = "Pumps";
  description = "";
  node_type = direct;
  auth_type = secret;
  protocol_type = mqtt;
  status = ProductStatus.active;
  created_at = "2026-01-01";
  updated_at = "2026-01-01";
}

abbrev products : PageResult Product
products = record { items = product ∷ []; total = 1; page = 1; page_size = 100 }

products_loaded-is_choice_example :
    (is_choice (products_loaded false (answered products) page).product_filter (product ∷ [])
      ≡ true)
    × (is_choice (products_loaded false (answered products) page).form.product_id (product ∷ [])
        ≡ true)
products_loaded-is_choice_example = products_loaded-is_choice products page

abbrev creating : DevicePage
creating = open_create_form page

abbrev new_device : DeviceCreateResult
new_device = record { device = device; device_secret = some "s3cret" }

creating-tenant : creating.tenant_id ≢ ""
unfolding open_create_form
creating-tenant = ground (arith, eq_iff "t1" "")

handle_submit-secret_of_example :
    secret_of "d1"
      (handle_submit
        (failed none)
        (answered new_device)
        (failed none)
        creating).device_secrets_by_id
    ≡ (if "d1" == "d1" then some "s3cret" else secret_of "d1" creating.device_secrets_by_id)
unfolding open_create_form
handle_submit-secret_of_example =
    handle_submit-secret_of (failed none) new_device (failed none) "s3cret" "d1" creating
      creating-tenant refl refl (ground (arith, eq_iff "s3cret" ""))

-- A device with a secret that its dialog and the form show.
abbrev with_secret : DevicePage
with_secret = record page {
  created_secret = "s3cret";
  device_secrets_by_id = put_secret "d1" "s3cret" [];
  secret_dialog_device = some device;
}

abbrev done : DeviceDeleteResult
done = record { deleted = true }

devices_read-read_devices_example :
    devices_read false (failed (some "gone")) (read_devices page)
    ≡ load_devices (failed (some "gone")) 1 10 false page
devices_read-read_devices_example =
    devices_read-read_devices (failed (some "gone")) page (ground (arith, eq_iff "t1" ""))

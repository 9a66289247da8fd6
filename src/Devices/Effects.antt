-- ===== src/Devices/Effects.antt =====
-- The effects of web/src/pages/Admin/DeviceManagement.tsx that read the tenants, the products and the
-- devices, each up to its `await` and after it, and the reading while the stream is down.
use linkflow_v.Prelude.{
  ℕ, String, Bool, true, false, not, ◌&&◌, List, [], ◌∷◌, ◌==◌, ◌≡◌, ◌≢◌, refl, arith, eq_iff,
  if◌then◌else◌,
}
use linkflow_v.Services.Call.{PageResult}
use linkflow_v.Services.Tenants.{Tenant}
use linkflow_v.Services.Devices.{Device, list_devices}
use linkflow_v.Realtime.{DeviceRealtimeStatus, idle, connecting, opened, reconnecting, closed}
use linkflow_v.Devices.{Answer, answered, failed, error, listed, DevicePage}
use linkflow_v.Devices.Handlers.{list_params, load_devices}

-- `current || result.items[0]?.id || ''`.
abbrev pub first_tenant_id : List Tenant → String
first_tenant_id [] = ""
first_tenant_id (tenant ∷ tenants) = tenant.id

unfoldable pub tenants_loaded : Bool → Answer (PageResult Tenant) → DevicePage → DevicePage
tenants_loaded true a s = s
tenants_loaded false (answered r) s = record s {
  tenant_id = if s.tenant_id == "" then first_tenant_id r.items else s.tenant_id;
}
tenants_loaded false (failed e) s = record s {
  notified = error "adminTenantLoadFailed" e ∷ s.notified;
}

-- Without a tenant there are no products and no devices.
unfoldable pub clear_products : DevicePage → DevicePage
clear_products s = if s.tenant_id == "" then record s { products = []; product_filter = "" } else s

unfoldable pub read_devices : DevicePage → DevicePage
read_devices s = if s.tenant_id == "" then record s { devices = []; total = 0 } else record s {
  loading = true;
  sent = listed (list_devices (list_params s.page s.page_size s)) ∷ s.sent;
}

unfoldable pub devices_read : Bool → Answer (PageResult Device) → DevicePage → DevicePage
devices_read true a s = s
devices_read false (answered r) s = record s {
  devices = r.items;
  total = r.total;
  page = r.page;
  page_size = r.page_size;
  loading = false;
}
devices_read false (failed e) s = record s {
  notified = error "adminDeviceLoadFailed" e ∷ s.notified;
  loading = false;
}

-- Whether the timer runs that reads the devices silently.
abbrev pub is_realtime_fallback_status : DeviceRealtimeStatus → Bool
is_realtime_fallback_status reconnecting = true
is_realtime_fallback_status closed = true
is_realtime_fallback_status idle = false
is_realtime_fallback_status connecting = false
is_realtime_fallback_status opened = false

abbrev pub realtime_fallback_refresh_ms : ℕ
realtime_fallback_refresh_ms = 10000

abbrev pub is_refreshing : DeviceRealtimeStatus → DevicePage → Bool
is_refreshing status s = not (s.tenant_id == "") && is_realtime_fallback_status status

-- With a tenant, the effect reads the list as `loadDevices` does, for the page and the size of the
-- page and with the sign that it loads: after the answer, or the failure, of a run that is not cancelled
-- the state is the same.
pub devices_read-read_devices :
    (a : Answer (PageResult Device)) (s : DevicePage)
    → s.tenant_id ≢ ""
    → devices_read false a (read_devices s) ≡ load_devices a s.page s.page_size false s
unfolding devices_read read_devices load_devices
devices_read-read_devices (answered r) s h =
    let n : (s.tenant_id == "") ≡ false = ground (arith, eq_iff s.tenant_id "") in rw n refl
devices_read-read_devices (failed e) s h =
    let n : (s.tenant_id == "") ≡ false = ground (arith, eq_iff s.tenant_id "") in rw n refl

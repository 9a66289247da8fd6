-- ===== src/Devices/Live.antt =====
-- What events of the stream change in the list of web/src/pages/Admin/DeviceManagement.tsx.
use linkflow_v.Prelude.{
  row_at, row_at-any, change_found, change_found-false, row_at-change_row, String, ◌&&◌, Option,
  none, some, List, ◌==◌, ◌≡◌, refl, eq_iff, any, Bool-cases, inl, inr,
}
use linkflow_v.Services.Devices.{Device}
use linkflow_v.Devices.{
  ConnectionChange, StreamMeta, DevicePage, connection_changed, device_seen, change_device,
  on_connection_changed, on_property_changed,
}

-- The device of a list with an id.
abbrev pub device_at : String → List Device → Option Device
device_at id devices = row_at (λ device. device.id) id devices

device_at-change_device :
    (device_id id : String) (change : Device → Device) (devices : List Device)
    → ((device : Device) → (change device).id ≡ device.id)
    → device_at id (change_device device_id change devices)
      ≡ change_found (id == device_id) change (device_at id devices)
device_at-change_device device_id id change devices h =
    elim (Bool-cases (any (λ device. device.id == device_id) devices)) [
      | inl some_device ↦
          rw some_device (row_at-change_row (λ device. device.id) device_id id change devices h)
      | inr no_device ↦ rw no_device (elim (Bool-cases (id == device_id)) [
        | inl same ↦
            let none_here : device_at id devices ≡ none =
              rw ((eq_iff id device_id).0 same)
                (row_at-any (λ device. device.id) device_id devices no_device) in
            rw none_here refl
        | inr other ↦ rw (other, change_found-false change (device_at id devices)) refl
      ])
    ]

-- A connection event of the tenant gives the device of its payload, if it is in the list, the status
-- of the payload and the time of the event, both as the time at which it was seen last and as that
-- of its update, and leaves its other fields and every other device; an event of another tenant
-- leaves all devices.
pub device_at-on_connection_changed :
    (id : String) (payload : ConnectionChange) (meta : StreamMeta) (s : DevicePage)
    → device_at id (on_connection_changed payload meta s).devices
      ≡ change_found
          (meta.meta_tenant_id == s.tenant_id && id == payload.device_id)
          (λ device. record {
            id = device.id;
            tenant_id = device.tenant_id;
            product_id = device.product_id;
            device_slug = device.device_slug;
            device_name = device.device_name;
            description = device.description;
            status = device.status;
            connection_status = payload.status;
            gateway_device_id = device.gateway_device_id;
            firmware_version = device.firmware_version;
            ip_address = device.ip_address;
            last_seen_at = some meta.occurred_at;
            created_at = device.created_at;
            updated_at = meta.occurred_at;
          })
          (device_at id s.devices)
unfolding on_connection_changed
device_at-on_connection_changed id payload meta s =
    elim (Bool-cases (meta.meta_tenant_id == s.tenant_id)) [
      | inl own ↦ rw own (
          device_at-change_device payload.device_id id (connection_changed payload meta) s.devices
            (λ device. refl))
      | inr foreign ↦
          rw
            (foreign, change_found-false (connection_changed payload meta) (device_at id s.devices))
            refl
    ]

-- A property event of the tenant gives its device the time at which it was seen, and leaves every
-- other device; an event of another tenant leaves all.
pub device_at-on_property_changed :
    (id device_id : String) (meta : StreamMeta) (s : DevicePage)
    → device_at id (on_property_changed device_id meta s).devices
      ≡ change_found
          (meta.meta_tenant_id == s.tenant_id && id == device_id)
          (device_seen meta)
          (device_at id s.devices)
unfolding on_property_changed
device_at-on_property_changed id device_id meta s =
    elim (Bool-cases (meta.meta_tenant_id == s.tenant_id)) [
      | inl own ↦
          rw own
            (device_at-change_device device_id id (device_seen meta) s.devices (λ device. refl))
      | inr foreign ↦
          rw (foreign, change_found-false (device_seen meta) (device_at id s.devices)) refl
    ]

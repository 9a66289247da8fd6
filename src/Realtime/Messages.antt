-- ===== src/Realtime/Messages.antt =====
-- The messages of the stream: `handleMessage` of web/src/hooks/useDevicesRealtime.ts. A property
-- that the message lacks is `none`.
use linkflow_v.Prelude.{String, Bool, Option, some, ◌==◌, if◌then◌else◌}
use linkflow_v.Js.Json.{Json, str, obj, Fields}
use linkflow_v.Js.Object.{get}

-- The second argument of a callback.
pub record EnvelopeMeta (N : Type 0) : Type 0 where
  pub event_id : Option (Json N)
  pub occurred_at : Option (Json N)
  pub tenant_id : Option (Json N)

-- The callbacks that the user of the hook gave.
pub record Handlers : Type 0 where
  pub on_connection_changed : Bool
  pub on_property_changed : Bool
  pub on_event_received : Bool

-- What a message leads to: one callback, with the payload as it came, or nothing.
pub data Call (N : Type 0) : Type 0 where
  nothing : Call N
  connection_changed property_changed event_received : Option (Json N) → EnvelopeMeta N → Call N

module _ {N : Type 0} where
  abbrev pub meta_of : Fields N → EnvelopeMeta N
  meta_of envelope = record {
    event_id = get "event_id" envelope;
    occurred_at = get "occurred_at" envelope;
    tenant_id = get "tenant_id" envelope;
  }

  unfoldable pub dispatch : Handlers → String → Option (Json N) → EnvelopeMeta N → Call N
  dispatch handlers event_type payload meta =
      if event_type == "device.connection.changed"
      then (if handlers.on_connection_changed then connection_changed payload meta else nothing)
      else if event_type == "device.property.changed"
      then (if handlers.on_property_changed then property_changed payload meta else nothing)
      else if event_type == "device.event.received"
      then (if handlers.on_event_received then event_received payload meta else nothing)
      else nothing

  abbrev pub dispatch_envelope : Handlers → Fields N → Option (Json N) → Call N
  dispatch_envelope handlers envelope (some (str event_type)) =
      dispatch handlers event_type (get "payload" envelope) (meta_of envelope)
  dispatch_envelope handlers envelope event_type = nothing

  -- `parse` is `JSON.parse`, `none` where it throws.
  unfoldable pub handle_message : (String → Option (Json N)) → Handlers → String → Call N
  unfolding dispatch
  handle_message parse handlers raw = elim (parse raw) [
    | some (obj envelope) ↦ dispatch_envelope handlers envelope (get "event_type" envelope)
    | _ ↦ nothing
  ]

-- ===== src/Realtime/Dispatch.antt =====
-- Which message leads to which callback: `handleMessage` of web/src/hooks/useDevicesRealtime.ts.
use linkflow_v.Prelude.{String, true, Option, none, some, ◌≡◌, ◌↔◌, refl, arith, eq_iff}
use linkflow_v.Js.Json.{Json, str, obj, Fields}
use linkflow_v.Js.Object.{get}
use linkflow_v.Realtime.Messages.{
  EnvelopeMeta, Handlers, event_received, meta_of, dispatch, dispatch_envelope, handle_message,
}

module _ {N : Type 0} where
  dispatch-eq-event_received :
      (handlers : Handlers) (event_type : String) (payload p : Option (Json N))
      (meta m : EnvelopeMeta N)
      → dispatch handlers event_type payload meta ≡ event_received p m
      → (event_type ≡ "device.event.received")
        × (handlers.on_event_received ≡ true)
        × (payload ≡ p)
        × (meta ≡ m)
  unfolding dispatch
  dispatch-eq-event_received handlers event_type payload p meta m h = ground (
    arith,
    eq_iff event_type "device.connection.changed",
    eq_iff event_type "device.property.changed",
    eq_iff event_type "device.event.received",
  )

  -- What the message says when that callback is called.
  abbrev pub IsEvent :
      (String → Option (Json N)) → Handlers → String → Option (Json N) → EnvelopeMeta N → Type 0
  IsEvent parse handlers raw p m =
      (envelope : Fields N) × (parse raw ≡ some (obj envelope))
      × (get "event_type" envelope ≡ some (str "device.event.received"))
      × (handlers.on_event_received ≡ true)
      × (get "payload" envelope ≡ p)
      × (meta_of envelope ≡ m)

  of_envelope :
      (handlers : Handlers) (envelope : Fields N) (t : Option (Json N)) (p : Option (Json N))
      (m : EnvelopeMeta N)
      → dispatch_envelope handlers envelope t ≡ event_received p m
      → (t ≡ some (str "device.event.received"))
        × (handlers.on_event_received ≡ true)
        × (get "payload" envelope ≡ p)
        × (meta_of envelope ≡ m)
  of_envelope handlers envelope none p m h = cc
  of_envelope handlers envelope (some (str s)) p m h =
      let (e, c, e1, e2) =
        dispatch-eq-event_received handlers s (get "payload" envelope) p (meta_of envelope) m h in
      (rw e refl, c, e1, e2)
  of_envelope handlers envelope (some _) p m h = cc

  of_parsed :
      (parse : String → Option (Json N)) (handlers : Handlers) (raw : String) (v : Option (Json N))
      (p : Option (Json N)) (m : EnvelopeMeta N)
      → parse raw ≡ v
      → handle_message parse handlers raw ≡ event_received p m
      → IsEvent parse handlers raw p m
  unfolding handle_message
  of_parsed parse handlers raw none p m e h = let h' = (rw (e, handle_message) at h) in cc
  of_parsed parse handlers raw (some (obj o)) p m e h =
      let (t, c, e1, e2) =
        of_envelope handlers o (get "event_type" o) p m (rw (e, handle_message) at h) in
      (o, e, t, c, e1, e2)
  of_parsed parse handlers raw (some _) p m e h = let h' = (rw (e, handle_message) at h) in cc

  -- The callback for device events is called exactly if the message parses to an object whose type
  -- is that of device events and the callback is given; it gets the payload and the meta data of
  -- this object.
  pub handle_message-eq-event_received_iff :
      (parse : String → Option (Json N)) (handlers : Handlers) (raw : String) (p : Option (Json N))
      (m : EnvelopeMeta N)
      → (handle_message parse handlers raw ≡ event_received p m) ↔ IsEvent parse handlers raw p m
  unfolding handle_message dispatch
  handle_message-eq-event_received_iff parse handlers raw p m = (
    of_parsed parse handlers raw (parse raw) p m refl,
    λ (envelope, e, t, c, e1, e2). rw (e, handle_message) (rw t (rw (c, e1, e2) refl)),
  )

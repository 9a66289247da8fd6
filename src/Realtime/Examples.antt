-- ===== src/Realtime/Examples.antt =====
-- Runs of the connection of web/src/hooks/useDevicesRealtime.ts.
use linkflow_v.Prelude.{
  String, Option, none, ◌↔◌, ◌==◌, if◌then◌else◌, ℕ, ◌≡◌, refl, arith, true, false, some, [], ◌∷◌,
  length,
}
use linkflow_v.Realtime.{
  Location, Connection, idle, build_endpoint, connect, schedule_reconnect, on_close, cleanup,
  unmount, initial, start,
}
use linkflow_v.Js.Json.{Json, str, obj, end, field}
use linkflow_v.Js.Object.{get}
use linkflow_v.Js.Samples.{Small}
use linkflow_v.Realtime.Messages.{EnvelopeMeta, Handlers, event_received, dispatch, handle_message}
use linkflow_v.Realtime.Dispatch.{IsEvent, handle_message-eq-event_received_iff}
use linkflow_v.Realtime.Events.{Step, closes, unmounts, Reach, starts, steps}
use linkflow_v.Realtime.Phases.{Phase, IsConnected, Reach-Phase, Reach-cancelled}
use linkflow_v.Realtime.Backoff.{next_delay, lose, retries, delay_after, start-delay}

abbrev page : Location
page = record { protocol = "http:"; hostname = "localhost"; host = "localhost:8000"; port = "8000" }

endpoint : build_endpoint (some page) ≡ "ws://localhost:18080/api/v1/ws/devices"
unfolding build_endpoint
endpoint = refl

abbrev started : Connection
started = start true (some page) false

closed_and_unmounted : Reach (unmount (on_close 0 1006 started))
unfolding start connect initial build_endpoint on_close schedule_reconnect
closed_and_unmounted = steps (steps (starts true page false) (closes 0 1006 refl)) (unmounts refl)

Reach-Phase_example : Phase (unmount (on_close 0 1006 started))
Reach-Phase_example = Reach-Phase closed_and_unmounted

Reach-cancelled_example :
    ((unmount (on_close 0 1006 started)).status ≡ idle)
    × (¬ Step (unmount (on_close 0 1006 started)) started)
unfolding unmount cleanup
Reach-cancelled_example = Reach-cancelled started closed_and_unmounted refl

start-delay_example :
    next_delay (lose 1006 (retries page (1006 ∷ 1001 ∷ []) started)).timers
    ≡ delay_after (length {A = ℕ} (1006 ∷ 1001 ∷ []))
start-delay_example = start-delay page (1006 ∷ 1001 ∷ []) 1006 (omega arith) (omega arith)

started-IsConnected : IsConnected 0 started
unfolding start connect initial build_endpoint
started-IsConnected = ground arith

-- A parser that knows one text.
abbrev parse : String → Option (Json Small)
parse s =
    if s == "m"
    then some (
        obj (
          field "event_id" (str "e1")
            (field "event_type" (str "device.event.received") (field "payload" (str "hot") end))))
    else none

abbrev handlers : Handlers
handlers = record {
  on_connection_changed = false;
  on_property_changed = false;
  on_event_received = true;
}

abbrev event_meta : EnvelopeMeta Small
event_meta = record { event_id = some (str "e1"); occurred_at = none; tenant_id = none }

received : handle_message parse handlers "m" ≡ event_received (some (str "hot")) event_meta
unfolding handle_message dispatch get
received = refl

handle_message-eq-event_received_iff_example :
    (handle_message parse handlers "m" ≡ event_received (some (str "hot")) event_meta)
    ↔ IsEvent parse handlers "m" (some (str "hot")) event_meta
handle_message-eq-event_received_iff_example =
    handle_message-eq-event_received_iff parse handlers "m" (some (str "hot")) event_meta

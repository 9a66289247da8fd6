-- ===== src/Stores/EventInbox/Examples.antt =====
-- Runs of the inbox of web/src/stores/eventInboxStore.ts.
use linkflow_v.Prelude.{
  ℕ, ◌+◌, ◌≡◌, refl, String, List, [], ◌∷◌, map, if◌then◌else◌, any, ◌==◌, ◌&&◌, not, take,
}
use linkflow_v.Js.Json.{end}
use linkflow_v.Stores.EventInbox.{initial, max_inbox_items, mark_read, push_event, count_from}
use linkflow_v.Stores.EventInbox.Invariant.{IsValid}
use linkflow_v.Stores.EventInbox.Traces.{
  Delivery, Op, push, read_one, run, apply, inbox_of, item_of, run-IsValid, inbox_of-items,
  mark_read-unread_count,
}

abbrev delivery : String → Delivery ℕ
delivery id = record {
  now = "2026-01-01T00:00:01.000Z";
  payload = record {
    tenant_id = "t";
    product_id = "p";
    device_id = "d";
    tenant_slug = "acme";
    product_key = "pump";
    device_slug = "pump-1";
    event_name = "low_battery";
    params = end;
  };
  meta = record { event_id = id; occurred_at = "2026-01-01T00:00:00Z" };
}

abbrev session : List (Op ℕ)
session =
    push (delivery "a")
    ∷ push (delivery "b")
    ∷ push (delivery "a")
    ∷ read_one "a"
    ∷ push (delivery "c")
    ∷ []

session_counts : (run session initial).unread_count ≡ 2
unfolding run apply push_event count_from mark_read initial
session_counts = refl

run-IsValid_example : IsValid (run session initial)
run-IsValid_example = run-IsValid session

inbox_of-items_example :
    (inbox_of (delivery "b" ∷ delivery "a" ∷ [])).items
    ≡ take max_inbox_items (map item_of (delivery "b" ∷ delivery "a" ∷ []))
inbox_of-items_example = inbox_of-items (delivery "b" ∷ delivery "a" ∷ []) (refl, (refl, tt))

mark_read-unread_count_example :
    (mark_read "b" (run session initial)).unread_count
      + (if any (λ item. item.event_id == "b" && not item.read) (run session initial).items
          then 1
          else 0)
    ≡ (run session initial).unread_count
mark_read-unread_count_example =
    mark_read-unread_count "b" (run session initial) (run-IsValid session)

-- ===== src/Stores/EventInbox.antt =====
-- The event inbox: web/src/stores/eventInboxStore.ts. A `set` call is a function from the state to
-- the next state; the time of receipt, read from the clock, is an argument.
pub mod Invariant
pub mod Traces
mod Examples
use linkflow_v.Prelude.{
  ℕ, ◌+◌, String, Bool, true, false, List, [], ◌∷◌, map, ◌==◌, any, take, if◌then◌else◌,
}
use linkflow_v.Js.Json.{Fields}

pub record DeviceEventReceivedPayload (N : Type 0) : Type 0 where
  pub tenant_id : String
  pub product_id : String
  pub device_id : String
  pub tenant_slug : String
  pub product_key : String
  pub device_slug : String
  pub event_name : String
  pub params : Fields N

pub record EventMeta : Type 0 where
  pub event_id : String
  pub occurred_at : String

pub record EventInboxItem (N : Type 0) : Type 0 where
  pub payload : DeviceEventReceivedPayload N
  pub open payload use *
  pub event_id : String
  pub occurred_at : String
  pub received_at : String
  pub read : Bool

pub record EventInboxState (N : Type 0) : Type 0 where
  pub items : List (EventInboxItem N)
  pub unread_count : ℕ

abbrev pub max_inbox_items : ℕ
max_inbox_items = 20

module _ {N : Type 0} where
  -- The sum of `reduce`, from the left, from 0.
  count_from : ℕ → List (EventInboxItem N) → ℕ
  count_from total [] = total
  count_from total (item ∷ items) = count_from (total + (if item.read then 0 else 1)) items

  pub count_unread : List (EventInboxItem N) → ℕ
  unfolding count_from
  count_unread items = count_from 0 items

  unfoldable pub initial : EventInboxState N
  initial = record { items = []; unread_count = 0 }

  abbrev pub has_event : String → List (EventInboxItem N) → Bool
  has_event id items = any (λ item. item.event_id == id) items

  -- The item that `pushEvent` adds.
  abbrev pub new_item : String → DeviceEventReceivedPayload N → EventMeta → EventInboxItem N
  new_item now payload meta = record {
    payload = payload;
    event_id = meta.event_id;
    occurred_at = meta.occurred_at;
    received_at = now;
    read = false;
  }

  unfoldable pub push_event :
      String → DeviceEventReceivedPayload N → EventMeta → EventInboxState N → EventInboxState N
  unfolding count_unread
  push_event now payload meta state =
      if has_event meta.event_id state.items
      then state
      else (let items = take max_inbox_items (new_item now payload meta ∷ state.items) in
          record { items = items; unread_count = count_unread items })

  abbrev pub as_read : EventInboxItem N → EventInboxItem N
  as_read item = if item.read then item else record item { read = true }

  unfoldable pub mark_all_read : EventInboxState N → EventInboxState N
  mark_all_read state = record { items = map as_read state.items; unread_count = 0 }

  abbrev pub as_read_if : String → EventInboxItem N → EventInboxItem N
  as_read_if id item = if item.event_id == id then record item { read = true } else item

  unfoldable pub mark_read : String → EventInboxState N → EventInboxState N
  unfolding count_unread
  mark_read id state =
      let items = map (as_read_if id) state.items in
      record { items = items; unread_count = count_unread items }

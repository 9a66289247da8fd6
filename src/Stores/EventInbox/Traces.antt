-- ===== src/Stores/EventInbox/Traces.antt =====
-- Sequences of operations on the inbox of web/src/stores/eventInboxStore.ts.
use linkflow_v.Prelude.{
  ℕ, zero, suc, ◌+◌, ◌≡◌, refl, ap, String, false, not, ◌&&◌, List, [], ◌∷◌, map, arith, ◌==◌,
  eq_iff, take, any, if◌then◌else◌, ◌∙◌,
}
use linkflow_v.Stores.EventInbox.{
  DeviceEventReceivedPayload, EventMeta, EventInboxItem, EventInboxState, max_inbox_items, initial,
  has_event, new_item, push_event, mark_all_read, as_read_if, mark_read,
}
use linkflow_v.Stores.EventInbox.Invariant.{
  unread, HasDistinctEvents, IsValid, has_event-take, initial-IsValid, push_event-IsValid,
  mark_all_read-IsValid, mark_read-IsValid,
}

-- One delivery of an event: the time of receipt, the payload and its meta data.
pub record Delivery (N : Type 0) : Type 0 where
  pub now : String
  pub payload : DeviceEventReceivedPayload N
  pub meta : EventMeta

pub data Op (N : Type 0) : Type 0 where
  push : Delivery N → Op N
  read_all : Op N
  read_one : String → Op N

module _ {N : Type 0} where
  unfoldable pub apply : Op N → EventInboxState N → EventInboxState N
  apply (push d) s = push_event d.now d.payload d.meta s
  apply read_all s = mark_all_read s
  apply (read_one id) s = mark_read id s

  -- The operations in the order in which they are called.
  unfoldable pub run : List (Op N) → EventInboxState N → EventInboxState N
  run [] s = s
  run (op ∷ ops) s = run ops (apply op s)

  apply-IsValid : (op : Op N) (s : EventInboxState N) → IsValid s → IsValid (apply op s)
  unfolding apply
  apply-IsValid (push d) s v = push_event-IsValid d.now d.payload d.meta s v
  apply-IsValid read_all s v = mark_all_read-IsValid s v
  apply-IsValid (read_one id) s v = mark_read-IsValid id s v

  run_keeps_IsValid : (ops : List (Op N)) (s : EventInboxState N) → IsValid s → IsValid (run ops s)
  unfolding run
  run_keeps_IsValid [] s v = v
  run_keeps_IsValid (op ∷ ops) s v = run_keeps_IsValid ops (apply op s) (apply-IsValid op s v)

  -- Whatever operations are called from the start, the inbox holds at most 20 items, no two of one
  -- event, and its counter is the number of its unread items.
  pub run-IsValid : (ops : List (Op N)) → IsValid (run ops initial)
  run-IsValid ops = run_keeps_IsValid ops initial initial-IsValid

  -- The state after the deliveries of a log, newest first.
  pub inbox_of : List (Delivery N) → EventInboxState N
  inbox_of [] = initial
  inbox_of (d ∷ older) = push_event d.now d.payload d.meta (inbox_of older)

  abbrev pub item_of : Delivery N → EventInboxItem N
  item_of d = new_item d.now d.payload d.meta

  take-take : (n : ℕ) (xs : List (EventInboxItem N)) → take n (take (suc n) xs) ≡ take n xs
  take-take zero xs = refl
  take-take (suc n) [] = refl
  take-take (suc n) (x ∷ xs) = ap (λ ys. x ∷ ys) (take-take n xs)

  push_event_fresh :
      (d : Delivery N) (s : EventInboxState N)
      → has_event d.meta.event_id s.items ≡ false
      → (push_event d.now d.payload d.meta s).items ≡ item_of d ∷ take 19 s.items
  unfolding push_event
  push_event_fresh d s h = rw h refl

  -- After deliveries of pairwise distinct events the inbox shows the last 20, newest first.
  pub inbox_of-items :
      (log : List (Delivery N))
      → HasDistinctEvents (map item_of log)
      → (inbox_of log).items ≡ take max_inbox_items (map item_of log)
  unfolding inbox_of initial
  inbox_of-items [] h = refl
  inbox_of-items (d ∷ older) (fresh, h) =
      let ih = inbox_of-items older h in
      push_event_fresh d (inbox_of older)
        (rw ih (has_event-take max_inbox_items d.meta.event_id (map item_of older) fresh))
      ∙ rw ih (ap (λ ys. item_of d ∷ ys) (take-take 19 (map item_of older)))

  unread-map-absent :
      (id : String) (items : List (EventInboxItem N))
      → has_event id items ≡ false
      → unread (map (as_read_if id) items) ≡ unread items
  unread-map-absent id [] h = refl
  unread-map-absent id (item ∷ items) h = ground (arith, unread-map-absent id items)

  unread-map-as_read_if :
      (id : String) (items : List (EventInboxItem N))
      → HasDistinctEvents items
      → unread (map (as_read_if id) items)
          + (if any (λ item. item.event_id == id && not item.read) items then 1 else 0)
        ≡ unread items
  unread-map-as_read_if id [] h = refl
  unread-map-as_read_if id (item ∷ items) (fresh, h) =
      ground (
        arith,
        eq_iff item.event_id id,
        unread-map-absent id items,
        unread-map-as_read_if id items h,
      )

  -- Marking one event of a valid inbox lowers the counter by one if that event is there and unread,
  -- and else leaves it.
  pub mark_read-unread_count :
      (id : String) (s : EventInboxState N)
      → IsValid s
      → (mark_read id s).unread_count
          + (if any (λ item. item.event_id == id && not item.read) s.items then 1 else 0)
        ≡ s.unread_count
  unfolding mark_read
  mark_read-unread_count id s v = omega (
    arith,
    (mark_read-IsValid id s v).counted,
    unread-map-as_read_if id s.items v.distinct,
    v.counted,
  )

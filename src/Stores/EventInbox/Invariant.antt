-- ===== src/Stores/EventInbox/Invariant.antt =====
-- What holds of the inbox of web/src/stores/eventInboxStore.ts between two operations.
use linkflow_v.Prelude.{
  ℕ, zero, suc, ◌+◌, ◌≤◌, ◌≡◌, refl, String, false, not, List, [], ◌∷◌, map, arith, length,
  length-take-le, take, keep, Bool-cases, inl, inr,
}
use linkflow_v.Stores.EventInbox.{
  DeviceEventReceivedPayload, EventMeta, EventInboxItem, EventInboxState, max_inbox_items,
  count_from, count_unread, initial, has_event, new_item, push_event, as_read, mark_all_read,
  as_read_if, mark_read,
}

module _ {N : Type 0} where
  -- The number of items that are not read.
  abbrev pub unread : List (EventInboxItem N) → ℕ
  unread items = length (keep (λ item. not item.read) items)

  -- No two items carry the same event.
  abbrev pub HasDistinctEvents : List (EventInboxItem N) → Type 0
  HasDistinctEvents [] = Unit
  HasDistinctEvents (item ∷ items) =
      (has_event item.event_id items ≡ false) × HasDistinctEvents items

  pub record IsValid (s : EventInboxState N) : Type 0 where
    pub bounded : length s.items ≤ max_inbox_items
    pub counted : s.unread_count ≡ unread s.items
    pub distinct : HasDistinctEvents s.items

  count_from-eq-add :
      (total : ℕ) (items : List (EventInboxItem N)) → count_from total items ≡ total + unread items
  unfolding count_from
  count_from-eq-add total [] = omega arith
  count_from-eq-add total (item ∷ items) =
      ground (arith, count_from-eq-add (total + 0) items, count_from-eq-add (total + 1) items)

  pub count_unread-eq-unread : (items : List (EventInboxItem N)) → count_unread items ≡ unread items
  unfolding count_unread
  count_unread-eq-unread items = omega (arith, count_from-eq-add 0 items)

  pub has_event-take :
      (n : ℕ) (id : String) (items : List (EventInboxItem N))
      → has_event id items ≡ false
      → has_event id (take n items) ≡ false
  has_event-take zero id items h = refl
  has_event-take (suc n) id [] h = refl
  has_event-take (suc n) id (item ∷ items) h = ground (arith, has_event-take n id items)

  take-HasDistinctEvents :
      (n : ℕ) (items : List (EventInboxItem N))
      → HasDistinctEvents items
      → HasDistinctEvents (take n items)
  take-HasDistinctEvents zero items h = tt
  take-HasDistinctEvents (suc n) [] h = tt
  take-HasDistinctEvents (suc n) (item ∷ items) (fresh, h) =
      (has_event-take n item.event_id items fresh, take-HasDistinctEvents n items h)

  -- A change of the items that keeps their events.
  module _ (f : EventInboxItem N → EventInboxItem N)
      (same : (item : EventInboxItem N) → (f item).event_id ≡ item.event_id) where
    has_event-map :
        (id : String) (items : List (EventInboxItem N))
        → has_event id (map f items) ≡ has_event id items
    has_event-map id [] = refl
    has_event-map id (item ∷ items) = rw (same item, has_event-map id items) refl

    map-HasDistinctEvents :
        (items : List (EventInboxItem N))
        → HasDistinctEvents items
        → HasDistinctEvents (map f items)
    map-HasDistinctEvents [] h = tt
    map-HasDistinctEvents (item ∷ items) (fresh, h) =
        (rw (same item, has_event-map item.event_id items) fresh, map-HasDistinctEvents items h)

    length-map : (items : List (EventInboxItem N)) → length (map f items) ≡ length items
    length-map [] = refl
    length-map (item ∷ items) = omega (arith, length-map items)

  as_read-event_id : (item : EventInboxItem N) → (as_read item).event_id ≡ item.event_id
  as_read-event_id item = ground arith

  as_read_if-event_id :
      (id : String) (item : EventInboxItem N) → (as_read_if id item).event_id ≡ item.event_id
  as_read_if-event_id id item = ground arith

  -- Marking every item leaves no unread item.
  pub unread-map-as_read : (items : List (EventInboxItem N)) → unread (map as_read items) ≡ 0
  unread-map-as_read [] = refl
  unread-map-as_read (item ∷ items) = ground (arith, unread-map-as_read items)

  pub initial-IsValid : IsValid initial
  unfolding initial
  initial-IsValid = record { bounded = omega arith; counted = refl; distinct = tt }

  pub push_event-IsValid :
      (now : String) (payload : DeviceEventReceivedPayload N) (meta : EventMeta)
      (s : EventInboxState N)
      → IsValid s
      → IsValid (push_event now payload meta s)
  unfolding push_event
  push_event-IsValid now payload meta s v = elim (Bool-cases (has_event meta.event_id s.items)) [
    | inl old ↦ rw old v
    | inr fresh ↦
        let items = new_item now payload meta ∷ s.items in
        rw fresh record {
          bounded = length-take-le max_inbox_items items;
          counted = count_unread-eq-unread (take max_inbox_items items);
          distinct = take-HasDistinctEvents max_inbox_items items (fresh, v.distinct);
        }
  ]

  pub mark_all_read-IsValid : (s : EventInboxState N) → IsValid s → IsValid (mark_all_read s)
  unfolding mark_all_read
  mark_all_read-IsValid s v = record {
    bounded = omega (arith, v, length-map as_read as_read-event_id s.items);
    counted = omega (arith, unread-map-as_read s.items);
    distinct = map-HasDistinctEvents as_read as_read-event_id s.items v.distinct;
  }

  pub mark_read-IsValid :
      (id : String) (s : EventInboxState N) → IsValid s → IsValid (mark_read id s)
  unfolding mark_read
  mark_read-IsValid id s v = record {
    bounded = omega (arith, v, length-map (as_read_if id) (as_read_if-event_id id) s.items);
    counted = count_unread-eq-unread (map (as_read_if id) s.items);
    distinct = map-HasDistinctEvents (as_read_if id) (as_read_if-event_id id) s.items v.distinct;
  }

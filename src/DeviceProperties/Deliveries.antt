-- ===== src/DeviceProperties/Deliveries.antt =====
-- The inbox of web/src/stores/eventInboxStore.ts and the event history of
-- web/src/pages/Admin/DevicePropertyManagement.tsx together: the page's effect of the first item runs at
-- the end of a render in which one of its dependencies has changed.
use linkflow_v.Prelude.{
  ℕ, zero, suc, eqb, any, take, map, sym, subst, String, Bool, true, false, not, ◌&&◌, Option, none,
  some, List, [], ◌∷◌, ◌==◌, ◌≡◌, refl, ap, ◌∙◌, arith, eq_refl, if◌then◌else◌, Bool-cases, inl,
  inr,
}
use linkflow_v.Stores.EventInbox.{
  DeviceEventReceivedPayload, EventMeta, EventInboxItem, EventInboxState, has_event, new_item,
  push_event, mark_all_read, mark_read,
}
use linkflow_v.DeviceProperties.State.{
  DevicePropertyTab, latest, history, set, services, event_history, property_set_history,
  service_history, DevicePropertyPage,
}
use linkflow_v.DeviceProperties.Live.{inbox_effect}
use linkflow_v.DeviceProperties.EventList.{live_run}

-- A call of `onEventReceived`, with the time of receipt.
pub record Delivery (N : Type 0) : Type 0 where
  pub now : String
  pub payload : DeviceEventReceivedPayload N
  pub meta : EventMeta

pub record Console (N : Type 0) : Type 0 where
  pub inbox : EventInboxState N
  pub page : DevicePropertyPage N

abbrev pub same_flag : Bool → Bool → Bool
same_flag true b = b
same_flag false b = not b

abbrev pub tab_index : DevicePropertyTab → ℕ
tab_index latest = 0
tab_index history = 1
tab_index set = 2
tab_index services = 3
tab_index property_set_history = 4
tab_index service_history = 5
tab_index event_history = 6

module _ {N : Type 0} where
  abbrev pub first_item : List (EventInboxItem N) → Option (EventInboxItem N)
  first_item [] = none
  first_item (item ∷ items) = some item

  -- Items of an inbox are the same object if neither the event nor its mark differs.
  abbrev pub same_item : Option (EventInboxItem N) → Option (EventInboxItem N) → Bool
  same_item none none = true
  same_item none (some b) = false
  same_item (some a) none = false
  same_item (some a) (some b) = a.event_id == b.event_id && same_flag a.read b.read

  -- The other dependencies of the effect.
  abbrev pub same_deps : DevicePropertyPage N → DevicePropertyPage N → Bool
  same_deps a b =
      eqb (tab_index a.active_tab) (tab_index b.active_tab)
      && (a.device_id == b.device_id
          && (a.events.name_filter == b.events.name_filter
              && (eqb a.events.page b.events.page && eqb a.events.page_size b.events.page_size)))

  -- The end of a render: the effect runs if one of its dependencies is another than before. `touched`
  -- says that the first item is a new object although it has the same event and mark.
  unfoldable pub commit : Bool → Console N → Console N → Console N
  commit touched before after =
      if not touched
        && (same_item (first_item before.inbox.items) (first_item after.inbox.items)
            && same_deps before.page after.page)
      then after
      else record after { page = inbox_effect (first_item after.inbox.items) after.page }

  -- A handler of the page, which leaves the inbox.
  unfoldable pub on_page : (DevicePropertyPage N → DevicePropertyPage N) → Console N → Console N
  unfolding commit
  on_page handler c = commit false c (record c { page = handler c.page })

  unfoldable pub deliver : Delivery N → Console N → Console N
  unfolding commit
  deliver d c = commit false c (record c { inbox = push_event d.now d.payload d.meta c.inbox })

  unfoldable pub press_mark_all_read : Console N → Console N
  unfolding commit
  press_mark_all_read c = commit false c (record c { inbox = mark_all_read c.inbox })

  -- `markRead` makes a new object of the item, read or not.
  abbrev pub is_first : String → Option (EventInboxItem N) → Bool
  is_first id none = false
  is_first id (some item) = item.event_id == id

  unfoldable pub press_mark_read : String → Console N → Console N
  unfolding commit
  press_mark_read id c =
      commit (is_first id (first_item c.inbox.items)) c (record c { inbox = mark_read id c.inbox })

  unfoldable pub deliver_run : List (Delivery N) → Console N → Console N
  deliver_run [] c = c
  deliver_run (d ∷ ds) c = deliver_run ds (deliver d c)

  abbrev item_of : Delivery N → EventInboxItem N
  item_of d = new_item d.now d.payload d.meta

  abbrev pub id_of : EventInboxItem N → String
  id_of item = item.event_id

  -- The identifiers of the last twenty events, and the events that come while theirs is not among
  -- them.
  abbrev pub window : List String → List (Delivery N) → List String
  window recent [] = recent
  window recent (d ∷ ds) =
      let known = window recent ds in
      let next = window (take 20 (d.meta.event_id ∷ recent)) ds in
      if any (λ id. id == d.meta.event_id) recent then known else next

  abbrev pub novel : List String → List (Delivery N) → List (EventInboxItem N)
  novel recent [] = []
  novel recent (d ∷ ds) =
      let known = novel recent ds in
      let next = novel (take 20 (d.meta.event_id ∷ recent)) ds in
      if any (λ id. id == d.meta.event_id) recent then known else item_of d ∷ next

  has_event-map :
      (id : String) (items : List (EventInboxItem N))
      → has_event id items ≡ any (λ j. j == id) (map id_of items)
  has_event-map id [] = refl
  has_event-map id (item ∷ items) = rw (has_event-map id items) refl

  map-take :
      (n : ℕ) (items : List (EventInboxItem N))
      → map id_of (take n items) ≡ take n (map id_of items)
  map-take zero items = refl
  map-take (suc n) [] = refl
  map-take (suc n) (item ∷ items) = ap (λ ids. item.event_id ∷ ids) (map-take n items)

  same_item_refl : (o : Option (EventInboxItem N)) → same_item o o ≡ true
  same_item_refl none = refl
  same_item_refl (some a) = ground (arith, eq_refl a.event_id)

  same_deps_refl : (s : DevicePropertyPage N) → same_deps s s ≡ true
  same_deps_refl s = ground (arith, eq_refl s.device_id, eq_refl s.events.name_filter)

  same_item-new :
      (items : List (EventInboxItem N)) (d : Delivery N)
      → has_event d.meta.event_id items ≡ false
      → same_item (first_item items) (some (item_of d)) ≡ false
  same_item-new [] d h = refl
  same_item-new (item ∷ items) d h = ground arith

  deliver-known :
      (d : Delivery N) (c : Console N)
      → has_event d.meta.event_id c.inbox.items ≡ true
      → deliver d c ≡ c
  unfolding deliver push_event
  deliver-known d c h =
      rw h (rw (same_item_refl (first_item c.inbox.items), same_deps_refl c.page) refl)

  deliver-page :
      (d : Delivery N) (c : Console N)
      → has_event d.meta.event_id c.inbox.items ≡ false
      → (deliver d c).page ≡ inbox_effect (some (item_of d)) c.page
  unfolding deliver push_event
  deliver-page d c h = rw h (rw (same_item-new c.inbox.items d h) refl)

  deliver-ids :
      (d : Delivery N) (c : Console N)
      → has_event d.meta.event_id c.inbox.items ≡ false
      → map id_of (deliver d c).inbox.items ≡ take 20 (d.meta.event_id ∷ map id_of c.inbox.items)
  unfolding deliver push_event
  deliver-ids d c h =
      rw h (rw (same_item-new c.inbox.items d h) (map-take 20 (item_of d ∷ c.inbox.items)))

  -- After any deliveries the inbox has the events of a window of the last twenty identifiers, into
  -- which an event comes if its own is not in the window; and the page is what the effects of
  -- these events make of it, once for each and in their order. So a delivery of an event that is
  -- still among the last twenty changes nothing, and one that has fallen out counts as new.
  pub deliver_run-live_run :
      (ds : List (Delivery N)) (c : Console N)
      → (map id_of (deliver_run ds c).inbox.items ≡ window (map id_of c.inbox.items) ds)
        × ((deliver_run ds c).page ≡ live_run (novel (map id_of c.inbox.items) ds) c.page)
  unfolding deliver_run live_run
  deliver_run-live_run [] c = (refl, refl)
  deliver_run-live_run (d ∷ ds) c = elim (Bool-cases (has_event d.meta.event_id c.inbox.items)) [
    | inl known ↦
        let seen = sym (has_event-map d.meta.event_id c.inbox.items) ∙ known in
        rw seen (
          subst
            (λ c'.
              (map id_of (deliver_run ds c').inbox.items ≡ window (map id_of c.inbox.items) ds)
              × ((deliver_run ds c').page ≡ live_run (novel (map id_of c.inbox.items) ds) c.page))
            (sym (deliver-known d c known)) (deliver_run-live_run ds c))
    | inr new ↦
        let unseen = sym (has_event-map d.meta.event_id c.inbox.items) ∙ new in
        let (ids, page) = deliver_run-live_run ds (deliver d c) in
        let recent = take 20 (d.meta.event_id ∷ map id_of c.inbox.items) in
        rw unseen (
          ids ∙ ap (λ w. window w ds) (deliver-ids d c new),
          page
              ∙ ap (λ w. live_run (novel w ds) (deliver d c).page) (deliver-ids d c new)
              ∙ ap (live_run (novel recent ds)) (deliver-page d c new),
        )
  ]

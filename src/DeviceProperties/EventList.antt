-- ===== src/DeviceProperties/EventList.antt =====
-- What the event history of web/src/pages/Admin/DevicePropertyManagement.tsx shows of the inbox's events.
use linkflow_v.Prelude.{
  ℕ, zero, suc, ◌+◌, Bool, true, false, some, List, [], ◌∷◌, ◌≡◌, refl, ap, ◌∙◌, arith, any, take,
  ◌==◌, if◌then◌else◌, Bool-cases, inl, inr,
}
use linkflow_v.Services.Devices.{DeviceEventEntry}
use linkflow_v.Stores.EventInbox.{EventInboxItem}
use linkflow_v.DeviceProperties.State.{DevicePropertyPage}
use linkflow_v.DeviceProperties.Live.{entry_of, add_entry, is_shown, inbox_effect}

module _ {ℓ} {A : Type ℓ} where
  any-take : (p : A → Bool) (n : ℕ) (xs : List A) → any p xs ≡ false → any p (take n xs) ≡ false
  any-take p zero xs h = refl
  any-take p (suc n) [] h = refl
  any-take p (suc n) (x ∷ xs) h = ground (arith, any-take p n xs)

  take-take-suc : (n : ℕ) (xs : List A) → take n (take (suc n) xs) ≡ take n xs
  take-take-suc zero xs = refl
  take-take-suc (suc n) [] = refl
  take-take-suc (suc n) (x ∷ xs) = ap (λ ys. x ∷ ys) (take-take-suc n xs)

  take-cons_take : (n : ℕ) (x : A) (xs : List A) → take n (x ∷ take n xs) ≡ take n (x ∷ xs)
  take-cons_take zero x xs = refl
  take-cons_take (suc n) x xs = ap (λ ys. x ∷ ys) (take-take-suc n xs)

module _ {N : Type 0} where
  unfoldable pub live_run : List (EventInboxItem N) → DevicePropertyPage N → DevicePropertyPage N
  live_run [] s = s
  live_run (item ∷ items) s = live_run items (inbox_effect (some item) s)

  module _ (shown : EventInboxItem N → Bool) where
    -- The entries with those of the shown events before them, newest first.
    abbrev pub newest :
        List (EventInboxItem N) → List (DeviceEventEntry N) → List (DeviceEventEntry N)
    newest [] entries = entries
    newest (item ∷ items) entries =
        newest items (if shown item then entry_of item ∷ entries else entries)

    abbrev pub count_shown : List (EventInboxItem N) → ℕ
    count_shown [] = 0
    count_shown (item ∷ items) =
        let rest = count_shown items in if shown item then rest + 1 else rest

    -- No shown event is among the entries or comes twice.
    abbrev pub are_new : List (EventInboxItem N) → List (DeviceEventEntry N) → Bool
    are_new [] entries = true
    are_new (item ∷ items) entries =
        if shown item
        then (if any (λ entry. entry.event_id == item.event_id) entries
            then false
            else are_new items (entry_of item ∷ entries))
        else are_new items entries

  add_entry-take :
      (n : ℕ) (item : EventInboxItem N) (entries : List (DeviceEventEntry N))
      → any (λ entry. entry.event_id == item.event_id) entries ≡ false
      → add_entry n item (take n entries) ≡ take n (entry_of item ∷ entries)
  unfolding add_entry
  add_entry-take n item entries h =
      rw (any-take (λ entry. entry.event_id == item.event_id) n entries h)
        (take-cons_take n (entry_of item) entries)

  abbrev with_event : EventInboxItem N → DevicePropertyPage N → DevicePropertyPage N
  with_event item s = record s {
    events = record (s.events) {
      entries = add_entry s.events.page_size item s.events.entries;
      total = s.events.total + 1;
    };
  }

  inbox_effect-is_shown :
      (item : EventInboxItem N) (s : DevicePropertyPage N)
      → inbox_effect (some item) s ≡ (if is_shown s item then with_event item s else s)
  unfolding inbox_effect
  inbox_effect-is_shown item s = elim (Bool-cases (is_shown s item)) [
    | inl shown ↦ rw shown refl
    | inr hidden ↦ rw hidden refl
  ]

  live_run-nil : (s : DevicePropertyPage N) → live_run [] s ≡ s
  unfolding live_run
  live_run-nil s = refl

  live_run-cons :
      (item : EventInboxItem N) (items : List (EventInboxItem N)) (s : DevicePropertyPage N)
      → live_run (item ∷ items) s
        ≡ live_run items (if is_shown s item then with_event item s else s)
  unfolding live_run
  live_run-cons item items s = ap (live_run items) (inbox_effect-is_shown item s)

  -- After any events of the inbox, the history on the screen has the entries that it had with one
  -- entry for each event of the page's device that passes the filter before them, newest first and
  -- cut to the size of a page; its total has grown by the number of these events. Other events
  -- change neither, nor does any event on another tab or a later page. It is assumed that the entries
  -- at first are a list cut to the size of a page, and that no event that is shown is in that list or
  -- comes twice.
  pub live_run-take :
      (items : List (EventInboxItem N)) (s : DevicePropertyPage N)
      (entries : List (DeviceEventEntry N))
      → s.events.entries ≡ take s.events.page_size entries
      → are_new (is_shown s) items entries ≡ true
      → ((live_run items s).events.entries
          ≡ take s.events.page_size (newest (is_shown s) items entries))
        × ((live_run items s).events.total ≡ s.events.total + count_shown (is_shown s) items)
  live_run-take [] s entries h k = rw (live_run-nil s) (h, omega arith)
  live_run-take (item ∷ items) s entries h k = elim (Bool-cases (is_shown s item)) [
    | inl shown ↦
        let k' = (rw shown at k) in
        let new : any (λ entry. entry.event_id == item.event_id) entries ≡ false = ground arith in
        let (listed, counted) =
          live_run-take items (with_event item s) (entry_of item ∷ entries)
            (rw (h, add_entry-take s.events.page_size item entries new) refl) (ground arith) in
        rw (live_run-cons item items s, shown) (listed, counted ∙ omega arith)
    | inr hidden ↦
        rw (live_run-cons item items s, hidden) (live_run-take items s entries h (rw hidden at k))
  ]

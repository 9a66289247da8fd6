-- ===== src/Realtime/Events.antt =====
-- What may happen to the connection of web/src/hooks/useDevicesRealtime.ts, and in which state: a
-- socket that the browser still holds opens or closes, a pending timer fires, the page unmounts.
use linkflow_v.Prelude.{ℕ, Bool, true, false, some, List, ◌≡◌, any, eqb}
use linkflow_v.Realtime.{Location, Timer, Connection, on_open, on_close, on_timer, unmount, start}

abbrev pub has_socket : ℕ → List ℕ → Bool
has_socket k sockets = any (λ j. eqb j k) sockets

abbrev pub has_timer : ℕ → List Timer → Bool
has_timer k timers = any (λ t. eqb t.id k) timers

pub data Step (s : Connection) : Connection → Type 0 where
  opens : (k : ℕ) → has_socket k s.sockets ≡ true → Step s (on_open s)
  closes : (k code : ℕ) → has_socket k s.sockets ≡ true → Step s (on_close k code s)
  fires :
      (l : Location) (throws : Bool) (k : ℕ)
      → has_timer k s.timers ≡ true
      → Step s (on_timer (some l) throws k s)
  unmounts : s.cancelled ≡ false → Step s (unmount s)

-- The states of a hook that has been started in a browser.
pub data Reach : Connection → Type 0 where
  starts : (enabled : Bool) (l : Location) (throws : Bool) → Reach (start enabled (some l) throws)
  steps : {s t : Connection} → Reach s → Step s t → Reach t

-- ===== src/Realtime/Phases.antt =====
-- The phases of the connection of web/src/hooks/useDevicesRealtime.ts.
use linkflow_v.Prelude.{
  ℕ, ◌≤◌, String, ◌==◌, Bool, true, false, none, some, [], ◌∷◌, ◌≡◌, ◌≢◌, refl, ◌⊎◌, inl, inr,
  arith, eqb, eq_iff, Bool-cases,
}
use Prim.Native.String
use text.Mathlib.TextLemmas.{cons-append}
use linkflow_v.Realtime.{
  idle, connecting, opened, reconnecting, closed, min_backoff_ms, max_backoff_ms,
  unauthorized_close_code, Location, Timer, Connection, build_endpoint, schedule_reconnect, connect,
  on_open, on_close, lose_socket, elapse, on_timer, unmount, initial, start,
}
use linkflow_v.Realtime.Events.{
  has_socket, has_timer, Step, opens, closes, fires, unmounts, Reach, starts, steps,
}

-- A socket is there, and no timer.
pub record IsConnected (k : ℕ) (s : Connection) : Type 0 where
  pub live : s.cancelled ≡ false
  pub status : (s.status ≡ connecting) ⊎ (s.status ≡ opened)
  pub socket : s.socket ≡ some k
  pub sockets : s.sockets ≡ k ∷ []
  pub timers : s.timers ≡ []
  pub delay : (min_backoff_ms ≤ s.backoff_ms) × (s.backoff_ms ≤ max_backoff_ms)

-- A timer is pending, and there is no socket.
pub record IsWaiting (t : Timer) (s : Connection) : Type 0 where
  pub live : s.cancelled ≡ false
  pub status : s.status ≡ reconnecting
  pub socket : s.socket ≡ none
  pub sockets : s.sockets ≡ []
  pub timer : s.reconnect_timer ≡ some t.id
  pub timers : s.timers ≡ t ∷ []
  pub delay : (min_backoff_ms ≤ t.delay) × (t.delay ≤ max_backoff_ms) × (s.backoff_ms ≡ t.delay)

-- Nothing is left that the browser could call.
pub record IsStopped (s : Connection) : Type 0 where
  pub status : (s.status ≡ closed) ⊎ (s.status ≡ idle)
  pub cancelled : s.cancelled ≡ true → s.status ≡ idle
  pub socket : s.socket ≡ none
  pub sockets : s.sockets ≡ []
  pub timers : s.timers ≡ []

pub data Phase (s : Connection) : Type 0 where
  connected : (k : ℕ) → IsConnected k s → Phase s
  waiting : (t : Timer) → IsWaiting t s → Phase s
  stopped : IsStopped s → Phase s

text-ne-nil : (a b : String) → a ≢ "" → (String.◌++◌ a b == "") ≡ false
text-ne-nil String.[] b h = absurd (h refl)
text-ne-nil (String.◌∷◌ c a) b h = elim (Bool-cases (String.◌++◌ (String.◌∷◌ c a) b == "")) [
  | inl p ↦ let e : String.◌∷◌ c (String.◌++◌ a b) ≡ "" = rw cons-append at ((eq_iff _ _).0 p) in cc
  | inr p ↦ p
]

-- In a browser there is always an endpoint.
pub build_endpoint-ne-nil : (l : Location) → (build_endpoint (some l) == "") ≡ false
unfolding build_endpoint
build_endpoint-ne-nil l = elim (Bool-cases (l.protocol == "https:")) [
  | inl p ↦ rw p (text-ne-nil "wss:" _ (ground (arith, eq_iff "wss:" "")))
  | inr p ↦ rw p (text-ne-nil "ws:" _ (ground (arith, eq_iff "ws:" "")))
]

abbrev InRange : ℕ → Type 0
InRange d = (min_backoff_ms ≤ d) × (d ≤ max_backoff_ms)

-- What a connection holds when no callback is outstanding.
record IsFree (s : Connection) : Type 0 where
  live : s.cancelled ≡ false
  socket : s.socket ≡ none
  sockets : s.sockets ≡ []
  timers : s.timers ≡ []
  delay : InRange s.backoff_ms

schedule_reconnect-IsWaiting :
    (s : Connection)
    → IsFree s
    → IsWaiting (record { id = s.next_handle; delay = s.backoff_ms }) (schedule_reconnect s)
unfolding schedule_reconnect
schedule_reconnect-IsWaiting s f = ground arith

schedule_reconnect-Phase : (s : Connection) → IsFree s → Phase (schedule_reconnect s)
schedule_reconnect-Phase s f = waiting _ (schedule_reconnect-IsWaiting s f)

connect-IsConnected :
    (l : Location) (s : Connection)
    → IsFree s
    → IsConnected s.next_handle (connect (some l) false s)
unfolding connect
connect-IsConnected l s f = ground (arith, build_endpoint-ne-nil l)

connect_throws :
    (l : Location) (s : Connection)
    → IsFree s
    → connect (some l) true s ≡ schedule_reconnect (record s { status = connecting })
unfolding connect
connect_throws l s f = rw (f.live, build_endpoint-ne-nil l) refl

connect-Phase :
    (l : Location) (throws : Bool) (s : Connection) → IsFree s → Phase (connect (some l) throws s)
connect-Phase l true s f = rw (connect_throws l s f) (
    schedule_reconnect-Phase (record s { status = connecting })
      (record {
        live = f.live;
        socket = f.socket;
        sockets = f.sockets;
        timers = f.timers;
        delay = f.delay;
      }))
connect-Phase l false s f = connected _ (connect-IsConnected l s f)

on_open-IsConnected : (k : ℕ) (s : Connection) → IsConnected k s → IsConnected k (on_open s)
unfolding on_open
on_open-IsConnected k s c = ground arith

on_close_unauthorized :
    (k j : ℕ) (s : Connection)
    → IsConnected k s
    → has_socket j s.sockets ≡ true
    → IsStopped (on_close j unauthorized_close_code s)
unfolding on_close
on_close_unauthorized k j s c h = ground arith

lose_socket-IsFree :
    (k j : ℕ) (s : Connection)
    → IsConnected k s
    → has_socket j s.sockets ≡ true
    → IsFree (lose_socket j s)
lose_socket-IsFree k j s c h = ground arith

on_close_retry :
    (j code : ℕ) (s : Connection)
    → s.cancelled ≡ false
    → eqb code unauthorized_close_code ≡ false
    → on_close j code s ≡ schedule_reconnect (lose_socket j s)
unfolding on_close
on_close_retry j code s live other = ground arith

on_close-Phase :
    (k j code : ℕ) (s : Connection)
    → IsConnected k s
    → has_socket j s.sockets ≡ true
    → Phase (on_close j code s)
on_close-Phase k j code s c h = elim (Bool-cases (eqb code unauthorized_close_code)) [
  | inl p ↦
      let e : code ≡ unauthorized_close_code = ground arith in
      rw e (stopped (on_close_unauthorized k j s c h))
  | inr p ↦
      rw (on_close_retry j code s c.live p)
        (schedule_reconnect-Phase (lose_socket j s) (lose_socket-IsFree k j s c h))
]

elapse-IsFree :
    (j : ℕ) (t : Timer) (s : Connection)
    → IsWaiting t s
    → has_timer j s.timers ≡ true
    → IsFree (elapse j s)
elapse-IsFree j t s w h = ground arith

on_timer-Phase :
    (l : Location) (throws : Bool) (j : ℕ) (t : Timer) (s : Connection)
    → IsWaiting t s
    → has_timer j s.timers ≡ true
    → Phase (on_timer (some l) throws j s)
unfolding on_timer
on_timer-Phase l throws j t s w h = connect-Phase l throws (elapse j s) (elapse-IsFree j t s w h)

pub unmount-IsStopped : (s : Connection) → Phase s → IsStopped (unmount s)
unfolding unmount
unmount-IsStopped s (connected k c) = ground arith
unmount-IsStopped s (waiting t w) = ground arith
unmount-IsStopped s (stopped f) = ground arith

Step-Phase : {s t : Connection} → Step s t → Phase s → Phase t
Step-Phase {s} (opens k h) (connected j c) = connected j (on_open-IsConnected j s c)
Step-Phase {s} (opens k h) (waiting t w) = absurd (ground arith)
Step-Phase {s} (opens k h) (stopped f) = absurd (ground arith)
Step-Phase {s} (closes k code h) (connected j c) = on_close-Phase j k code s c h
Step-Phase {s} (closes k code h) (waiting t w) = absurd (ground arith)
Step-Phase {s} (closes k code h) (stopped f) = absurd (ground arith)
Step-Phase {s} (fires l throws k h) (connected j c) = absurd (ground arith)
Step-Phase {s} (fires l throws k h) (waiting t w) = on_timer-Phase l throws k t s w h
Step-Phase {s} (fires l throws k h) (stopped f) = absurd (ground arith)
Step-Phase {s} (unmounts live) p = stopped (unmount-IsStopped s p)

initial-IsFree : IsFree initial
unfolding initial
initial-IsFree = ground arith

start-Phase :
    (enabled : Bool) (l : Location) (throws : Bool) → Phase (start enabled (some l) throws)
unfolding start
start-Phase true l throws = connect-Phase l throws initial initial-IsFree
start-Phase false l throws = stopped (ground arith)

-- In every state that a started hook can reach, exactly one of these holds: a socket with handlers
-- is there and no timer, its status connecting or open; one timer is pending and no socket is
-- there, its delay between 1 and 30 seconds; or neither is left, and the status is closed or idle.
pub Reach-Phase : {s : Connection} → Reach s → Phase s
Reach-Phase (starts enabled l throws) = start-Phase enabled l throws
Reach-Phase (steps r st) = Step-Phase st (Reach-Phase r)

stopped_no-Step : {s t : Connection} → IsStopped s → s.cancelled ≡ true → ¬ Step s t
stopped_no-Step f c (opens k h) = ground arith
stopped_no-Step f c (closes k code h) = ground arith
stopped_no-Step f c (fires l throws k h) = ground arith
stopped_no-Step f c (unmounts live) = ground arith

-- A reachable state that is cancelled, as the unmounting leaves it, is idle, and nothing happens
-- in it: no callback of a socket or of a timer is left.
pub Reach-cancelled :
    {s : Connection} (t : Connection)
    → Reach s
    → s.cancelled ≡ true
    → (s.status ≡ idle) × (¬ Step s t)
Reach-cancelled {s} t r c = elim (Reach-Phase r) [
  | connected k p ↦ absurd (ground arith)
  | waiting w p ↦ absurd (ground arith)
  | stopped p ↦ (p.cancelled c, stopped_no-Step p c)
]

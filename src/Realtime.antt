-- ===== src/Realtime.antt =====
-- The connection to the device event stream: web/src/hooks/useDevicesRealtime.ts. The variables of
-- the effect and what the browser holds for it (sockets with handlers, pending timers) are one
-- state; each callback is a function on it.
pub mod Events
pub mod Phases
pub mod Backoff
pub mod Messages
pub mod Dispatch
mod Examples
use Prim.Native.Nat.{min}
use Prim.Native.String
use linkflow_v.Prelude.{
  ℕ, ◌+◌, ◌*◌, String, Bool, true, false, not, Option, none, some, List, [], ◌∷◌, ◌==◌, eqb, keep,
  if◌then◌else◌,
}

pub data DeviceRealtimeStatus : Type 0 where
  idle connecting opened reconnecting closed : DeviceRealtimeStatus

abbrev pub device_realtime_path : String
device_realtime_path = "/api/v1/ws/devices"

abbrev pub min_backoff_ms : ℕ
min_backoff_ms = 1000

abbrev pub max_backoff_ms : ℕ
max_backoff_ms = 30000

abbrev pub unauthorized_close_code : ℕ
unauthorized_close_code = 1008

-- `window.location`.
pub record Location : Type 0 where
  pub protocol : String
  pub hostname : String
  pub host : String
  pub port : String

infixr 65 ◌⧺◌
abbrev ◌⧺◌ : String → String → String
a ⧺ b = String.◌++◌ a b

-- Where there is no window, the endpoint is the empty text.
pub build_endpoint : Option Location → String
build_endpoint none = ""
build_endpoint (some l) =
    (if l.protocol == "https:" then "wss:" else "ws:")
    ⧺ ("//" ⧺ ((if l.port == "8000" then l.hostname ⧺ ":18080" else l.host) ⧺ device_realtime_path))

pub record Timer : Type 0 where
  pub id : ℕ
  pub delay : ℕ

pub record Connection : Type 0 where
  pub status : DeviceRealtimeStatus
  pub cancelled : Bool
  pub socket : Option ℕ
  pub reconnect_timer : Option ℕ
  pub backoff_ms : ℕ
  -- The browser's side: the next handle, the sockets whose handlers may still be called, and the
  -- timers that may still fire.
  pub next_handle : ℕ
  pub sockets : List ℕ
  pub timers : List Timer

abbrev pub drop_socket : ℕ → List ℕ → List ℕ
drop_socket k sockets = keep (λ j. not (eqb j k)) sockets

abbrev pub drop_timer : ℕ → List Timer → List Timer
drop_timer k timers = keep (λ t. not (eqb t.id k)) timers

pub schedule_reconnect : Connection → Connection
schedule_reconnect s = if s.cancelled then s else record s {
  status = reconnecting;
  reconnect_timer = some s.next_handle;
  next_handle = s.next_handle + 1;
  timers = record { id = s.next_handle; delay = s.backoff_ms } ∷ s.timers;
}

-- `throws` says whether the constructor of the socket throws.
pub connect : Option Location → Bool → Connection → Connection
unfolding schedule_reconnect
connect window throws s =
    if s.cancelled
    then s
    else if build_endpoint window == ""
    then record s { status = idle }
    else (let s' = record s { status = connecting } in
        if throws then schedule_reconnect s' else record s' {
          socket = some s.next_handle;
          next_handle = s.next_handle + 1;
          sockets = s.next_handle ∷ s.sockets;
        })

pub on_open : Connection → Connection
on_open s = if s.cancelled then s else record s { backoff_ms = min_backoff_ms; status = opened }

abbrev pub lose_socket : ℕ → Connection → Connection
lose_socket k s = record s { sockets = drop_socket k s.sockets; socket = none }

-- The socket `k` closes: the browser calls none of its handlers again.
pub on_close : ℕ → ℕ → Connection → Connection
unfolding schedule_reconnect
on_close k code s =
    let s' = lose_socket k s in
    if s.cancelled
    then s'
    else if eqb code unauthorized_close_code
    then record s' { status = closed }
    else schedule_reconnect s'

-- The timer `k` has fired. The variable `reconnectTimer` keeps the old handle.
abbrev pub elapse : ℕ → Connection → Connection
elapse k s = record s {
  timers = drop_timer k s.timers;
  backoff_ms = min (s.backoff_ms * 2) max_backoff_ms;
}

pub on_timer : Option Location → Bool → ℕ → Connection → Connection
on_timer window throws k s = connect window throws (elapse k s)

abbrev pub clear_timer : Option ℕ → List Timer → List Timer
clear_timer none timers = timers
clear_timer (some k) timers = drop_timer k timers

-- The handlers of the socket are set to null.
abbrev pub clear_handlers : Option ℕ → List ℕ → List ℕ
clear_handlers none sockets = sockets
clear_handlers (some k) sockets = drop_socket k sockets

pub cleanup : Connection → Connection
cleanup s = record s {
  timers = clear_timer s.reconnect_timer s.timers;
  reconnect_timer = none;
  sockets = clear_handlers s.socket s.sockets;
  socket = none;
}

-- The function that the effect returns.
pub unmount : Connection → Connection
unfolding cleanup
unmount s = record (cleanup (record s { cancelled = true })) { status = idle }

unfoldable pub initial : Connection
initial = record {
  status = idle;
  cancelled = false;
  socket = none;
  reconnect_timer = none;
  backoff_ms = min_backoff_ms;
  next_handle = 0;
  sockets = [];
  timers = [];
}

-- The effect: a disabled hook, or one with no window, stays idle.
pub start : Bool → Option Location → Bool → Connection
unfolding connect initial
start enabled none throws = initial
start enabled (some l) throws = if enabled then connect (some l) throws initial else initial

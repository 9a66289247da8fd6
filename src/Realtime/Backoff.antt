-- ===== src/Realtime/Backoff.antt =====
-- The delays between attempts in web/src/hooks/useDevicesRealtime.ts.
use Prim.Native.Nat.{min}
use native.Mathlib.Nat.{pow-suc}
use linkflow_v.Prelude.{
  ℕ, suc, ◌+◌, ◌*◌, ◌^◌, true, false, Option, none, some, List, [], ◌∷◌, ◌≡◌, ◌≢◌, ◌∙◌, ap, arith,
  length, All,
}
use linkflow_v.Realtime.{
  Location, Timer, Connection, min_backoff_ms, max_backoff_ms, unauthorized_close_code, on_open,
  on_close, on_timer, connect, initial, start,
}
use linkflow_v.Realtime.Phases.{IsConnected, build_endpoint-ne-nil}

abbrev pub handle_or_zero : Option ℕ → ℕ
handle_or_zero none = 0
handle_or_zero (some k) = k

-- The delay of the first pending timer.
abbrev pub next_delay : List Timer → ℕ
next_delay [] = 0
next_delay (t ∷ ts) = t.delay

-- The socket in use closes with a code.
pub lose : ℕ → Connection → Connection
lose code s = on_close (handle_or_zero s.socket) code s

-- The socket in use closes, the timer fires and the next socket is made.
pub retry : Location → ℕ → Connection → Connection
unfolding lose
retry l code s =
    on_timer (some l) false (handle_or_zero (lose code s).reconnect_timer) (lose code s)

-- One retry after another, with the codes of the closing.
pub retries : Location → List ℕ → Connection → Connection
retries l [] s = s
retries l (code ∷ codes) s = retries l codes (retry l code s)

-- The delay after `n` failures in a row.
abbrev pub delay_after : ℕ → ℕ
delay_after n = min (min_backoff_ms * 2 ^ n) max_backoff_ms

retry-IsConnected :
    (l : Location) (code k : ℕ) (s : Connection)
    → IsConnected k s
    → code ≢ unauthorized_close_code
    → IsConnected (s.next_handle + 1) (retry l code s)
      × ((retry l code s).backoff_ms ≡ min (s.backoff_ms * 2) max_backoff_ms)
unfolding retry on_close on_timer connect
retry-IsConnected l code k s c h = ground (arith, build_endpoint-ne-nil l)

lose-next_delay :
    (code k : ℕ) (s : Connection)
    → IsConnected k s
    → code ≢ unauthorized_close_code
    → next_delay (lose code s).timers ≡ s.backoff_ms
unfolding lose on_close
lose-next_delay code k s c h = ground arith

delay_after-suc : (n : ℕ) → min (delay_after n * 2) max_backoff_ms ≡ delay_after (suc n)
delay_after-suc n = omega (arith, pow-suc 2 n)

retries-delay :
    (l : Location) (codes : List ℕ) (n k code : ℕ) (s : Connection)
    → IsConnected k s
    → All (λ c. c ≢ unauthorized_close_code) codes
    → code ≢ unauthorized_close_code
    → s.backoff_ms ≡ delay_after n
    → next_delay (lose code (retries l codes s)).timers ≡ delay_after (n + length codes)
unfolding retries
retries-delay l [] n k code s c h hc e =
    let z : n + 0 ≡ n = omega arith in rw z (lose-next_delay code k s c hc ∙ e)
retries-delay l (d ∷ codes) n k code s c (hd, h) hc e =
    let (c', e') = retry-IsConnected l d k s c hd in
    let z : n + suc (length codes) ≡ suc n + length codes = omega arith in
    rw z (
      retries-delay l codes (suc n) (s.next_handle + 1) code (retry l d s) c' h hc
        (rw (e', e) (delay_after-suc n)))

start-backoff : (l : Location) → (start true (some l) false).backoff_ms ≡ delay_after 0
unfolding start connect initial
start-backoff l = ground (arith, build_endpoint-ne-nil l)

start-IsConnected : (l : Location) → IsConnected 0 (start true (some l) false)
unfolding start connect initial
start-IsConnected l = ground (arith, build_endpoint-ne-nil l)

on_open-IsConnected :
    (k : ℕ) (s : Connection)
    → IsConnected k s
    → IsConnected k (on_open s) × ((on_open s).backoff_ms ≡ delay_after 0)
unfolding on_open
on_open-IsConnected k s c = ground arith

-- If a hook's first attempts fail `n` times in a row, each by a close other than for missing
-- authorization, then at the next such close the hook waits for 1000 · 2ⁿ ms, at most 30 seconds.
pub start-delay :
    (l : Location) (codes : List ℕ) (code : ℕ)
    → All (λ c. c ≢ unauthorized_close_code) codes
    → code ≢ unauthorized_close_code
    → next_delay (lose code (retries l codes (start true (some l) false))).timers
      ≡ delay_after (length codes)
start-delay l codes code h hc =
    retries-delay l codes 0 0 code (start true (some l) false) (start-IsConnected l) h hc
      (start-backoff l)
    ∙ ap delay_after (omega arith)

-- A connection that has opened starts the delays anew: `n` failures in a row after the opening
-- make the next delay 1000 · 2ⁿ ms, at most 30 seconds, whatever the delay was before.
on_open-delay :
    (l : Location) (k : ℕ) (s : Connection) (codes : List ℕ) (code : ℕ)
    → IsConnected k s
    → All (λ c. c ≢ unauthorized_close_code) codes
    → code ≢ unauthorized_close_code
    → next_delay (lose code (retries l codes (on_open s))).timers ≡ delay_after (length codes)
on_open-delay l k s codes code c h hc =
    let (c', e) = on_open-IsConnected k s c in
    retries-delay l codes 0 k code (on_open s) c' h hc e ∙ ap delay_after (omega arith)

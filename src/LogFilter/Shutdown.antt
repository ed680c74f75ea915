-- ===== src/LogFilter/Shutdown.antt =====
-- `NewShutdownContext` (go/logfilter/logfilter.go): what happens to the context, the stop channel
-- and the goroutine that waits for a signal, in any order.
pub mod Closed
mod Tests
use eip_toolkit.Prelude.{◌≡◌, Bool, true, false}

-- The context and the stop channel, and whether the goroutine still waits.
pub record Shutdown : Type 0 where
  pub ctx_done : Bool
  pub stop_closed : Bool
  pub watching : Bool

-- `NewShutdownContext` of a parent that is done or not.
abbrev pub new_shutdown_context : Bool → Shutdown
new_shutdown_context parent_done = record {
  ctx_done = parent_done;
  stop_closed = false;
  watching = true;
}

-- The branch of a signal: `cancel`, `close(stopCh)` and `signal.Stop`.
abbrev pub on_signal : Shutdown → Shutdown
on_signal s = record s { ctx_done = true; stop_closed = true; watching = false }

pub data Happens (s : Shutdown) : Shutdown → Type 0 where
  -- A signal arrives while the goroutine waits for one.
  signal : s.watching ≡ true → Happens s (on_signal s)
  -- The context ends, by its parent or by the `cancel` that the caller got.
  parent_ends : Happens s (record s { ctx_done = true })
  -- The goroutine takes the other branch of its `select`.
  stop_watching : s.watching ≡ true → s.ctx_done ≡ true → Happens s (record s { watching = false })

pub data Happened (s : Shutdown) : Shutdown → Type 0 where
  now : Happened s s
  later : {t u : Shutdown} → Happened s t → Happens t u → Happened s u

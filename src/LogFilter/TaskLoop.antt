-- ===== src/LogFilter/TaskLoop.antt =====
-- `LogTask.TaskLoop` (go/logfilter/logfilter.go).
pub mod Ends
mod Tests
use eip_toolkit.Prelude.{
  ℕ, ◌-◌, not, Option, none, some, List, [], ◌∷◌, if◌then◌else◌, Bytes, GoError, ok, err,
}
use eip_toolkit.LogFilter.Pool.{PendingPool}
use eip_toolkit.LogFilter.Task.{Machine, Env, run_once}

-- A task in its loop: the task at work, `unhealthyStart` (`none` is the zero time), and the gauges
-- `metricTaskHealth`, `metricTaskUnhealthySec` and `metricTaskLiveMode`.
pub record Looping (S : Type 0) : Type 0 where
  pub machine : Machine S
  pub unhealthy_start : Option ℕ
  pub task_health : ℕ
  pub task_unhealthy_sec : ℕ
  pub task_live_mode : ℕ

-- What one turn of the loop meets: the poll of the context, the fuel of `RunOnce`, the times that
-- `time.Now()` gives behind a failure, and the context during the wait for the next poll.
pub record Turn : Type 0 where
  pub poll : Option GoError
  pub fuel : ℕ
  pub now : ℕ
  pub later : ℕ
  pub wait : Option GoError

-- The loop is still running behind the turns that are given, or it has returned an error or nil.
pub data LoopEnd : Type 0 where
  running : LoopEnd
  returned : Option GoError → LoopEnd

abbrev pub start_of : ℕ → Option ℕ → ℕ
start_of now none = now
start_of now (some t) = t

module _ {S : Type 0} where
  -- The branch `err != nil`.
  abbrev pub unhealthy : Turn → Looping S → Looping S
  unhealthy t s =
      let since = start_of t.now s.unhealthy_start in
      record s { unhealthy_start = some since; task_unhealthy_sec = t.later - since }

  abbrev pub healthy : Looping S → Looping S
  healthy s = record s { unhealthy_start = none; task_unhealthy_sec = 0 }

  abbrev pub live_gauge : ℕ → Looping S → Looping S
  live_gauge n s = record s { task_live_mode = n }

  -- The deferred function.
  abbrev pub close : LoopEnd × Looping S → LoopEnd × Looping S
  close (running, s) = (running, s)
  close (returned e, s) = (returned e, record s { task_health = 0; task_unhealthy_sec = 0 })

module _ {S : Type 0} (sum256 : Bytes → Bytes) (pools : PendingPool S) where
  -- A turn that ends the loop, or the state in which the next one starts; `none` means that the
  -- fuel of `RunOnce` ran out.
  unfoldable pub turn : Env → Turn → Looping S → Option (LoopEnd × Looping S)
  turn env t s = elim t.poll [
    | some e ↦ some (returned (some e), s)
    | none ↦ elim (run_once sum256 pools t.fuel env s.machine) [
      | none ↦ none
      | some (err e, m) ↦ some (returned (some e), unhealthy t (record s { machine = m }))
      | some (ok caught_up, m) ↦
          let s' = healthy (record s { machine = m }) in
          if not m.task.live_mode
          then some (returned none, s')
          else if caught_up
          then some (elim t.wait [ some e ↦ returned (some e) | none ↦ running ], live_gauge 1 s')
          else some (running, live_gauge 0 s')
    ]
  ]

  -- The `for` loop, over the turns that are given.
  unfoldable pub turns : Env → List Turn → Looping S → Option (LoopEnd × Looping S)
  turns env [] s = some (running, s)
  turns env (t ∷ ts) s = elim (turn env t s) [
    | none ↦ none
    | some (returned e, s') ↦ some (returned e, s')
    | some (running, s') ↦ turns env ts s'
  ]

  unfoldable pub task_loop : Env → List Turn → Looping S → Option (LoopEnd × Looping S)
  task_loop env ts s = elim (turns env ts (record s { task_health = 1 })) [
    | none ↦ none
    | some r ↦ some (close r)
  ]

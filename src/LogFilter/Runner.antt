-- ===== src/LogFilter/Runner.antt =====
-- `TaskRunner.RunAll` (go/logfilter/logfilter.go): the goroutine of one task, which restarts it.
pub mod Backoff
pub mod System
mod Tests
use eip_toolkit.Prelude.{
  ℕ, suc, max, ◌+◌, ◌-◌, ◌*◌, ◌%◌, ◌^◌, Bool, true, false, ◌&&◌, Option, none, some, List, [], ◌∷◌,
  u64_mod, ltb, if◌then◌else◌, GoError, canceled, deadline_exceeded, text, wrap,
}

-- `task.RestartBackoff` and `task.MaxBackoff`, in nanoseconds.
pub record Limits : Type 0 where
  pub restart_backoff : ℕ
  pub max_backoff : ℕ

-- What one turn of the goroutine meets: the poll of the context, what `TaskLoop` returns,
-- `ctx.Err()` behind it, and whether the context ends the wait.
pub record Attempt : Type 0 where
  pub poll : Bool
  pub outcome : Option GoError
  pub ctx_err : Option GoError
  pub done : Bool

-- The goroutine: `metricTaskRunning`, `metricTaskRestartTotal`, `backoff`, and the waits that it
-- began, the newest first.
pub record Goroutine : Type 0 where
  pub task_running : ℕ
  pub restart_total : ℕ
  pub backoff : ℕ
  pub waits : List ℕ

abbrev pub error_eq : GoError → GoError → Bool
error_eq canceled canceled = true
error_eq deadline_exceeded deadline_exceeded = true
error_eq e target = false

-- `errors.Is(err, target)` for the targets of `ctx.Err()`: an error of the context, found behind
-- any number of wrappers, or nil, which only nil is.
unfoldable pub errors_is : Option GoError → Option GoError → Bool
errors_is none none = true
errors_is none (some target) = false
errors_is (some e) none = false
errors_is (some (wrap p e)) (some target) = errors_is (some e) (some target)
errors_is (some canceled) (some target) = error_eq canceled target
errors_is (some deadline_exceeded) (some target) = error_eq deadline_exceeded target
errors_is (some (text m)) (some target) = false

-- The range of an `int64` that is not negative.
abbrev pub i63_mod : ℕ
i63_mod = 2 ^ 63

-- `backoff *= 2`, and at most `task.MaxBackoff`. Durations are the bits of an `int64`; the bound is
-- not negative, and a product that is negative stays.
unfoldable pub next_backoff : ℕ → ℕ → ℕ
next_backoff max backoff =
    let doubled = backoff * 2 % u64_mod in
    if ltb doubled i63_mod && ltb max doubled then max else doubled

-- How a goroutine stands behind the turns that are given.
pub data Status : Type 0 where
  looping stopped : Status

module _ (limits : Limits) where
  -- The branch behind a failure: the restart is counted, and the wait begins.
  abbrev pub fail : Goroutine → Goroutine
  fail g = record g { restart_total = suc g.restart_total; waits = g.backoff ∷ g.waits }

  abbrev pub double_backoff : Goroutine → Goroutine
  double_backoff g = record g { backoff = next_backoff limits.max_backoff g.backoff }

  -- One turn of the `for` loop. The gauge of running tasks goes up before `TaskLoop` and down
  -- behind it.
  unfoldable pub turn : Attempt → Goroutine → Status × Goroutine
  turn a g =
      let g' = record g { task_running = g.task_running + 1 - 1 } in
      if a.poll
      then (stopped, g)
      else if errors_is a.outcome a.ctx_err
      then (stopped, g')
      else if a.done
      then (stopped, fail g')
      else (looping, double_backoff (fail g'))

  unfoldable pub turns : List Attempt → Goroutine → Status × Goroutine
  turns [] g = (looping, g)
  turns (a ∷ rest) g =
      let (status, g') = turn a g in
      elim status [ looping ↦ turns rest g' | stopped ↦ (stopped, g') ]

  -- The goroutine from its start, with the gauges as they stand.
  unfoldable pub run_task : List Attempt → ℕ → ℕ → Status × Goroutine
  run_task attempts running restarts = turns attempts (record {
    task_running = running;
    restart_total = restarts;
    backoff = limits.restart_backoff;
    waits = [];
  })

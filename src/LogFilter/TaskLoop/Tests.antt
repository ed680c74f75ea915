-- ===== src/LogFilter/TaskLoop/Tests.antt =====
-- Runs of `TaskLoop` and witnesses of its properties.
use eip_toolkit.Prelude.{ℕ, ◌≡◌, refl, false, Option, none, some, [], ◌∷◌, GoError}
use eip_toolkit.LogFilter.Log.{dedup, dedup_from, unique_key}
use eip_toolkit.LogFilter.Memory.{
  BlockPendingPool, block_pending_pool, pop_confirmed, pop_from, add, count,
}
use eip_toolkit.LogFilter.Errors.{is_rate_limit_or_range_err}
use eip_toolkit.LogFilter.Task.{
  Machine, run_once, rounds, run_round, fetch, process, deliver, batch_end,
}
use eip_toolkit.LogFilter.Tests.{id256, in_order, node, machine_with, caught_up}
use eip_toolkit.LogFilter.TaskLoop.{Looping, Turn, returned, turn, turns, task_loop}
use eip_toolkit.LogFilter.TaskLoop.Ends.{task_loop_returns}

abbrev looping : Machine BlockPendingPool → ℕ → Looping BlockPendingPool
looping m health = record {
  machine = m;
  unhealthy_start = none;
  task_health = health;
  task_unhealthy_sec = 0;
  task_live_mode = 0;
}

abbrev no_error : Option GoError
no_error = none

abbrev free_turn : Turn
free_turn = record { poll = none; fuel = 30; now = 1_000; later = 1_001; wait = none }

-- A task that is not live catches up once and returns nil.
not_live :
    task_loop id256 (block_pending_pool in_order) node (free_turn ∷ []) (looping (machine_with 4) 0)
    ≡ some (returned none, looping caught_up 0)
unfolding task_loop turns turn run_once rounds run_round fetch process deliver batch_end dedup
    dedup_from unique_key eip_toolkit.Hex.encode_to_string is_rate_limit_or_range_err pop_confirmed
    pop_from add count
not_live = refl

task_loop_returns_example :
    ((looping caught_up 0).task_health ≡ 0)
    × ((looping caught_up 0).task_unhealthy_sec ≡ 0)
    × (no_error ≡ none
        → (caught_up.task.live_mode ≡ false) × ((looping caught_up 0).unhealthy_start ≡ none))
task_loop_returns_example =
    task_loop_returns id256 (block_pending_pool in_order) node (free_turn ∷ [])
      (looping (machine_with 4) 0) (looping caught_up 0) none not_live

-- ===== src/LogFilter/Runner/System/Tests.antt =====
-- Interleavings of two goroutines and witnesses of the properties.
use eip_toolkit.Prelude.{ℕ, ◌≤◌, ◌≡◌, refl, ◌⊎◌, inl, inr, List, [], ◌∷◌, arith, Elem, All}
use eip_toolkit.LogFilter.Semaphore.{RpcSemaphore, new_rpc_semaphore, acquire, release}
use eip_toolkit.LogFilter.Runner.System.{
  Point, working, local_held, querying, ended, TaskState, Shared, HasRoom, begin, take_local,
  take_rpc, give_up, release_rpc, release_local, shut_down, here, there, new_task_runner, add_task,
  Reach, start, next,
}
use eip_toolkit.LogFilter.Runner.System.Gauges.{
  queries, local_slots, slots, in_loop, total, RunAll_counts,
}
use eip_toolkit.LogFilter.Runner.System.Slots.{IsFree, no_task_is_stuck, RunAll_leaves_no_slot}

-- Two tasks over an RPC semaphore with one slot.
abbrev one_slot : RpcSemaphore
one_slot = new_rpc_semaphore 1

abbrev two_tasks : List RpcSemaphore
two_tasks = add_task one_slot (add_task one_slot new_task_runner)

abbrev shared : ℕ → ℕ → ℕ → Shared
shared used concurrent running = record {
  rpc_sem = record { capacity = 1; in_use = used };
  rpc_concurrent = concurrent;
  task_running = running;
}

abbrev at : Point → ℕ → TaskState
at p used = record { point = p; local_sem = record { capacity = 1; in_use = used } }

both_begun : Reach one_slot two_tasks (shared 0 0 2) (at working 0 ∷ at working 0 ∷ [])
both_begun = next (next start (here (begin refl))) (there (here (begin refl)))

both_locals : Reach one_slot two_tasks (shared 0 2 2) (at local_held 1 ∷ at local_held 1 ∷ [])
unfolding acquire
both_locals =
    next (next both_begun (here (take_local refl (omega arith))))
      (there (here (take_local refl (omega arith))))

-- The first task queries the node, and the second waits.
contended : Reach one_slot two_tasks (shared 1 3 2) (at querying 1 ∷ at local_held 1 ∷ [])
unfolding acquire
contended = next both_locals (here (take_rpc refl (omega arith)))

-- The context ends: the second gives up, the first gets its answer, and both end.
first_released : Reach one_slot two_tasks (shared 0 0 2) (at working 0 ∷ at working 0 ∷ [])
unfolding release
first_released =
    next
      (next (next contended (there (here (give_up refl (omega arith)))))
        (here (release_rpc refl (omega arith))))
      (here (release_local refl (omega arith)))

both_ended : Reach one_slot two_tasks (shared 0 0 0) (at ended 0 ∷ at ended 0 ∷ [])
both_ended = next (next first_released (here (shut_down refl))) (there (here (shut_down refl)))

one_slot-IsFree : IsFree one_slot
one_slot-IsFree = (omega arith, refl)

abbrev in_use : Shared → ℕ
in_use sh = sh.rpc_sem.in_use

abbrev one_waits : List TaskState
one_waits = at querying 1 ∷ at local_held 1 ∷ []

RunAll_counts_example :
    (in_use (shared 1 3 2) ≡ total queries one_waits)
    × (total queries one_waits ≤ 1)
    × ((shared 1 3 2).task_running ≡ total in_loop one_waits)
    × ((shared 1 3 2).rpc_concurrent ≡ total slots one_waits)
RunAll_counts_example = RunAll_counts refl contended

no_task_is_stuck_example :
    (local_held ≡ querying → 1 ≤ in_use (shared 1 3 2))
    × (local_slots local_held ≡ 1 → 1 ≤ (at local_held 1).local_sem.in_use)
    × (local_held ≡ working → HasRoom (at local_held 1).local_sem)
    × (local_held ≡ local_held
        → HasRoom (shared 1 3 2).rpc_sem
          ⊎ ((u : TaskState) × Elem u one_waits × (u.point ≡ querying)))
no_task_is_stuck_example =
    no_task_is_stuck one_slot-IsFree (one_slot-IsFree, (one_slot-IsFree, tt)) contended
      (at local_held 1) (inr (inl refl))

RunAll_leaves_no_slot_example :
    (in_use (shared 0 0 0) ≡ 0)
    × ((shared 0 0 0).rpc_concurrent ≡ 0)
    × ((shared 0 0 0).task_running ≡ 0)
    × All (λ t. t.local_sem.in_use ≡ 0) (at ended 0 ∷ at ended 0 ∷ [])
RunAll_leaves_no_slot_example =
    RunAll_leaves_no_slot one_slot-IsFree (one_slot-IsFree, (one_slot-IsFree, tt)) both_ended
      (refl, (refl, tt))

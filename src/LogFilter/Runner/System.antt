-- ===== src/LogFilter/Runner/System.antt =====
-- The goroutines of `TaskRunner.RunAll` together, in any interleaving (go/logfilter/logfilter.go):
-- tasks with semaphores of their own and one RPC semaphore for all, and the two gauges that they
-- share. A step is one call that others can see.
pub mod Gauges
pub mod Slots
mod Tests
use eip_toolkit.Prelude.{ℕ, ◌+◌, ◌-◌, ◌≤◌, ◌<◌, ◌≡◌, none, List, [], ◌∷◌, ◌++◌, map}
use eip_toolkit.LogFilter.Semaphore.{RpcSemaphore, acquire, release}

-- Where a goroutine stands: outside of `TaskLoop`, in it without a slot, with its local slot, with
-- both slots while the node is asked for logs, between the two releases, or at its end.
pub data Point : Type 0 where
  outside working local_held querying rpc_released ended : Point

pub record TaskState : Type 0 where
  pub point : Point
  pub local_sem : RpcSemaphore

-- `RPCSem`, `metricRPCConcurrent` and `metricTaskRunning`.
pub record Shared : Type 0 where
  pub rpc_sem : RpcSemaphore
  pub rpc_concurrent : ℕ
  pub task_running : ℕ

-- `Acquire` of a slot that is free, and `Release`, on the gauge.
abbrev pub count_acquired : Shared → Shared
count_acquired sh = record sh { rpc_concurrent = sh.rpc_concurrent + 1 }

abbrev pub count_released : Shared → Shared
count_released sh = record sh { rpc_concurrent = sh.rpc_concurrent - 1 }

abbrev pub HasRoom : RpcSemaphore → Type 0
HasRoom s = s.in_use < s.capacity

-- A step of a goroutine. A send needs room in the channel, and a receive something in it.
pub data Move (sh : Shared) (t : TaskState) : Shared → TaskState → Type 0 where
  begin :
      t.point ≡ outside
      → Move sh t (record sh { task_running = sh.task_running + 1 }) (record t { point = working })
  take_local :
      t.point ≡ working
      → HasRoom t.local_sem
      → Move sh t
          (count_acquired sh)
          (record t { point = local_held; local_sem = (acquire none t.local_sem).1 })
  take_rpc :
      t.point ≡ local_held
      → HasRoom sh.rpc_sem
      → Move sh t
          (count_acquired (record sh { rpc_sem = (acquire none sh.rpc_sem).1 }))
          (record t { point = querying })
  -- The context ends the wait for the RPC semaphore.
  give_up :
      t.point ≡ local_held
      → 1 ≤ t.local_sem.in_use
      → Move sh t
          (count_released sh)
          (record t { point = working; local_sem = release t.local_sem })
  release_rpc :
      t.point ≡ querying
      → 1 ≤ sh.rpc_sem.in_use
      → Move sh t
          (count_released (record sh { rpc_sem = release sh.rpc_sem }))
          (record t { point = rpc_released })
  release_local :
      t.point ≡ rpc_released
      → 1 ≤ t.local_sem.in_use
      → Move sh t
          (count_released sh)
          (record t { point = working; local_sem = release t.local_sem })
  -- `TaskLoop` returns, and the task waits for its restart, or the goroutine ends.
  fail :
      t.point ≡ working
      → Move sh t (record sh { task_running = sh.task_running - 1 }) (record t { point = outside })
  shut_down :
      t.point ≡ working
      → Move sh t (record sh { task_running = sh.task_running - 1 }) (record t { point = ended })
  -- The context is done outside of `TaskLoop`.
  quit : t.point ≡ outside → Move sh t sh (record t { point = ended })

-- A step of one of the tasks.
pub data Step (sh : Shared) : List TaskState → Shared → List TaskState → Type 0 where
  here :
      {t t' : TaskState} {ts : List TaskState} {sh' : Shared}
      → Move sh t sh' t'
      → Step sh (t ∷ ts) sh' (t' ∷ ts)
  there :
      {t : TaskState} {ts ts' : List TaskState} {sh' : Shared}
      → Step sh ts sh' ts'
      → Step sh (t ∷ ts) sh' (t ∷ ts')

-- `NewTaskRunner` and `AddTask`, by the local semaphore of each task.
abbrev pub new_task_runner : List RpcSemaphore
new_task_runner = []

abbrev pub add_task : RpcSemaphore → List RpcSemaphore → List RpcSemaphore
add_task local tasks = tasks ++ local ∷ []

abbrev pub started : RpcSemaphore → TaskState
started local = record { point = outside; local_sem = local }

-- What `RunAll` starts, and the states that its goroutines come to.
pub data Reach (rpc : RpcSemaphore) (tasks : List RpcSemaphore)
    : Shared → List TaskState → Type 0 where
  start :
      Reach rpc tasks
        (record { rpc_sem = rpc; rpc_concurrent = 0; task_running = 0 })
        (map started tasks)
  next :
      {sh sh' : Shared} {ts ts' : List TaskState}
      → Reach rpc tasks sh ts
      → Step sh ts sh' ts'
      → Reach rpc tasks sh' ts'

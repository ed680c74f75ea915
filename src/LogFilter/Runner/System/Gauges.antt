-- ===== src/LogFilter/Runner/System/Gauges.antt =====
-- What the gauges and the RPC semaphore count, in every state that the goroutines of `RunAll` come
-- to (go/logfilter/logfilter.go).
use eip_toolkit.Prelude.{ℕ, ◌+◌, ◌≤◌, ◌≡◌, refl, ap, List, [], ◌∷◌, map, arith}
use eip_toolkit.LogFilter.Semaphore.{RpcSemaphore, acquire, release}
use eip_toolkit.LogFilter.Runner.System.{
  Point, outside, working, local_held, querying, rpc_released, ended, TaskState, Shared, Move,
  begin, take_local, take_rpc, give_up, release_rpc, release_local, fail, shut_down, quit, Step,
  here, there, started, Reach, start, next,
}

-- The queries that run at a point, the slots that are held there, and whether it is in `TaskLoop`.
abbrev pub queries : Point → ℕ
queries outside = 0
queries working = 0
queries local_held = 0
queries querying = 1
queries rpc_released = 0
queries ended = 0

abbrev pub local_slots : Point → ℕ
local_slots outside = 0
local_slots working = 0
local_slots local_held = 1
local_slots querying = 1
local_slots rpc_released = 1
local_slots ended = 0

abbrev pub slots : Point → ℕ
slots p = queries p + local_slots p

abbrev pub in_loop : Point → ℕ
in_loop outside = 0
in_loop working = 1
in_loop local_held = 1
in_loop querying = 1
in_loop rpc_released = 1
in_loop ended = 0

-- The sum over all tasks.
abbrev pub total : (Point → ℕ) → List TaskState → ℕ
total f [] = 0
total f (t ∷ ts) = f t.point + total f ts

total-started :
    (f : Point → ℕ) (tasks : List RpcSemaphore) → f outside ≡ 0 → total f (map started tasks) ≡ 0
total-started f [] h = refl
total-started f (l ∷ tasks) h = omega (arith, total-started f tasks h)

module _ (f : Point → ℕ) (q : Shared → ℕ) where
  -- Each move changes the shared count by as much as the count of its task.
  abbrev Balances : Type 0
  Balances =
      (sh sh' : Shared) (t t' : TaskState)
      → f t.point ≤ q sh
      → Move sh t sh' t'
      → q sh' + f t.point ≡ q sh + f t'.point

  Step-total :
      Balances
      → {sh sh' : Shared} {ts ts' : List TaskState} → total f ts ≤ q sh
      → Step sh ts sh' ts'
      → q sh' + total f ts ≡ q sh + total f ts'
  Step-total law h (here m) = let l = law _ _ _ _ (omega arith) m in omega arith
  Step-total law h (there s) = let ih = Step-total law (omega arith) s in omega arith

  Reach-total :
      Balances
      → {rpc : RpcSemaphore} {tasks : List RpcSemaphore} {sh : Shared} {ts : List TaskState}
      → f outside ≡ 0
      → q (record { rpc_sem = rpc; rpc_concurrent = 0; task_running = 0 }) ≡ 0
      → Reach rpc tasks sh ts
      → q sh ≡ total f ts
  Reach-total law {tasks} zero_f zero_q start = omega (arith, total-started f tasks zero_f)
  Reach-total law zero_f zero_q (next r s) =
      let ih = Reach-total law zero_f zero_q r in
      let l = Step-total law (omega arith) s in omega arith

-- What a move adds to the three counts, its task adds to the three sums.
Move-counts :
    {sh sh' : Shared} {t t' : TaskState}
    → Move sh t sh' t'
    → (queries t.point ≤ sh.rpc_sem.in_use
        → sh'.rpc_sem.in_use + queries t.point ≡ sh.rpc_sem.in_use + queries t'.point)
      × (slots t.point ≤ sh.rpc_concurrent
          → sh'.rpc_concurrent + slots t.point ≡ sh.rpc_concurrent + slots t'.point)
      × (in_loop t.point ≤ sh.task_running
          → sh'.task_running + in_loop t.point ≡ sh.task_running + in_loop t'.point)
unfolding acquire release
Move-counts (begin e) = ground (arith, ap queries e, ap slots e, ap in_loop e)
Move-counts (take_local e room) = ground (arith, ap queries e, ap slots e, ap in_loop e)
Move-counts (take_rpc e room) = ground (arith, ap queries e, ap slots e, ap in_loop e)
Move-counts (give_up e one) = ground (arith, ap queries e, ap slots e, ap in_loop e)
Move-counts (release_rpc e one) = ground (arith, ap queries e, ap slots e, ap in_loop e)
Move-counts (release_local e one) = ground (arith, ap queries e, ap slots e, ap in_loop e)
Move-counts (fail e) = ground (arith, ap queries e, ap slots e, ap in_loop e)
Move-counts (shut_down e) = ground (arith, ap queries e, ap slots e, ap in_loop e)
Move-counts (quit e) = ground (arith, ap queries e, ap slots e, ap in_loop e)

-- The RPC semaphore keeps its capacity and is never over it.
abbrev pub WithinCapacity : ℕ → Shared → Type 0
WithinCapacity c sh = (sh.rpc_sem.capacity ≡ c) × (sh.rpc_sem.in_use ≤ c)

Move-WithinCapacity :
    {c : ℕ} {sh sh' : Shared} {t t' : TaskState}
    → Move sh t sh' t'
    → WithinCapacity c sh
    → WithinCapacity c sh'
unfolding acquire release
Move-WithinCapacity (begin e) h = h
Move-WithinCapacity (take_local e room) h = h
Move-WithinCapacity (take_rpc e room) (same, h) = (same, omega arith)
Move-WithinCapacity (give_up e one) h = h
Move-WithinCapacity (release_rpc e one) (same, h) = (same, omega arith)
Move-WithinCapacity (release_local e one) h = h
Move-WithinCapacity (fail e) h = h
Move-WithinCapacity (shut_down e) h = h
Move-WithinCapacity (quit e) h = h

Step-WithinCapacity :
    {c : ℕ} {sh sh' : Shared} {ts ts' : List TaskState}
    → Step sh ts sh' ts'
    → WithinCapacity c sh
    → WithinCapacity c sh'
Step-WithinCapacity (here m) h = Move-WithinCapacity m h
Step-WithinCapacity (there s) h = Step-WithinCapacity s h

pub Reach-WithinCapacity :
    {rpc : RpcSemaphore} {tasks : List RpcSemaphore} {sh : Shared} {ts : List TaskState}
    → rpc.in_use ≡ 0
    → Reach rpc tasks sh ts
    → WithinCapacity rpc.capacity sh
Reach-WithinCapacity free start = (refl, omega arith)
Reach-WithinCapacity free (next r s) = Step-WithinCapacity s (Reach-WithinCapacity free r)

-- However the goroutines of `RunAll` are interleaved, with an RPC semaphore that starts free: the
-- slots in use are those of the queries that run, and never more than the capacity; the gauge of
-- running tasks is the number of tasks in `TaskLoop`; but the gauge of requests in flight is not the
-- number of queries: it counts each query twice, and each task that waits for the RPC semaphore or
-- has just released it.
pub RunAll_counts :
    {rpc : RpcSemaphore} {tasks : List RpcSemaphore} {sh : Shared} {ts : List TaskState}
    → rpc.in_use ≡ 0
    → Reach rpc tasks sh ts
    → (sh.rpc_sem.in_use ≡ total queries ts)
      × (total queries ts ≤ rpc.capacity)
      × (sh.task_running ≡ total in_loop ts)
      × (sh.rpc_concurrent ≡ total slots ts)
RunAll_counts free r =
    let q =
      Reach-total queries (λ sh. sh.rpc_sem.in_use) (λ sh sh' t t' h m. (Move-counts m).0 h) refl
        free r in
    let (same, le) = Reach-WithinCapacity free r in
    (
      q,
      omega arith,
      Reach-total in_loop (λ sh. sh.task_running) (λ sh sh' t t' h m. (Move-counts m).2 h) refl refl
          r,
      Reach-total slots (λ sh. sh.rpc_concurrent) (λ sh sh' t t' h m. (Move-counts m).1 h) refl refl
          r,
    )

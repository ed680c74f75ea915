-- ===== src/LogFilter/Runner/System/Slots.antt =====
-- That no goroutine of `RunAll` waits in vain for a semaphore, and that none is left with a slot
-- (go/logfilter/logfilter.go).
use eip_toolkit.Prelude.{
  ℕ, ◌≤◌, ◌≡◌, refl, sym, ap, ◌∙◌, subst, ◌⊎◌, inl, inr, List, [], ◌∷◌, map, arith, ltb, ltb→lt,
  Bool-cases, Elem, All,
}
use eip_toolkit.LogFilter.Semaphore.{RpcSemaphore, acquire, release}
use eip_toolkit.LogFilter.Runner.System.{
  Point, outside, working, local_held, querying, rpc_released, ended, TaskState, Shared, HasRoom,
  Move, begin, take_local, take_rpc, give_up, release_rpc, release_local, fail, shut_down, quit,
  Step, here, there, started, Reach, start, next,
}
use eip_toolkit.LogFilter.Runner.System.Gauges.{
  queries, local_slots, slots, in_loop, total, RunAll_counts, Reach-WithinCapacity,
}

-- The local semaphore of a task has room for a slot, and has the slot of its task.
abbrev pub IsLocal : TaskState → Type 0
IsLocal t = (1 ≤ t.local_sem.capacity) × (t.local_sem.in_use ≡ local_slots t.point)

abbrev pub IsFree : RpcSemaphore → Type 0
IsFree s = (1 ≤ s.capacity) × (s.in_use ≡ 0)

started-IsLocal : (tasks : List RpcSemaphore) → All IsFree tasks → All IsLocal (map started tasks)
started-IsLocal [] h = tt
started-IsLocal (l ∷ tasks) (h, hs) = (h, started-IsLocal tasks hs)

Move-IsLocal : {sh sh' : Shared} {t t' : TaskState} → Move sh t sh' t' → IsLocal t → IsLocal t'
unfolding acquire release
Move-IsLocal (begin e) h = ground (arith, ap local_slots e)
Move-IsLocal (take_local e room) h = ground (arith, ap local_slots e)
Move-IsLocal (take_rpc e room) h = ground (arith, ap local_slots e)
Move-IsLocal (give_up e one) h = ground (arith, ap local_slots e)
Move-IsLocal (release_rpc e one) h = ground (arith, ap local_slots e)
Move-IsLocal (release_local e one) h = ground (arith, ap local_slots e)
Move-IsLocal (fail e) h = ground (arith, ap local_slots e)
Move-IsLocal (shut_down e) h = ground (arith, ap local_slots e)
Move-IsLocal (quit e) h = ground (arith, ap local_slots e)

Step-IsLocal :
    {sh sh' : Shared} {ts ts' : List TaskState}
    → Step sh ts sh' ts'
    → All IsLocal ts
    → All IsLocal ts'
Step-IsLocal (here m) (h, hs) = (Move-IsLocal m h, hs)
Step-IsLocal (there s) (h, hs) = (h, Step-IsLocal s hs)

Reach-IsLocal :
    {rpc : RpcSemaphore} {tasks : List RpcSemaphore} {sh : Shared} {ts : List TaskState}
    → All IsFree tasks
    → Reach rpc tasks sh ts
    → All IsLocal ts
Reach-IsLocal {tasks} free start = started-IsLocal tasks free
Reach-IsLocal free (next r s) = Step-IsLocal s (Reach-IsLocal free r)

All-Elem : {A : Type 0} (P : A → Type 0) (xs : List A) (x : A) → All P xs → Elem x xs → P x
All-Elem P [] x h m = elim m [ ]
All-Elem P (y ∷ xs) x (h, hs) (inl e) = subst P (sym e) h
All-Elem P (y ∷ xs) x (h, hs) (inr m) = All-Elem P xs x hs m

total-Elem :
    (f : Point → ℕ) (ts : List TaskState) (t : TaskState) → Elem t ts → f t.point ≤ total f ts
total-Elem f [] t m = elim m [ ]
total-Elem f (u ∷ ts) t (inl e) = let same = ap (λ (x : TaskState). f x.point) e in omega arith
total-Elem f (u ∷ ts) t (inr m) = omega (arith, total-Elem f ts t m)

-- Where queries run, there is a task that runs one.
querying_task :
    (ts : List TaskState)
    → 1 ≤ total queries ts
    → (u : TaskState) × Elem u ts × (u.point ≡ querying)
querying_task [] h = absurd (omega arith)
querying_task (t ∷ ts) h = elim (is_querying t.point) [
  | inl e ↦ (t, inl refl, e)
  | inr none_here ↦ let (u, m, e) = querying_task ts (omega arith) in (u, inr m, e)
]
  where
    is_querying : (p : Point) → (p ≡ querying) ⊎ (queries p ≡ 0)
    is_querying outside = inr refl
    is_querying working = inr refl
    is_querying local_held = inr refl
    is_querying querying = inl refl
    is_querying rpc_released = inr refl
    is_querying ended = inr refl

-- No task waits in vain, with semaphores that start free and have room: a `Release` finds the slot
-- that it takes out, a task that begins a round finds its local semaphore free, and a task that
-- waits for the RPC semaphore finds it free, or else another task is querying the node, which
-- releases it.
pub no_task_is_stuck :
    {rpc : RpcSemaphore} {tasks : List RpcSemaphore} {sh : Shared} {ts : List TaskState}
    → IsFree rpc
    → All IsFree tasks
    → Reach rpc tasks sh ts
    → (t : TaskState) → Elem t ts
    → (t.point ≡ querying → 1 ≤ sh.rpc_sem.in_use)
      × (local_slots t.point ≡ 1 → 1 ≤ t.local_sem.in_use)
      × (t.point ≡ working → HasRoom t.local_sem)
      × (t.point ≡ local_held
          → HasRoom sh.rpc_sem ⊎ ((u : TaskState) × Elem u ts × (u.point ≡ querying)))
no_task_is_stuck {sh} {ts} (room, free) locals r t m = (full, taken, found, waits)
  where
    counted : sh.rpc_sem.in_use ≡ total queries ts
    counted = (RunAll_counts free r).0

    local : IsLocal t
    local = All-Elem IsLocal ts t (Reach-IsLocal locals r) m

    full : t.point ≡ querying → 1 ≤ sh.rpc_sem.in_use
    full e = let one = total-Elem queries ts t m in omega (arith, counted, ap queries e)

    taken : local_slots t.point ≡ 1 → 1 ≤ t.local_sem.in_use
    taken e = omega (arith, local.1)

    found : t.point ≡ working → HasRoom t.local_sem
    found e = omega (arith, local.0, local.1, ap local_slots e)

    waits :
        t.point ≡ local_held
        → HasRoom sh.rpc_sem ⊎ ((u : TaskState) × Elem u ts × (u.point ≡ querying))
    waits e = elim (Bool-cases (ltb sh.rpc_sem.in_use sh.rpc_sem.capacity)) [
      | inl yes_room ↦ inl (ltb→lt _ _ yes_room)
      | inr no_room ↦
          let (same, le) = Reach-WithinCapacity free r in
          let used : 1 ≤ sh.rpc_sem.in_use = ground arith in
          inr (querying_task ts (omega (arith, counted)))
    ]

abbrev pub HasEnded : TaskState → Type 0
HasEnded t = t.point ≡ ended

total-HasEnded :
    (f : Point → ℕ) (ts : List TaskState) → f ended ≡ 0 → All HasEnded ts → total f ts ≡ 0
total-HasEnded f [] z h = refl
total-HasEnded f (t ∷ ts) z (h, hs) = omega (arith, ap f h, total-HasEnded f ts z hs)

ended_locals :
    (ts : List TaskState) → All HasEnded ts → All IsLocal ts → All (λ t. t.local_sem.in_use ≡ 0) ts
ended_locals [] h k = tt
ended_locals (t ∷ ts) (h, hs) ((c, k), ks) =
    (omega (arith, ap local_slots h), ended_locals ts hs ks)

-- When `RunAll` returns, which is when all its goroutines have ended, no slot of any semaphore is
-- left in use and the gauges of running tasks and of requests in flight are 0 again; the semaphores
-- start free.
pub RunAll_leaves_no_slot :
    {rpc : RpcSemaphore} {tasks : List RpcSemaphore} {sh : Shared} {ts : List TaskState}
    → IsFree rpc
    → All IsFree tasks
    → Reach rpc tasks sh ts
    → All HasEnded ts
    → (sh.rpc_sem.in_use ≡ 0)
      × (sh.rpc_concurrent ≡ 0)
      × (sh.task_running ≡ 0)
      × All (λ t. t.local_sem.in_use ≡ 0) ts
RunAll_leaves_no_slot {ts} (room, free) locals r h =
    let (q, le, l, s) = RunAll_counts free r in
    (
      q ∙ total-HasEnded queries ts refl h,
      s ∙ total-HasEnded slots ts refl h,
      l ∙ total-HasEnded in_loop ts refl h,
      ended_locals ts h (Reach-IsLocal locals r),
    )

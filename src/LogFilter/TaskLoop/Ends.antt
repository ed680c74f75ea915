-- ===== src/LogFilter/TaskLoop/Ends.antt =====
-- How `TaskLoop` ends, and what holds of the task behind it (go/logfilter/logfilter.go).
use eip_toolkit.LogFilter.Task.Slots.{run_once_releases}
use eip_toolkit.Prelude.{
  ℕ, ◌≡◌, refl, sym, ap, ◌∙◌, subst, some_eq, ◌⊎◌, inl, inr, Bool, false, Option, none, some, List,
  [], ◌∷◌, arith, Option-cases, some_eq, Bytes, GoError, Result, ok, err,
}
use eip_toolkit.LogFilter.Pool.{PendingPool, IsPendingPool}
use eip_toolkit.LogFilter.Task.{Machine, Env, run_once}
use eip_toolkit.LogFilter.TaskLoop.{
  Looping, Turn, LoopEnd, running, returned, close, turn, turns, task_loop,
}

module _ {S : Type 0} (sum256 : Bytes → Bytes) (pools : PendingPool S) where
  -- What a turn gives: the machine is as it was, or as `RunOnce` left it.
  turn_machine :
      (env : Env) (t : Turn) (s s' : Looping S) (q : LoopEnd)
      → turn sum256 pools env t s ≡ some (q, s')
      → (s'.machine ≡ s.machine)
        ⊎ ((r : Result Bool) × (run_once sum256 pools t.fuel env s.machine ≡ some (r, s'.machine)))
  unfolding turn
  turn_machine env t s s' q h = elim (Option-cases t.poll) [
    | inr (e, p) ↦ inl (ground arith)
    | inl p ↦ elim (Option-cases (run_once sum256 pools t.fuel env s.machine)) [
      | inl none' ↦ ground arith
      | inr ((err e, m), ran) ↦ inr (err e, ground arith)
      | inr ((ok b, m), ran) ↦ inr (ok b, ground arith)
    ]
  ]

  module _ (env : Env) (P : Machine S → Type 0)
      (keeps : (fuel : ℕ) (m m' : Machine S) (r : Result Bool)
        → P m
        → run_once sum256 pools fuel env m ≡ some (r, m')
        → P m') where
    turn_keeps :
        (t : Turn) (s s' : Looping S) (q : LoopEnd)
        → P s.machine
        → turn sum256 pools env t s ≡ some (q, s')
        → P s'.machine
    turn_keeps t s s' q p h = elim (turn_machine env t s s' q h) [
      | inl same ↦ subst P (sym same) p
      | inr (r, ran) ↦ keeps t.fuel s.machine s'.machine r p ran
    ]

    turns_keep :
        (ts : List Turn) (s s' : Looping S) (q : LoopEnd)
        → P s.machine
        → turns sum256 pools env ts s ≡ some (q, s')
        → P s'.machine
    unfolding turns
    turns_keep [] s s' q p h = subst (λ (x : Looping S). P x.machine) (ap (λ r. r.1) (some_eq h)) p
    turns_keep (t ∷ ts) s s' q p h = elim (Option-cases (turn sum256 pools env t s)) [
      | inl stuck ↦ ground arith
      | inr ((returned e, s₁), at) ↦
          let here = turn_keeps t s s₁ (returned e) p at in
          let same : s₁ ≡ s' = ground arith in subst (λ (x : Looping S). P x.machine) same here
      | inr ((running, s₁), at) ↦
          turns_keep ts s₁ s' q (turn_keeps t s s₁ running p at) (ground arith)
    ]

  close_lem :
      (q : LoopEnd) (s : Looping S) (e : Option GoError) (s' : Looping S)
      → close (q, s) ≡ (returned e, s')
      → (s'.machine ≡ s.machine)
        × (s'.task_health ≡ 0)
        × (s'.task_unhealthy_sec ≡ 0)
        × (s'.unhealthy_start ≡ s.unhealthy_start)
  close_lem running s e s' h = ground arith
  close_lem (returned e') s e s' h = ground arith

  task_loop-turns :
      (env : Env) (ts : List Turn) (s s' : Looping S) (e : Option GoError)
      → task_loop sum256 pools env ts s ≡ some (returned e, s')
      → (s'' : Looping S) × (turns sum256 pools env ts (record s { task_health = 1 })
          ≡ some (returned e, s''))
        × (close (returned e, s'') ≡ (returned e, s'))
  unfolding task_loop
  task_loop-turns env ts s s' e h =
      elim (Option-cases (turns sum256 pools env ts (record s { task_health = 1 }))) [
        | inl stuck ↦ ground arith
        | inr ((running, s₁), at) ↦ ground arith
        | inr ((returned e', s₁), at) ↦
            let same : e' ≡ e = ground arith in
            (s₁, at ∙ ap (λ x. some (returned x, s₁)) same, ground arith)
      ]

  turn_nil :
      (env : Env) (t : Turn) (s s' : Looping S)
      → turn sum256 pools env t s ≡ some (returned none, s')
      → (s'.machine.task.live_mode ≡ false) × (s'.unhealthy_start ≡ none)
  unfolding turn
  turn_nil env t s s' h = elim (Option-cases t.poll) [
    | inr (e, p) ↦ ground arith
    | inl p ↦ elim (Option-cases (run_once sum256 pools t.fuel env s.machine)) [
      | inl none' ↦ ground arith
      | inr ((err e, m), ran) ↦ ground arith
      | inr ((ok b, m), ran) ↦ elim (Option-cases t.wait) [
        | inl w ↦ ground arith
        | inr (e, w) ↦ ground arith
      ]
    ]
  ]

  turns_nil :
      (env : Env) (ts : List Turn) (s s' : Looping S)
      → turns sum256 pools env ts s ≡ some (returned none, s')
      → (s'.machine.task.live_mode ≡ false) × (s'.unhealthy_start ≡ none)
  unfolding turns
  turns_nil env [] s s' h = ground arith
  turns_nil env (t ∷ ts) s s' h = elim (Option-cases (turn sum256 pools env t s)) [
    | inl stuck ↦ ground arith
    | inr ((returned e, s₁), at) ↦ turn_nil env t s s' (at ∙ ground arith)
    | inr ((running, s₁), at) ↦ turns_nil env ts s₁ s' (ground arith)
  ]

  -- Whenever `TaskLoop` returns, the gauges of health and of unhealthy seconds are 0: also behind an
  -- error of `RunOnce`, whose seconds were set just before. It returns nil only for a task that is
  -- not live, and then the task is not unhealthy.
  pub task_loop_returns :
      (env : Env) (ts : List Turn) (s s' : Looping S) (e : Option GoError)
      → task_loop sum256 pools env ts s ≡ some (returned e, s')
      → (s'.task_health ≡ 0)
        × (s'.task_unhealthy_sec ≡ 0)
        × (e ≡ none → (s'.machine.task.live_mode ≡ false) × (s'.unhealthy_start ≡ none))
  task_loop_returns env ts s s' e h =
      let (s'', runs, closes) = task_loop-turns env ts s s' e h in
      let (same, health, sec, start) = close_lem (returned e) s'' e s' closes in
      (
        health,
        sec,
        λ nil.
            (let n = turns_nil env ts _ s'' (runs ∙ ap (λ x. some (returned x, s'')) nil) in
              (ap (λ (m : Machine S). m.task.live_mode) same ∙ n.0, start ∙ n.1)),
      )

  -- Over a pool that keeps the interface's laws, `TaskLoop` returns with as many slots of both
  -- semaphores in use as it started with, after any number of rounds and by whatever error.
  pub task_loop_releases :
      (laws : IsPendingPool pools) (env : Env) (ts : List Turn) (s s' : Looping S)
      (e : Option GoError)
      → task_loop sum256 pools env ts s ≡ some (returned e, s')
      → (s'.machine.local_sem ≡ s.machine.local_sem) × (s'.machine.rpc_sem ≡ s.machine.rpc_sem)
  task_loop_releases laws env ts s s' e h =
      let (s'', runs, closes) = task_loop-turns env ts s s' e h in
      let (same, health, sec, start) = close_lem (returned e) s'' e s' closes in
      let (l, r) =
        turns_keep env (λ m. (m.local_sem ≡ s.machine.local_sem) × (m.rpc_sem ≡ s.machine.rpc_sem))
          (λ fuel m m' q held ran.
            let now = run_once_releases sum256 pools laws env fuel m q m' ran in
            (now.0 ∙ held.0, now.1 ∙ held.1))
          ts (record s { task_health = 1 }) s'' (returned e) (refl, refl) runs in
      (ap (λ (m : Machine S). m.local_sem) same ∙ l, ap (λ (m : Machine S). m.rpc_sem) same ∙ r)

-- ===== src/LogFilter/Task/Slots.antt =====
-- The slots of the two semaphores.
use eip_toolkit.Prelude.{
  ℕ, ◌≡◌, refl, ◌∙◌, inl, inr, Bool, some, arith, ltb, Bool-cases, Bytes, Result, Result-cases,
}
use eip_toolkit.LogFilter.Semaphore.{RpcSemaphore}
use eip_toolkit.LogFilter.Pool.{PendingPool, IsPendingPool}
use eip_toolkit.LogFilter.Task.{Machine, Env, run_once, run_round, count_ok}
use eip_toolkit.LogFilter.Task.Round.{round_frame}
use eip_toolkit.LogFilter.Task.Loop.{rounds_inv}

module _ {S : Type 0} (sum256 : Bytes → Bytes) (pools : PendingPool S)
    (laws : IsPendingPool pools) where
  abbrev SameSlots : RpcSemaphore → RpcSemaphore → Machine S → Type 0
  SameSlots local rpc m = (m.local_sem ≡ local) × (m.rpc_sem ≡ rpc)

  SameSlots-step :
      (env : Env) (latest : ℕ) (local rpc : RpcSemaphore) (from : ℕ) (m : Machine S)
      → SameSlots local rpc m
      → SameSlots local rpc (run_round sum256 pools env latest from m).1
  SameSlots-step env latest local rpc from m (l, r) =
      let frame = round_frame sum256 pools laws env latest from m in (frame.0 ∙ l, frame.1 ∙ r)

  -- However a call of `RunOnce` ends, by an error or not, both semaphores have as many slots in use
  -- as before it.
  pub run_once_releases :
      (env : Env) (fuel : ℕ) (m : Machine S) (r : Result Bool) (m' : Machine S)
      → run_once sum256 pools fuel env m ≡ some (r, m')
      → (m'.local_sem ≡ m.local_sem) × (m'.rpc_sem ≡ m.rpc_sem)
  unfolding run_once
  run_once_releases env fuel m r m' h = elim (Result-cases (env.block_number m.round)) [
    | inr (e, bad) ↦ ground arith
    | inl (latest, good) ↦ elim (Bool-cases (ltb latest m.task.checkpoint)) [
      | inl past ↦ ground arith
      | inr behind ↦
          rounds_inv sum256 pools env latest (λ from x. SameSlots m.local_sem m.rpc_sem x)
            (λ q x. SameSlots m.local_sem m.rpc_sem x)
            (λ from x next le s e. SameSlots-step env latest m.local_sem m.rpc_sem from x s)
            (λ from x lt s. s)
            (λ from x f le s e. SameSlots-step env latest m.local_sem m.rpc_sem from x s) fuel
            m.task.checkpoint (count_ok m) r m' (refl, refl) (ground arith)
    ]
  ]

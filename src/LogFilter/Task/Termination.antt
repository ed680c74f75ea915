-- ===== src/LogFilter/Task/Termination.antt =====
-- `RunOnce` ends: the fuel that is enough for its loop.
use eip_toolkit.Prelude.{
  ℕ, ◌+◌, ◌-◌, ◌<◌, ◌≡◌, inl, inr, Bool, true, some, ltb, Bool-cases, Bytes, Result, ok,
}
use eip_toolkit.LogFilter.Pool.{PendingPool, IsPendingPool}
use eip_toolkit.LogFilter.Task.{Machine, Env, run_once, count_ok, next_round}
use eip_toolkit.LogFilter.Task.Loop.{IsSized, IsReady, rounds_ends, round_keeps}

module _ {S : Type 0} (sum256 : Bytes → Bytes) (pools : PendingPool S)
    (laws : IsPendingPool pools) where
  open laws use {IsValid}

  -- Whatever the node, the handler, the store and the context answer, `RunOnce` returns, where the
  -- batch size is positive and the head and the batch size together fit 64 bits: one round for each
  -- block up to the head, and one for each step down of the batch size, are enough.
  pub run_once_returns :
      (env : Env) (latest fuel : ℕ) (m : Machine S)
      → env.block_number m.round ≡ ok latest
      → IsValid m.pool
      → IsSized latest m
      → latest + 1 - m.task.checkpoint + m.task.batch_size < fuel
      → (r : Result Bool) × (m' : Machine S) × (run_once sum256 pools fuel env m ≡ some (r, m'))
  unfolding run_once
  run_once_returns env latest fuel m e v z enough =
      elim (Bool-cases (ltb latest m.task.checkpoint)) [
        | inl past ↦ (ok true, next_round (count_ok m), rw (e, run_once) (rw past))
        | inr behind ↦
            let (r, m', runs) =
              rounds_ends sum256 pools env latest (λ from x. IsReady sum256 pools laws latest x)
                (λ from x. latest + 1 - from + x.task.batch_size)
                (λ from x next le p h. round_keeps sum256 pools laws env latest from x next le p h)
                fuel m.task.checkpoint (count_ok m)
                (v, record { positive = z.positive; fits = z.fits }) enough in
            (r, m', rw (e, run_once) (rw behind runs))
      ]

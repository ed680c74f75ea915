-- ===== src/LogFilter/Task/Failed.antt =====
-- What a round leaves behind when the handler fails.
use eip_toolkit.Prelude.{
  ℕ, ◌<◌, ◌≡◌, refl, ◌∙◌, true, none, some, List, ◌∷◌, arith, u64_mod, Bytes, codes, GoError, wrap,
  ok,
}
use eip_toolkit.LogFilter.Log.{LogResult, dedup}
use eip_toolkit.LogFilter.Pool.{PendingPool, IsPendingPool, is_confirmed}
use eip_toolkit.LogFilter.Task.{Machine, Env, deliver, process}
use eip_toolkit.LogFilter.Task.Process.{taken, after_pool, process_lem, stays_lem}

failed_deliver :
    {S : Type 0} (env : Env) (end : ℕ) (l : LogResult) (ready : List LogResult) (m : Machine S)
    (e : GoError)
    → env.handle_batch m.round (l ∷ ready) ≡ some e
    → deliver env end (l ∷ ready) m ≡ (some (wrap (codes "batch handler: ") e), m)
unfolding deliver
failed_deliver env end l ready m e h = rw (h, deliver) refl

module _ {S : Type 0} (sum256 : Bytes → Bytes) (pools : PendingPool S)
    (laws : IsPendingPool pools) where
  open laws use {IsValid, Held}

  -- When the handler fails, the logs that it was to get are gone: over any pool that keeps the
  -- interface's laws, the round returns the handler's error, nothing counts as handed out, the
  -- checkpoint stays, but every log under a confirmed height has left the pool, also those that it
  -- held from earlier batches.
  pub failed_handler_loses_logs :
      (env : Env) (latest from end : ℕ) (logs : List LogResult) (m : Machine S) (l₀ : LogResult)
      (ready : List LogResult) (e : GoError)
      → from < u64_mod
      → IsValid m.pool
      → (pools.add from (dedup sum256 logs) m.pool).0 ≡ none
      → (pools.pop_confirmed latest m.task.confirm_block_num
          (pools.add from (dedup sum256 logs) m.pool).1).0
        ≡ ok (l₀ ∷ ready)
      → env.handle_batch m.round (l₀ ∷ ready) ≡ some e
      → let t = process sum256 pools env latest from end logs m in
        (t.0 ≡ some (wrap (codes "batch handler: ") e))
        × (t.1.trace ≡ m.trace)
        × (t.1.task.checkpoint ≡ m.task.checkpoint)
        × ((j : ℕ) (l : LogResult)
            → is_confirmed latest m.task.confirm_block_num j ≡ true
            → ¬ Held t.1.pool j l)
  failed_handler_loses_logs env latest from end logs m l₀ ready e fits v ea et h =
      let same =
        process_lem sum256 pools laws env latest from end logs m (l₀ ∷ ready) ea et
        ∙ failed_deliver env end l₀ ready (after_pool sum256 pools laws env latest from end logs m)
            e h in
      rw same (refl, refl, refl, gone)
    where
      gone :
          (j : ℕ) (l : LogResult)
          → is_confirmed latest m.task.confirm_block_num j ≡ true
          → ¬ Held (taken sum256 pools laws env latest from end logs m).1 j l
      gone j l conf held =
          let (with, early) =
            (stays_lem sum256 pools laws env latest from end logs m (l₀ ∷ ready) fits v ea et j l).0
              held in
          ground arith

-- ===== src/LogFilter/Task/Early.antt =====
-- A batch counts as confirmed when its first block is.
use eip_toolkit.Prelude.{
  ℕ, ◌<◌, ◌≡◌, refl, subst, inl, inr, true, none, List, ◌∷◌, u64_mod, Elem, Bytes,
}
use eip_toolkit.LogFilter.Log.{LogResult, dedup}
use eip_toolkit.LogFilter.Pool.{PendingPool, IsPendingPool, is_confirmed}
use eip_toolkit.LogFilter.Task.{Machine, Env, process, saved, delivered}
use eip_toolkit.LogFilter.Task.Process.{process_ok}

module _ {S : Type 0} (sum256 : Bytes → Bytes) (pools : PendingPool S)
    (laws : IsPendingPool pools) where
  open laws use {IsValid}

  -- A whole batch goes out once its first block is confirmed: where a round that fetches a batch from
  -- a confirmed 64-bit block succeeds, over any pool that keeps the interface's laws, it hands out,
  -- in one call of the handler, each log of the batch but for duplicates, whatever the log's own
  -- block is, so also where that block is not confirmed; and the end of the batch is saved.
  pub whole_batch_goes_out :
      (env : Env) (latest from end : ℕ) (logs : List LogResult) (m : Machine S) (l : LogResult)
      → from < u64_mod
      → IsValid m.pool
      → (process sum256 pools env latest from end logs m).0 ≡ none
      → is_confirmed latest m.task.confirm_block_num from ≡ true
      → Elem l (dedup sum256 logs)
      → (ready : List LogResult) × Elem l ready
        × ((process sum256 pools env latest from end logs m).1.trace
            ≡ saved end ∷ delivered ready ∷ m.trace)
  whole_batch_goes_out env latest from end logs m l fits v h c here =
      let p = process_ok sum256 pools laws env latest from end logs m fits v h in
      let out = (p.goes l).1 (from, inl (refl, here), c) in
      elim p.delivers [
        | inl (nothing, trace, same) ↦ absurd (subst (Elem l) nothing out)
        | inr (trace, moved) ↦ (p.ready, out, trace)
      ]

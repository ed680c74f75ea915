-- ===== src/LogFilter/Task/Fetch.antt =====
-- The first half of a round.
use eip_toolkit.Prelude.{ℕ, ◌/◌, ◌≤◌, ◌≡◌, List, ◌∷◌, arith, ok}
use eip_toolkit.LogFilter.Log.{LogResult}
use eip_toolkit.LogFilter.Task.{Machine, FetchEnd, Env, got, shrunk, fetched, fetch, batch_end}

module _ {S : Type 0} (env : Env) (latest current_start : ℕ) (m : Machine S) where
  abbrev pub fetch_result : FetchEnd × Machine S
  fetch_result = fetch env latest current_start m

  pub fetch_frame :
      (fetch_result.1.local_sem ≡ m.local_sem)
      × (fetch_result.1.rpc_sem ≡ m.rpc_sem)
      × (fetch_result.1.pool ≡ m.pool)
      × (fetch_result.1.task.checkpoint ≡ m.task.checkpoint)
      × (fetch_result.1.task.confirm_block_num ≡ m.task.confirm_block_num)
  unfolding fetch
  fetch_frame = ground arith

  pub fetch_got :
      (logs : List LogResult) (end : ℕ)
      → fetch_result.0 ≡ got logs end
      → (end ≡ batch_end latest current_start m.task.batch_size)
        × (fetch_result.1.task ≡ m.task)
        × (fetch_result.1.trace ≡ fetched current_start end logs ∷ m.trace)
        × (env.eth_get_logs m.round current_start end m.task.address m.task.topics ≡ ok logs)
  unfolding fetch
  fetch_got logs end e = ground arith

  pub fetch_shrunk :
      fetch_result.0 ≡ shrunk
      → (fetch_result.1.task ≡ record (m.task) { batch_size = m.task.batch_size / 2 })
        × (1 ≤ fetch_result.1.task.batch_size)
        × (fetch_result.1.trace ≡ m.trace)
  unfolding fetch
  fetch_shrunk e = ground arith

-- ===== src/LogFilter/Task/Shrinking.antt =====
-- The batch size on an error of the node, and what a batch size of zero does.
use eip_toolkit.LogFilter.Task.Loop.{rounds_more}
use eip_toolkit.LogFilter.Errors.{is_rate_limit_or_range_err}
use eip_toolkit.Prelude.{
  ℕ, zero, suc, ◌≤◌, ◌<◌, ◌≡◌, refl, ◌∙◌, true, false, none, some, List, [], ◌∷◌, arith, u64_mod,
  add64, ltb, Bytes, codes, GoError, wrap, Result, ok, err,
}
use eip_toolkit.LogFilter.Log.{LogResult}
use eip_toolkit.LogFilter.Memory.{
  BlockPendingPool, IterationOrder, block_pending_pool, add, pop_confirmed, count,
}
use eip_toolkit.LogFilter.Task.{
  Machine, Env, got, fetch, process, deliver, run_once, rounds, run_round, count_ok, batch_end,
  set_pending, failed,
}

-- An environment in which nothing fails and nothing is cancelled.
pub record AllGood (env : Env) : Type 0 where
  pub not_cancelled : (k : ℕ) → env.cancelled k ≡ none
  pub local_free : (k : ℕ) → env.acquire_local k ≡ none
  pub rpc_free : (k : ℕ) → env.acquire_rpc k ≡ none
  pub answers :
      (k from end : ℕ) (address : List Bytes) (topics : List (List Bytes))
      → (logs : List LogResult) × (env.eth_get_logs k from end address topics ≡ ok logs)
  pub handles : (k : ℕ) (logs : List LogResult) → env.handle_batch k logs ≡ none
  pub saves : (k n : ℕ) → env.save k n ≡ none

-- With an empty batch the end of the range is the block before its start, and the next round starts
-- where this one did.
pub batch_end_zero :
    (latest from : ℕ)
    → 1 ≤ from
    → from ≤ latest
    → latest < u64_mod
    → add64 (batch_end latest from 0) 1 ≡ from
unfolding batch_end
batch_end_zero latest from pos le fits = ground arith

deliver_good :
    {S : Type 0} (env : Env) (end : ℕ) (ready : List LogResult) (m : Machine S)
    → AllGood env
    → ((deliver env end ready m).0 ≡ none)
      × ((deliver env end ready m).1.task.batch_size ≡ m.task.batch_size)
unfolding deliver
deliver_good env end [] m g = (refl, refl)
deliver_good env end (l ∷ ready) m g =
    ground (arith, g.handles m.round (l ∷ ready), g.saves m.round end)

fetch_good :
    {S : Type 0} (env : Env) (latest from : ℕ) (m : Machine S)
    → AllGood env
    → (logs : List LogResult) × ((fetch env latest from m).0
        ≡ got logs (batch_end latest from m.task.batch_size))
      × ((fetch env latest from m).1.task ≡ m.task)
unfolding fetch
fetch_good env latest from m g =
    let (logs, e) =
      g.answers m.round from (batch_end latest from m.task.batch_size) m.task.address
        m.task.topics in
    (
      logs,
      ground (arith, e, g.not_cancelled m.round, g.local_free m.round, g.rpc_free m.round),
      ground (arith, e, g.not_cancelled m.round, g.local_free m.round, g.rpc_free m.round),
    )

set_pending_task : {S : Type 0} (r : Result ℕ) (m : Machine S) → (set_pending r m).task ≡ m.task
set_pending_task (ok n) m = refl
set_pending_task (err e) m = refl

module _ (sum256 : Bytes → Bytes) (order : IterationOrder) (env : Env) (g : AllGood env)
    (latest : ℕ) where
  process_good :
      (from end : ℕ) (logs : List LogResult) (m : Machine BlockPendingPool)
      → ((process sum256 (block_pending_pool order) env latest from end logs m).0 ≡ none)
        × ((process sum256 (block_pending_pool order) env latest from end logs m).1.task.batch_size
            ≡ m.task.batch_size)
  unfolding process add pop_confirmed
  process_good from end logs m = deliver_good env end _ _ g

  round_stuck :
      (from : ℕ) (m : Machine BlockPendingPool)
      → 1 ≤ from
      → from ≤ latest
      → latest < u64_mod
      → m.task.batch_size ≡ 0
      → ((run_round sum256 (block_pending_pool order) env latest from m).0 ≡ ok from)
        × ((run_round sum256 (block_pending_pool order) env latest from m).1.task.batch_size ≡ 0)
  unfolding run_round
  round_stuck from m pos le fits empty =
      let (logs, e, same) = fetch_good env latest from m g in
      let end = batch_end latest from m.task.batch_size in
      let first = (fetch env latest from m).1 in
      let second = process sum256 (block_pending_pool order) env latest from end logs first in
      let good = process_good from end logs first in
      let again : add64 end 1 ≡ from = rw empty (batch_end_zero latest from pos le fits) in
      ground (arith, e, same, good, again, set_pending_task (count second.1.pool) second.1)

  rounds_stuck :
      (fuel from : ℕ) (m : Machine BlockPendingPool)
      → 1 ≤ from
      → from ≤ latest
      → latest < u64_mod
      → m.task.batch_size ≡ 0
      → rounds sum256 (block_pending_pool order) fuel env latest from m ≡ none
  rounds_stuck zero from m pos le fits empty = unfold rounds in refl
  rounds_stuck (suc fuel) from m pos le fits empty =
      let stuck = round_stuck from m pos le fits empty in
      rounds_more sum256 (block_pending_pool order) env latest fuel from m from le stuck.0
      ∙ rounds_stuck fuel from _ pos le fits stuck.1

  -- Once the batch size is zero `RunOnce` over the in-memory pool never returns, on any fuel: where
  -- nothing fails and the checkpoint is neither block 0 nor past a 64-bit head, each round asks for
  -- the empty range before the same block.
  pub run_once_stuck :
      (fuel : ℕ) (m : Machine BlockPendingPool)
      → env.block_number m.round ≡ ok latest
      → 1 ≤ m.task.checkpoint
      → m.task.checkpoint ≤ latest
      → latest < u64_mod
      → m.task.batch_size ≡ 0
      → run_once sum256 (block_pending_pool order) fuel env m ≡ none
  unfolding run_once
  run_once_stuck fuel m e pos le fits empty =
      let behind : ltb latest m.task.checkpoint ≡ false = ground arith in
      rw (e, run_once)
        (rw behind (rounds_stuck fuel m.task.checkpoint (count_ok m) pos le fits empty))

-- A batch of one block that the node refuses with a range error ends the call, and the batch size
-- that the task is left with is zero.
pub refused_at_one :
    {S : Type 0} (env : Env) (latest from : ℕ) (m : Machine S) (e : GoError)
    → m.task.batch_size ≡ 1
    → env.cancelled m.round ≡ none
    → env.acquire_local m.round ≡ none
    → env.acquire_rpc m.round ≡ none
    → env.eth_get_logs m.round from (batch_end latest from 1) m.task.address m.task.topics ≡ err e
    → is_rate_limit_or_range_err (some e) ≡ true
    → ((fetch env latest from m).0 ≡ failed (wrap (codes "batch reduced to 1, still failing: ") e))
      × ((fetch env latest from m).1.task.batch_size ≡ 0)
unfolding fetch
refused_at_one env latest from m e one c a b answer range = ground arith

-- ===== src/LogFilter/Task/Tests.antt =====
-- Two polls at the head of the chain, and the witness of what they query.
use eip_toolkit.LogFilter.Pool.{is_confirmed}
use eip_toolkit.LogFilter.Task.Failed.{failed_handler_loses_logs}
use eip_toolkit.LogFilter.Task.Early.{whole_batch_goes_out}
use eip_toolkit.LogFilter.Task.Shrinking.{AllGood, run_once_stuck, refused_at_one}
use eip_toolkit.LogFilter.Task.Polls.{Queried, polls_overlap}
use eip_toolkit.LogFilter.Memory.Laws.{block_pending_pool_laws}
use eip_toolkit.Prelude.{
  ℕ, ◌≤◌, ◌≡◌, refl, ◌⊎◌, inl, inr, true, none, some, List, [], ◌∷◌, arith, ◌==◌, if◌then◌else◌,
  Elem, codes, text, wrap, ok, err,
}
use eip_toolkit.LogFilter.Log.{unique_key, dedup, dedup_from, LogResult}
use eip_toolkit.LogFilter.Errors.{is_rate_limit_or_range_err}
use eip_toolkit.LogFilter.Memory.{
  BlockPendingPool, block_pending_pool, pop_confirmed, pop_from, add, count,
}
use eip_toolkit.LogFilter.Task.{
  Machine, Env, saved, delivered, failed, batch_end, fetch, deliver, process, run_round, rounds,
  run_once,
}
use eip_toolkit.LogFilter.Task.Trace.{Delivered}
use eip_toolkit.LogFilter.Task.Survival.{fetched_log_goes_out}
use eip_toolkit.LogFilter.Tests.{in_order, log_at, id256, node, machine_over, machine_with}

-- The head is block 10, where the task stands.
abbrev at_head : Machine BlockPendingPool
at_head =
    let m = machine_over (record { entries = [] }) 4 in
    record m { task = record (m.task) { checkpoint = 10 } }

abbrev behind_run : Machine BlockPendingPool → Machine BlockPendingPool
behind_run m = elim (run_once id256 (block_pending_pool in_order) 30 node m) [
  | none ↦ m
  | some (r, m') ↦ m'
]

abbrev polled : Machine BlockPendingPool
polled = behind_run at_head

abbrev again : Machine BlockPendingPool
again = record polled { trace = [] }

first_poll : run_once id256 (block_pending_pool in_order) 30 node at_head ≡ some (ok true, polled)
unfolding run_once rounds run_round fetch process deliver batch_end dedup dedup_from unique_key
    eip_toolkit.Hex.encode_to_string is_rate_limit_or_range_err pop_confirmed pop_from add count
first_poll = refl

second_poll :
    run_once id256 (block_pending_pool in_order) 30 node again ≡ some (ok true, behind_run again)
unfolding run_once rounds run_round fetch process deliver batch_end dedup dedup_from unique_key
    eip_toolkit.Hex.encode_to_string is_rate_limit_or_range_err pop_confirmed pop_from add count
second_poll = refl

polls_overlap_example :
    ((k : ℕ) → 10 ≤ k → k ≤ 10 → Queried k polled.trace ⊎ Queried k (behind_run again).trace)
    × Queried polled.task.checkpoint polled.trace
    × Queried polled.task.checkpoint (behind_run again).trace
unfolding run_once rounds run_round fetch batch_end process add pop_confirmed deliver count
polls_overlap_example =
    polls_overlap id256 (block_pending_pool in_order) (block_pending_pool_laws in_order) node 10 10
      30 30 at_head polled again (behind_run again) refl refl (omega arith) tt (refl, tt)
      (record { positive = omega arith; fits = omega arith })
      (record { positive = omega arith; fits = omega arith }) refl refl (omega arith) refl
      first_poll second_poll

-- A chain that grows from block 10 to block 16 between the polls, with a log in each block that a
-- query starts at.
abbrev growing : Env
growing = record node {
  block_number = λ k. if k == 0 then ok 10 else ok 16;
  eth_get_logs = λ k from end address topics. ok (log_at from (codes "t") (codes "a") ∷ []);
}

abbrev behind_growing : Machine BlockPendingPool → Machine BlockPendingPool
behind_growing m = elim (run_once id256 (block_pending_pool in_order) 30 growing m) [
  | none ↦ m
  | some (r, m') ↦ m'
]

abbrev wide : Machine BlockPendingPool
wide = record at_head { task = record (at_head.task) { batch_size = 20 } }

abbrev held_back : Machine BlockPendingPool
held_back = behind_growing wide

abbrev resumed : Machine BlockPendingPool
resumed = record held_back { trace = [] }

abbrev log_10 : LogResult
log_10 = log_at 10 (codes "t") (codes "a")

held_back_runs :
    run_once id256 (block_pending_pool in_order) 30 growing wide ≡ some (ok true, held_back)
unfolding run_once rounds run_round fetch process deliver batch_end dedup dedup_from unique_key
    eip_toolkit.Hex.encode_to_string is_rate_limit_or_range_err pop_confirmed pop_from add count
held_back_runs = refl

resumed_runs :
    run_once id256 (block_pending_pool in_order) 30 growing resumed
    ≡ some (ok true, behind_growing resumed)
unfolding run_once rounds run_round fetch process deliver batch_end dedup dedup_from unique_key
    eip_toolkit.Hex.encode_to_string is_rate_limit_or_range_err pop_confirmed pop_from add count
resumed_runs = refl

fetched_log_goes_out_example :
    Delivered log_10 held_back.trace ⊎ Delivered log_10 (behind_growing resumed).trace
unfolding run_once rounds run_round fetch batch_end process add pop_confirmed deliver count dedup
    dedup_from unique_key eip_toolkit.Hex.encode_to_string pop_from
fetched_log_goes_out_example =
    fetched_log_goes_out id256 (block_pending_pool in_order) (block_pending_pool_laws in_order)
      growing 10 16 30 30 wide held_back resumed (behind_growing resumed) 10 log_10 refl refl tt
      (refl, tt) (record { positive = omega arith; fits = omega arith })
      (record { positive = omega arith; fits = omega arith }) refl refl (omega arith) (omega arith)
      refl held_back_runs resumed_runs (inl (refl, inl refl)) refl (λ again. inl (refl, inl refl))

-- The pool holds a log of block 1, and the handler fails.
abbrev failing : Env
failing = record node { handle_batch = λ k logs. some (text (codes "disk full")) }

abbrev holding : Machine BlockPendingPool
holding = machine_over (record { entries = (1, log_at 1 (codes "t") (codes "a") ∷ []) ∷ [] }) 4

failed_handler_loses_logs_example :
    let t = process id256 (block_pending_pool in_order) failing 10 9 10 [] holding in
    (t.0 ≡ some (wrap (codes "batch handler: ") (text (codes "disk full"))))
    × (t.1.trace ≡ [])
    × (t.1.task.checkpoint ≡ 1)
    × ((j : ℕ) (l : LogResult)
        → is_confirmed 10 6 j ≡ true
        → ¬ (block_pending_pool_laws in_order).Held t.1.pool j l)
unfolding add pop_confirmed pop_from dedup dedup_from
failed_handler_loses_logs_example =
    failed_handler_loses_logs id256 (block_pending_pool in_order) (block_pending_pool_laws in_order)
      failing 10 9 10 [] holding (log_at 1 (codes "t") (codes "a")) [] (text (codes "disk full"))
      (omega arith) (refl, tt) refl refl refl

abbrev open_node : Env
open_node = record node {
  eth_get_logs = λ k from end address topics. ok (log_at from (codes "t") (codes "a") ∷ []);
}

open_node-AllGood : AllGood open_node
open_node-AllGood = record {
  not_cancelled = λ k. refl;
  local_free = λ k. refl;
  rpc_free = λ k. refl;
  answers = λ k from end address topics. (log_at from (codes "t") (codes "a") ∷ [], refl);
  handles = λ k logs. refl;
  saves = λ k n. refl;
}

run_once_stuck_example :
    run_once id256 (block_pending_pool in_order) 1000 open_node (machine_with 0) ≡ none
run_once_stuck_example =
    run_once_stuck id256 in_order open_node open_node-AllGood 10 1000 (machine_with 0) refl
      (omega arith) (omega arith) (omega arith) refl

abbrev refusing_node : Env
refusing_node = record node {
  eth_get_logs = λ k from end address topics. err (text (codes "query timeout"));
}

one_block_refused :
    ((fetch refusing_node 10 1 (machine_with 1)).0
      ≡ failed (wrap (codes "batch reduced to 1, still failing: ") (text (codes "query timeout"))))
    × ((fetch refusing_node 10 1 (machine_with 1)).1.task.batch_size ≡ 0)
unfolding is_rate_limit_or_range_err
one_block_refused =
    refused_at_one refusing_node 10 1 (machine_with 1) (text (codes "query timeout")) refl refl refl
      refl refl refl

-- A batch from block 1 up to the head, block 9: its last log has no confirmation at all.
abbrev wide_batch : List LogResult
wide_batch = log_at 1 (codes "t") (codes "a") ∷ log_at 9 (codes "u") (codes "a") ∷ []

abbrev wide_round : Machine BlockPendingPool
wide_round = (process id256 (block_pending_pool in_order) node 9 1 9 wide_batch (machine_with 9)).1

whole_batch_goes_out_example :
    (ready : List LogResult) × Elem (log_at 9 (codes "u") (codes "a")) ready
    × (wide_round.trace ≡ saved 9 ∷ delivered ready ∷ [])
unfolding process deliver dedup dedup_from unique_key eip_toolkit.Hex.encode_to_string pop_confirmed
    pop_from add
whole_batch_goes_out_example =
    whole_batch_goes_out id256 (block_pending_pool in_order) (block_pending_pool_laws in_order) node
      9 1 9 wide_batch (machine_with 9) (log_at 9 (codes "u") (codes "a")) (omega arith) tt refl
      refl (inr (inl refl))

-- ===== src/LogFilter/Tests.antt =====
-- The log filter at work on small inputs.
use eip_toolkit.LogFilter.Task.Delivery.{Conserves, run_once-Conserves}
use eip_toolkit.LogFilter.Task.Coverage.{run_once_covers}
use eip_toolkit.LogFilter.Task.Termination.{run_once_returns}
use eip_toolkit.LogFilter.Task.Trace.{Contiguous, last_saved}
use mathlib.Core.List.Permᴰ
use mathlib.Core.List.{Perm}
use eip_toolkit.Prelude.{
  ℕ, ◌+◌, ◌≤◌, ◌≡◌, refl, inl, Bool, true, false, Option, none, some, List, [], ◌∷◌, arith, ltb,
  if◌then◌else◌, Elem, Bytes, codes, text, Result, ok, err,
}
use eip_toolkit.Dict.{lookup}
use eip_toolkit.LogFilter.Log.{LogResult, dedup, dedup_from, unique_key}
use eip_toolkit.LogFilter.Log.Dedup.{
  DistinctKeys, KeyIn, dedup_one_for_each_key, dedup_drops_events_of_one_transaction,
}
use eip_toolkit.LogFilter.Pool.{is_confirmed}
use eip_toolkit.LogFilter.Memory.{
  BlockPendingPool, IterationOrder, block_pending_pool, pop_confirmed, pop_from, add, count,
}
use eip_toolkit.LogFilter.Memory.Erase.{confirmed_logs}
use eip_toolkit.LogFilter.Memory.Laws.{block_pending_pool_laws, pop_confirmed_splits}
use eip_toolkit.LogFilter.Errors.{is_rate_limit_or_range_err}
use eip_toolkit.LogFilter.Semaphore.{new_rpc_semaphore}
use eip_toolkit.LogFilter.Task.{
  LogTask, Machine, Env, batch_end, fetch, deliver, process, run_round, rounds, run_once,
}

-- The identity as the digest, and the order of insertion as the order of iteration.
abbrev pub id256 : Bytes → Bytes
id256 b = b

abbrev pub in_order : IterationOrder
in_order = record { visit = λ d. d; visit-perm = λ d. Permᴰ.refl d }

-- A log of transaction `tx` in block `n`, at address `a`.
abbrev pub log_at : ℕ → Bytes → Bytes → LogResult
log_at n tx a = record {
  block_number = (b'0' + n) ∷ [];
  block_num_uint = n;
  transaction_hash = tx;
  address = a;
  topics = [];
  payload = [];
}

abbrev two_events : List LogResult
two_events =
    log_at 1 (codes "t") (codes "a")
    ∷ log_at 1 (codes "t") (codes "b")
    ∷ log_at 2 (codes "t") (codes "a")
    ∷ []

dedup_one_for_each_key_example :
    DistinctKeys id256 (dedup id256 two_events)
    × ((l : LogResult) → Elem l two_events → KeyIn id256 l (dedup id256 two_events))
    × ((l : LogResult) → Elem l (dedup id256 two_events) → Elem l two_events)
dedup_one_for_each_key_example = dedup_one_for_each_key id256 two_events

-- The third log is of the transaction of the first.
dedup_drops_events_of_one_transaction_example :
    dedup id256 (
      log_at 1 (codes "t") (codes "a")
      ∷ log_at 1 (codes "u") (codes "a")
      ∷ log_at 1 (codes "t") (codes "b")
      ∷ log_at 2 (codes "t") (codes "a")
      ∷ [])
    ≡ dedup id256 (
        log_at 1 (codes "t") (codes "a")
        ∷ log_at 1 (codes "u") (codes "a")
        ∷ log_at 2 (codes "t") (codes "a")
        ∷ [])
dedup_drops_events_of_one_transaction_example =
    dedup_drops_events_of_one_transaction id256
      (log_at 1 (codes "t") (codes "a") ∷ log_at 1 (codes "u") (codes "a") ∷ [])
      (log_at 1 (codes "t") (codes "b")) (log_at 2 (codes "t") (codes "a") ∷ [])
      (log_at 1 (codes "t") (codes "a")) (inl refl) (refl, refl)

abbrev some_pool : BlockPendingPool
some_pool = record {
  entries =
      (1, log_at 1 (codes "t") (codes "a") ∷ []) ∷ (5, log_at 5 (codes "u") (codes "a") ∷ []) ∷ [];
}

pop_confirmed_splits_example :
    (out : List LogResult) × (p' : BlockPendingPool) × (pop_confirmed in_order 10 6 some_pool
      ≡ (ok out, p'))
    × Perm out (confirmed_logs 10 6 some_pool.entries)
    × ((j : ℕ)
        → lookup j p'.entries ≡ (if is_confirmed 10 6 j then none else lookup j some_pool.entries))
pop_confirmed_splits_example = pop_confirmed_splits in_order 10 6 some_pool (refl, (refl, tt))

-- A node at block 10 with a log in each block; it refuses ranges of more than three blocks.
abbrev answer : ℕ → ℕ → Result (List LogResult)
answer from end =
    if ltb (from + 2) end
    then err (text (codes "block range too large"))
    else ok (log_at from (codes "t") (codes "a") ∷ log_at end (codes "u") (codes "a") ∷ [])

abbrev pub node : Env
node = record {
  cancelled = λ k. none;
  acquire_local = λ k. none;
  acquire_rpc = λ k. none;
  block_number = λ k. ok 10;
  eth_get_logs = λ k from end address topics. answer from end;
  handle_batch = λ k logs. none;
  save = λ k n. none;
}

abbrev task_with : ℕ → LogTask
task_with size = record {
  task_name = codes "primary";
  address = [];
  topics = [];
  checkpoint = 1;
  batch_size = size;
  live_mode = false;
  live_poll_interval = 12;
  restart_backoff = 5;
  max_backoff = 120;
  confirm_block_num = 6;
}

abbrev pub machine_over : {S : Type 0} → S → ℕ → Machine S
machine_over pool size = record {
  task = task_with size;
  pool = pool;
  local_sem = new_rpc_semaphore 3;
  rpc_sem = new_rpc_semaphore 10;
  round = 0;
  trace = [];
  requests_ok = 0;
  requests_fail = 0;
  logs_total = 0;
  pending_blocks = 0;
}

abbrev pub machine_with : ℕ → Machine BlockPendingPool
machine_with size = machine_over (record { entries = [] }) size

abbrev machine_of : Option (Result Bool × Machine BlockPendingPool) → Machine BlockPendingPool
machine_of none = machine_with 0
machine_of (some (r, m)) = m

abbrev pub caught_up : Machine BlockPendingPool
caught_up = machine_of (run_once id256 (block_pending_pool in_order) 30 node (machine_with 4))

-- The first range is refused, and the batch size falls to two.
pub caught_up_runs :
    run_once id256 (block_pending_pool in_order) 30 node (machine_with 4)
    ≡ some (ok true, caught_up)
unfolding run_once rounds run_round fetch process deliver batch_end dedup dedup_from unique_key
    eip_toolkit.Hex.encode_to_string is_rate_limit_or_range_err pop_confirmed pop_from add count
caught_up_runs = refl

caught_up_checkpoint :
    (caught_up.task.checkpoint ≡ 4)
    × (caught_up.task.batch_size ≡ 2)
    × (caught_up.pending_blocks ≡ 3)
unfolding run_once rounds run_round fetch process deliver batch_end dedup dedup_from unique_key
    eip_toolkit.Hex.encode_to_string is_rate_limit_or_range_err pop_confirmed pop_from add count
caught_up_checkpoint = (refl, refl, refl)

run_once_returns_example :
    (r : Result Bool) × (m' : Machine BlockPendingPool) × (run_once id256
        (block_pending_pool in_order)
        30
        node
        (machine_with 4)
      ≡ some (r, m'))
run_once_returns_example =
    run_once_returns id256 (block_pending_pool in_order) (block_pending_pool_laws in_order) node 10
      30 (machine_with 4) refl tt (omega arith) (omega arith)

run_once_covers_example :
    Contiguous 1 (10 + 1) caught_up.trace
    × (caught_up.task.checkpoint ≡ last_saved 1 caught_up.trace)
    × (1 ≤ caught_up.task.checkpoint)
    × (caught_up.task.checkpoint ≤ 10)
run_once_covers_example =
    run_once_covers id256 (block_pending_pool in_order) (block_pending_pool_laws in_order) node 10
      30 (machine_with 4) caught_up refl tt (omega arith) refl (omega arith) caught_up_runs

run_once-Conserves_example :
    Conserves id256
      (block_pending_pool in_order)
      (block_pending_pool_laws in_order)
      node
      10
      6
      (record { entries = [] })
      caught_up
run_once-Conserves_example =
    run_once-Conserves id256 (block_pending_pool in_order) (block_pending_pool_laws in_order) node
      10 30 (machine_with 4) caught_up refl tt (omega arith) refl (omega arith) caught_up_runs

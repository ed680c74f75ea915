-- ===== src/LogFilter/Task.antt =====
-- The task, the environment that answers its calls, and `LogTask.RunOnce`
-- (go/logfilter/logfilter.go).
pub mod Fetch
pub mod Process
pub mod Round
pub mod Loop
pub mod Trace
pub mod Coverage
pub mod Polls
pub mod Failed
pub mod Survival
mod Tests
pub mod Early
pub mod Slots
pub mod Shrinking
pub mod Delivery
pub mod Termination
use eip_toolkit.Prelude.{
  ℕ, zero, suc, ◌+◌, ◌/◌, Bool, true, false, Option, none, some, List, [], ◌∷◌, add64, sub64, ltb,
  leb, if◌then◌else◌, length, Bytes, codes, GoError, wrap, Result, ok, err,
}
use eip_toolkit.LogFilter.Log.{LogResult, dedup}
use eip_toolkit.LogFilter.Pool.{PendingPool}
use eip_toolkit.LogFilter.Semaphore.{RpcSemaphore, acquire, release}
use eip_toolkit.LogFilter.Errors.{is_rate_limit_or_range_err}

-- The fields of `LogTask` that are no interface; durations are in nanoseconds.
pub record LogTask : Type 0 where
  pub task_name : Bytes
  pub address : List Bytes
  pub topics : List (List Bytes)
  pub checkpoint : ℕ
  pub batch_size : ℕ
  pub live_mode : Bool
  pub live_poll_interval : ℕ
  pub restart_backoff : ℕ
  pub max_backoff : ℕ
  pub confirm_block_num : ℕ

-- What a task does that others see.
pub data Event : Type 0 where
  fetched : ℕ → ℕ → List LogResult → Event
  delivered : List LogResult → Event
  saved : ℕ → Event

-- A task at work: its fields, the pool, the two semaphores, the number of the
-- round, what it has done, the newest first, and its metrics.
pub record Machine (S : Type 0) : Type 0 where
  pub task : LogTask
  pub pool : S
  pub local_sem : RpcSemaphore
  pub rpc_sem : RpcSemaphore
  pub round : ℕ
  pub trace : List Event
  pub requests_ok : ℕ
  pub requests_fail : ℕ
  pub logs_total : ℕ
  pub pending_blocks : ℕ

-- The answers of the outside, by the number of the round: the context, the semaphores, the node,
-- the handler and the checkpoint store. `none` is a nil error.
pub record Env : Type 0 where
  pub cancelled : ℕ → Option GoError
  pub acquire_local : ℕ → Option GoError
  pub acquire_rpc : ℕ → Option GoError
  pub block_number : ℕ → Result ℕ
  pub eth_get_logs : ℕ → ℕ → ℕ → List Bytes → List (List Bytes) → Result (List LogResult)
  pub handle_batch : ℕ → List LogResult → Option GoError
  pub save : ℕ → ℕ → Option GoError

-- `end := currentStart + t.BatchSize - 1`, but at most `latestBlock`.
unfoldable pub batch_end : ℕ → ℕ → ℕ → ℕ
batch_end latest current_start batch_size =
    let end = sub64 (add64 current_start batch_size) 1 in if ltb latest end then latest else end

-- How the first half of a round ends: with the logs up to a block, by `continue`, or by an error.
pub data FetchEnd : Type 0 where
  got : List LogResult → ℕ → FetchEnd
  shrunk : FetchEnd
  failed : GoError → FetchEnd

module _ {S : Type 0} where
  abbrev pub count_ok : Machine S → Machine S
  count_ok m = record m { requests_ok = m.requests_ok + 1 }

  -- What the outside answers later on may differ.
  abbrev pub next_round : Machine S → Machine S
  next_round m = record m { round = m.round + 1 }

  abbrev pub count_fail : Machine S → Machine S
  count_fail m = record m { requests_fail = m.requests_fail + 1 }

  abbrev pub log_event : Event → Machine S → Machine S
  log_event e m = record m { trace = e ∷ m.trace }

  -- What follows `EthGetLogs`.
  unfoldable pub on_logs : Result (List LogResult) → ℕ → ℕ → Machine S → FetchEnd × Machine S
  on_logs (ok logs) from end m = (got logs end, log_event (fetched from end logs) (count_ok m))
  on_logs (err e) from end m =
      let m' = record (count_fail m) {
        task = record (m.task) { batch_size = m.task.batch_size / 2 };
      } in
      if is_rate_limit_or_range_err (some e)
      then if ltb m'.task.batch_size 1
        then (failed (wrap (codes "batch reduced to 1, still failing: ") e), m')
        else (shrunk, m')
      else (failed (wrap (codes "rpc query: ") e), count_fail m)

  -- A round up to the answer of the node: the poll of the context, the two semaphores, the query,
  -- and their release.
  unfoldable pub fetch : Env → ℕ → ℕ → Machine S → FetchEnd × Machine S
  unfolding on_logs acquire release
  fetch env latest current_start m = elim (env.cancelled m.round) [
    | some e ↦ (failed e, m)
    | none ↦
        let (e, local) = acquire (env.acquire_local m.round) m.local_sem in
        elim e [
          | some e' ↦ (failed e', m)
          | none ↦
              let (e', rpc) = acquire (env.acquire_rpc m.round) m.rpc_sem in
              elim e' [
                | some e'' ↦ (failed e'', record m { local_sem = release local })
                | none ↦
                    let end = batch_end latest current_start m.task.batch_size in
                    let logs =
                      env.eth_get_logs m.round current_start end m.task.address m.task.topics in
                    on_logs logs current_start end
                      (record m { local_sem = release local; rpc_sem = release rpc })
              ]
        ]
  ]

  -- `BatchHandler.HandleBatch`, `Store.Save` and the new checkpoint, where a log is ready.
  unfoldable pub deliver : Env → ℕ → List LogResult → Machine S → Option GoError × Machine S
  deliver env end [] m = (none, m)
  deliver env end (l ∷ ready) m = elim (env.handle_batch m.round (l ∷ ready)) [
    | some e ↦ (some (wrap (codes "batch handler: ") e), m)
    | none ↦
        let m' = log_event (delivered (l ∷ ready)) m in
        elim (env.save m.round end) [
          | some e ↦ (some (wrap (codes "save checkpoint: ") e), m')
          | none ↦ (
            none,
            record (log_event (saved end) m') { task = record (m'.task) { checkpoint = end } },
          )
        ]
  ]

  abbrev pub set_pending : Result ℕ → Machine S → Machine S
  set_pending (ok n) m = record m { pending_blocks = n }
  set_pending (err e) m = m

module _ {S : Type 0} (sum256 : Bytes → Bytes) (pools : PendingPool S) where
  abbrev pub popped : Env → ℕ → Result (List LogResult) × S → Machine S → Option GoError × Machine S
  popped env end (err e, p) m = (some (wrap (codes "pending pop: ") e), record m { pool = p })
  popped env end (ok ready, p) m = deliver env end ready (record m { pool = p })

  -- The second half of a round: the logs go into the pool, and what is confirmed goes out.
  unfoldable pub process : Env → ℕ → ℕ → ℕ → List LogResult → Machine S → Option GoError × Machine S
  process env latest current_start end logs m =
      let batch = dedup sum256 logs in
      let (e, p) = pools.add current_start batch m.pool in
      let m' = record m { logs_total = m.logs_total + length batch; pool = p } in
      elim e [
        | some err' ↦ (some (wrap (codes "pending add: ") err'), m')
        | none ↦ popped env end (pools.pop_confirmed latest m.task.confirm_block_num p) m'
      ]

  -- One round: the block at which the next one starts, or the error that `RunOnce` returns.
  unfoldable pub run_round : Env → ℕ → ℕ → Machine S → Result ℕ × Machine S
  run_round env latest current_start m =
      let (f, m') = fetch env latest current_start m in
      elim f [
        | failed e ↦ (err e, record m' { round = m'.round + 1 })
        | shrunk ↦ (ok current_start, record m' { round = m'.round + 1 })
        | got logs end ↦
            let (e, m'') = process env latest current_start end logs m' in
            elim e [
              | some err' ↦ (err err', record m'' { round = m''.round + 1 })
              | none ↦ (
                ok (add64 end 1),
                record (set_pending (pools.count m''.pool) m'') { round = m''.round + 1 },
              )
            ]
      ]

  -- `for currentStart <= latestBlock { … }`; `none` means that the fuel ran out.
  unfoldable pub rounds : ℕ → Env → ℕ → ℕ → Machine S → Option (Result Bool × Machine S)
  rounds zero env latest current_start m = none
  rounds (suc fuel) env latest current_start m = elim (leb current_start latest) [
    | false ↦ some (ok true, m)
    | true ↦
        let (r, m') = run_round env latest current_start m in
        elim r [ ok next ↦ rounds fuel env latest next m' | err e ↦ some (err e, m') ]
  ]

  unfoldable pub run_once : ℕ → Env → Machine S → Option (Result Bool × Machine S)
  run_once fuel env m = elim (env.block_number m.round) [
    | err e ↦ some (err (wrap (codes "get latest block: ") e), next_round (count_fail m))
    | ok latest ↦
        if ltb latest m.task.checkpoint
        then some (ok true, next_round (count_ok m))
        else rounds fuel env latest m.task.checkpoint (count_ok m)
  ]

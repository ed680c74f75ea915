-- ===== src/LogFilter/Redis/Tests.antt =====
-- Runs of `RedisPendingPool` and witnesses of its properties.
use eip_toolkit.Prelude.{
  ℕ, ◌≡◌, refl, ◌↔◌, ◌⊎◌, inl, Bool, true, false, Option, none, some, [], ◌∷◌, arith, Elem, Bytes,
  codes, Result, ok,
}
use eip_toolkit.Decimal.{format_uint, parse_uint}
use eip_toolkit.LogFilter.Log.{LogResult, dedup, dedup_from, unique_key}
use eip_toolkit.LogFilter.Redis.{
  Redis, Client, exec, add, pop_from, pop_confirmed, redis_pending_pool,
}
use eip_toolkit.LogFilter.Pool.{is_confirmed}
use eip_toolkit.LogFilter.Redis.Encoding.{
  block_json, block_json-ReadsBack, write_blocks, read_blocks, write_log, log_from, read_log,
  write_logs, read_logs,
}
use mathlib.Core.List.Permᴰ
use eip_toolkit.LogFilter.Log.{LogResult, dedup, dedup_from, unique_key}
use eip_toolkit.LogFilter.Errors.{is_rate_limit_or_range_err}
use eip_toolkit.LogFilter.Task.{
  Machine, batch_end, fetch, deliver, process, run_round, rounds, run_once, Env,
}
use eip_toolkit.LogFilter.Task.Delivery.{Conserves}
use eip_toolkit.LogFilter.Tests.{id256, node, machine_over}
use eip_toolkit.LogFilter.Redis.Held.{IsCanonical, HeldIn, add-IsCanonical}
use eip_toolkit.LogFilter.Redis.Laws.{ListsMembers}
use eip_toolkit.LogFilter.Redis.{
  Redis, Client, exec, add, pop_from, pop_confirmed, redis_pending_pool,
}
use eip_toolkit.LogFilter.Redis.Interface.{redis_pending_pool_laws}
use eip_toolkit.LogFilter.Redis.Sync.{redis_pop_confirmed_splits, redis_run_once-Conserves}
use eip_toolkit.LogFilter.Redis.Kept.{ExecFailed, empty_pop_changes_no_key}

abbrev log_of : Bytes → LogResult
log_of tx = record {
  block_number = codes "5";
  block_num_uint = 5;
  transaction_hash = tx;
  address = [];
  topics = [];
  payload = [];
}

abbrev client : Client
client = record {
  smembers_error = none;
  visit = λ ms. ms;
  get_error = λ k. none;
  exec_failure = none;
}

abbrev empty : Redis
empty = record { kv = λ k. none; index = [] }

-- Block 5 without logs, and block 6 with one.
abbrev without_logs : Redis
without_logs = (add block_json (codes "p") client 5 [] empty).1

abbrev with_log : Redis
with_log = (add block_json (codes "p") client 6 (log_of (codes "t") ∷ []) without_logs).1

one_log_out :
    ((pop_confirmed block_json (codes "p") client 12 6 with_log).0 ≡ ok (log_of (codes "t") ∷ []))
    × ((pop_confirmed block_json (codes "p") client 12 6 with_log).1.index ≡ [])
unfolding pop_confirmed pop_from add exec format_uint parse_uint read_logs read_log read_blocks
    log_from write_logs write_log write_blocks
one_log_out = (refl, refl)

-- Block 5 is confirmed, and stays in the index.
empty_pop_changes_no_key_example :
    ((pop_confirmed block_json (codes "p") client 12 6 without_logs).1 ≡ without_logs)
    ⊎ ExecFailed client without_logs
        (pop_from block_json
          (codes "p")
          client
          12
          6
          without_logs
          (client.visit without_logs.index)
          []
          [])
        (pop_confirmed block_json (codes "p") client 12 6 without_logs)
unfolding pop_confirmed pop_from add exec format_uint parse_uint read_logs read_log read_blocks
    log_from write_logs write_log write_blocks
empty_pop_changes_no_key_example =
    empty_pop_changes_no_key block_json (codes "p") client 12 6 without_logs tt

-- Block 9 is not confirmed at head 12.
abbrev three_blocks : Redis
three_blocks = (add block_json (codes "p") client 9 [] with_log).1

three_blocks_pop :
    (pop_confirmed block_json (codes "p") client 12 6 three_blocks).0 ≡ ok (log_of (codes "t") ∷ [])
unfolding pop_confirmed pop_from add exec format_uint parse_uint read_logs read_log read_blocks
    log_from write_logs write_log write_blocks
three_blocks_pop = refl

nine_stays :
    Elem (codes "9") (pop_confirmed block_json (codes "p") client 12 6 three_blocks).1.index
unfolding pop_confirmed pop_from add exec format_uint parse_uint read_logs read_log read_blocks
    log_from write_logs write_log write_blocks
nine_stays = inl refl

in_order : ListsMembers client
in_order ms = Permᴰ.refl ms

empty-IsCanonical : IsCanonical empty
empty-IsCanonical m e = elim e [ ]

with_log-IsCanonical : IsCanonical with_log
with_log-IsCanonical =
    add-IsCanonical block_json (codes "p") client 6 (log_of (codes "t") ∷ []) without_logs
      (omega arith)
      (add-IsCanonical block_json (codes "p") client 5 [] empty (omega arith) empty-IsCanonical)

three_blocks-IsCanonical : IsCanonical three_blocks
three_blocks-IsCanonical =
    add-IsCanonical block_json (codes "p") client 9 [] with_log (omega arith) with_log-IsCanonical

redis_pop_confirmed_splits_example :
    ((l : LogResult)
      → Elem l (log_of (codes "t") ∷ [])
        ↔ ((j : ℕ) × HeldIn block_json (codes "p") three_blocks j l × (is_confirmed 12 6 j ≡ true)))
    × ((j : ℕ) (l : LogResult)
        → HeldIn block_json
            (codes "p")
            (pop_confirmed block_json (codes "p") client 12 6 three_blocks).1
            j
            l
          ↔ (HeldIn block_json (codes "p") three_blocks j l × (is_confirmed 12 6 j ≡ false)))
redis_pop_confirmed_splits_example =
    redis_pop_confirmed_splits block_json (codes "p") client 12 6 three_blocks
      (log_of (codes "t") ∷ []) in_order three_blocks-IsCanonical three_blocks_pop

-- The head is block 12, where the task starts; Redis holds a log of block 6.
abbrev node_at_12 : Env
node_at_12 = record node { block_number = λ k. ok 12 }

abbrev start : Machine Redis
start = let m = machine_over with_log 4 in record m { task = record (m.task) { checkpoint = 12 } }

abbrev behind_run : Option (Result Bool × Machine Redis) → Machine Redis
behind_run none = start
behind_run (some (r, m)) = m

abbrev caught_up : Machine Redis
caught_up =
    behind_run
      (run_once id256 (redis_pending_pool block_json (codes "p") client) 30 node_at_12 start)

caught_up_runs :
    run_once id256 (redis_pending_pool block_json (codes "p") client) 30 node_at_12 start
    ≡ some (ok true, caught_up)
unfolding run_once rounds run_round fetch process deliver batch_end dedup dedup_from unique_key
    eip_toolkit.Hex.encode_to_string is_rate_limit_or_range_err pop_confirmed pop_from add exec
    format_uint parse_uint read_logs read_log read_blocks log_from write_logs write_log write_blocks
caught_up_runs = refl

redis_run_once-Conserves_example :
    Conserves id256
      (redis_pending_pool block_json (codes "p") client)
      (redis_pending_pool_laws block_json (codes "p") client block_json-ReadsBack in_order)
      node_at_12
      12
      6
      with_log
      caught_up
redis_run_once-Conserves_example =
    redis_run_once-Conserves id256 block_json (codes "p") client block_json-ReadsBack in_order
      node_at_12 12 30 start caught_up refl with_log-IsCanonical (omega arith) refl (omega arith)
      caught_up_runs

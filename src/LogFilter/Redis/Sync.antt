-- ===== src/LogFilter/Redis/Sync.antt =====
-- `RunOnce` over `RedisPendingPool` (go/logfilter/logfilter.go).
use eip_toolkit.Prelude.{ℕ, ◌≤◌, ◌≡◌, ◌↔◌, true, false, some, List, [], Elem, Bytes, ok}
use eip_toolkit.LogFilter.Log.{LogResult}
use eip_toolkit.LogFilter.Pool.{is_confirmed}
use eip_toolkit.LogFilter.Redis.{Redis, Client, Json, pop_confirmed, redis_pending_pool}
use eip_toolkit.LogFilter.Redis.Held.{IsCanonical, ReadsBack, HeldIn}
use eip_toolkit.LogFilter.Redis.Laws.{ListsMembers, pop-Elem, pop-HeldIn}
use eip_toolkit.LogFilter.Redis.{Redis, Client, Json, pop_confirmed, redis_pending_pool}
use eip_toolkit.LogFilter.Redis.Interface.{redis_pending_pool_laws}
use eip_toolkit.LogFilter.Task.{Machine, Env, run_once}
use eip_toolkit.LogFilter.Task.Loop.{IsSized}
use eip_toolkit.LogFilter.Task.Delivery.{Conserves, run_once-Conserves}

-- Over an index of 64-bit heights, a call of `PopConfirmed` that succeeds hands out exactly the
-- logs that Redis holds under confirmed heights, and holds behind it exactly those under the
-- others, in whatever order `SMembers` lists the heights.
pub redis_pop_confirmed_splits :
    (json : Json) (prefix : Bytes) (client : Client) (latest confirm : ℕ) (r : Redis)
    (out : List LogResult)
    → ListsMembers client
    → IsCanonical r
    → (pop_confirmed json prefix client latest confirm r).0 ≡ ok out
    → ((l : LogResult)
        → Elem l out
          ↔ ((j : ℕ) × HeldIn json prefix r j l × (is_confirmed latest confirm j ≡ true)))
      × ((j : ℕ) (l : LogResult)
          → HeldIn json prefix (pop_confirmed json prefix client latest confirm r).1 j l
            ↔ (HeldIn json prefix r j l × (is_confirmed latest confirm j ≡ false)))
redis_pop_confirmed_splits json prefix client latest confirm r out lists v e = (
  λ l. pop-Elem json prefix client lists latest confirm r v out l e,
  λ j l. pop-HeldIn json prefix client lists latest confirm r v out j l e,
)

-- Over Redis as well, a call of `RunOnce` that catches up loses no log and makes none up: each one
-- that it fetched, but for duplicates in its batch, was handed to the handler or is held in Redis
-- under a height that is not confirmed; each one handed out stood under a confirmed height. JSON
-- reads back what it has written, the index held 64-bit heights only, and the call starts at a
-- checkpoint that is not past the head, with a batch size of 1 at least that added to the head stays
-- below 2^64.
pub redis_run_once-Conserves :
    (sum256 : Bytes → Bytes) (json : Json) (prefix : Bytes) (client : Client)
    (back : ReadsBack json) (lists : ListsMembers client) (env : Env) (latest fuel : ℕ)
    (m m' : Machine Redis)
    → env.block_number m.round ≡ ok latest
    → IsCanonical m.pool
    → IsSized latest m
    → m.trace ≡ []
    → m.task.checkpoint ≤ latest
    → run_once sum256 (redis_pending_pool json prefix client) fuel env m ≡ some (ok true, m')
    → Conserves sum256
        (redis_pending_pool json prefix client)
        (redis_pending_pool_laws json prefix client back lists)
        env
        latest
        m.task.confirm_block_num
        m.pool
        m'
redis_run_once-Conserves sum256 json prefix client back lists env latest fuel m m' e v z fresh le
      h =
    run_once-Conserves sum256 (redis_pending_pool json prefix client)
      (redis_pending_pool_laws json prefix client back lists) env latest fuel m m' e v z fresh le h

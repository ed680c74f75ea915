-- ===== src/LogFilter/Semaphore.antt =====
-- `RPCSemaphore` (go/logfilter/logfilter.go): a channel with room for `capacity` slots.
use eip_toolkit.Prelude.{ℕ, ◌+◌, ◌-◌, ◌≡◌, Option, none, some, arith, GoError}

pub record RpcSemaphore : Type 0 where
  pub capacity : ℕ
  pub in_use : ℕ

abbrev pub new_rpc_semaphore : ℕ → RpcSemaphore
new_rpc_semaphore max_concurrent = record { capacity = max_concurrent; in_use = 0 }

-- `Acquire` by the case that its `select` takes: the cancelled context with its error, or the send,
-- `none`, which waits until a slot is free.
unfoldable pub acquire : Option GoError → RpcSemaphore → Option GoError × RpcSemaphore
acquire (some e) s = (some e, s)
acquire none s = (none, record s { in_use = s.in_use + 1 })

-- `Release`, which waits where no slot is in use.
unfoldable pub release : RpcSemaphore → RpcSemaphore
release s = record s { in_use = s.in_use - 1 }

pub release-acquire : (s : RpcSemaphore) → release (acquire none s).1 ≡ s
unfolding release acquire
release-acquire s = ground arith

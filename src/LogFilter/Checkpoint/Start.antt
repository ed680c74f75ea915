-- ===== src/LogFilter/Checkpoint/Start.antt =====
-- The block at which a restarted `main` goes on (go/logfilter/main.go).
use eip_toolkit.Prelude.{
  ℕ, zero, suc, ◌<◌, ◌≡◌, refl, Option, none, arith, u64_mod, ◌==◌, if◌then◌else◌, GoError, Result,
  ok,
}
use eip_toolkit.LogFilter.Checkpoint.{CheckpointStore, start_block}
use eip_toolkit.LogFilter.Checkpoint.Laws.{Keeps}

-- Over any store that keeps its checkpoint: without START_BLOCK, a restart goes on at the block
-- that was saved last, whatever the head is; a saved 0 counts as no checkpoint, and the restart
-- begins at the head.
pub restart_resumes :
    {S : Type 0} (store : CheckpointStore S) (Readable : S → Type 0) (ctx : Option GoError)
    (block : ℕ) (s s' : S) (head : Result ℕ)
    → Keeps store Readable
    → block < u64_mod
    → Readable s'
    → store.save ctx block s ≡ (none, s')
    → start_block 0 (store.load none s') head ≡ (if block == 0 then head else ok block)
unfolding start_block
restart_resumes store Readable ctx zero s s' head keeps fits readable h =
    rw (keeps ctx zero s s' fits readable h) refl
restart_resumes store Readable ctx (suc block) s s' head keeps fits readable h =
    rw (keeps ctx (suc block) s s' fits readable h) (ground arith)

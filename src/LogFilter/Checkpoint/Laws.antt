-- ===== src/LogFilter/Checkpoint/Laws.antt =====
-- What a checkpoint store promises, and that each implementation keeps it
-- (go/logfilter/logfilter.go).
use eip_toolkit.Decimal.{format_uint, parse_uint-format_uint}
use eip_toolkit.Prelude.{
  ℕ, ◌<◌, ◌≡◌, refl, ap, subst, inl, inr, Option, none, some, arith, u64_mod, Option-cases, Bytes,
  GoError, ok,
}
use eip_toolkit.LogFilter.Checkpoint.{
  CheckpointStore, MemoryCheckpointStore, memory_checkpoint, FileAt, write_file, file_save,
  file_load, file_checkpoint, found, RedisClient, redis_result, redis_checkpoint,
}

-- The contract: where `Readable` holds of the store, a block that was saved is what is loaded, and
-- a load never says another block than the last one that a save has left there.
abbrev pub Keeps : {S : Type 0} → CheckpointStore S → (S → Type 0) → Type 0
Keeps {S} store Readable =
    (ctx : Option GoError) (block : ℕ) (s s' : S)
    → block < u64_mod
    → Readable s'
    → store.save ctx block s ≡ (none, s')
    → store.load none s' ≡ ok block

pair_snd : {A B : Type 0} {p : A × B} {a : A} {b : B} → p ≡ (a, b) → p.1 ≡ b
pair_snd h = ap (λ q. q.1) h

pair_fst : {A B : Type 0} {p : A × B} {a : A} {b : B} → p ≡ (a, b) → p.0 ≡ a
pair_fst h = ap (λ q. q.0) h

-- A file can be read where `ReadFile` meets no error.
abbrev pub CanRead : FileAt → Type 0
CanRead f = f.read_error ≡ none

abbrev pub Always : {S : Type 0} → S → Type 0
Always s = Unit

memory_checkpoint-Keeps : Keeps memory_checkpoint Always
unfolding memory_checkpoint
memory_checkpoint-Keeps ctx block s s' fits readable h =
    subst (λ (m : MemoryCheckpointStore). ok m.val ≡ ok block) (pair_snd h) refl

pub written :
    (bytes : Bytes) (f f' : FileAt) → write_file bytes f ≡ (none, f') → f'.content ≡ some bytes
written bytes f f' h = elim (Option-cases f.write_error) [
  | inl e ↦ ground arith
  | inr ((e, left), h') ↦ ground arith
]

pub file_checkpoint-Keeps : Keeps file_checkpoint CanRead
unfolding file_checkpoint file_save file_load
file_checkpoint-Keeps none block f f' fits readable h =
    rw (readable, written (format_uint block) f f' h) (parse_uint-format_uint block fits)
file_checkpoint-Keeps (some e) block f f' fits readable h = ground arith

-- A client of Redis keeps a number under a key until the key is set again.
abbrev pub KeepsNumbers : {S : Type 0} → RedisClient S → Type 0
KeepsNumbers {S} rdb =
    (ctx : Option GoError) (key : Bytes) (v : ℕ) (s s' : S)
    → rdb.set ctx key v s ≡ (none, s')
    → rdb.get_uint64 none key s' ≡ found v

-- The three stores keep the contract: in memory always, in a file where the file can be read, and
-- in Redis where the client keeps its numbers. A 64-bit block that `Save` has stored without an
-- error is what `Load` returns.
pub stores_keep_the_checkpoint :
    {S : Type 0} (rdb : RedisClient S) (key : Bytes)
    → KeepsNumbers rdb
    → Keeps memory_checkpoint Always
      × Keeps file_checkpoint CanRead
      × Keeps (redis_checkpoint rdb key) Always
unfolding redis_checkpoint
stores_keep_the_checkpoint rdb key numbers =
    (memory_checkpoint-Keeps, file_checkpoint-Keeps, redis-Keeps)
  where
    redis-Keeps : Keeps (redis_checkpoint rdb key) Always
    redis-Keeps ctx block s s' fits readable h = ap redis_result (numbers ctx key block s s' h)

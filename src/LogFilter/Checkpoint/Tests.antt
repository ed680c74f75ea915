-- ===== src/LogFilter/Checkpoint/Tests.antt =====
-- Runs of the checkpoint stores and witnesses of their properties.
use eip_toolkit.Prelude.{
  ℕ, ◌≡◌, refl, ap, subst, Option, none, some, arith, if◌then◌else◌, Bytes, codes, bytes_eq,
  bytes_eq_refl, text, ok, err,
}
use eip_toolkit.Decimal.{format_uint, parse_uint}
use eip_toolkit.LogFilter.Checkpoint.{
  FileAt, file_checkpoint, file_save, file_load, memory_checkpoint, redis_checkpoint, RedisClient,
  RedisReply, found, redis_nil, start_block, new_memory_checkpoint_store,
}
use eip_toolkit.LogFilter.Checkpoint.Laws.{
  Keeps, KeepsNumbers, CanRead, Always, stores_keep_the_checkpoint, file_checkpoint-Keeps,
}
use eip_toolkit.LogFilter.Checkpoint.Start.{restart_resumes}

-- No file yet.
abbrev empty_path : FileAt
empty_path = record { content = none; write_error = none; read_error = none }

abbrev stored_1234 : FileAt
stored_1234 = record { content = some (codes "1234"); write_error = none; read_error = none }

first_start : file_checkpoint.load none empty_path ≡ ok 0
unfolding file_checkpoint file_load
first_start = refl

memory_start : memory_checkpoint.load none (new_memory_checkpoint_store 7) ≡ ok 7
unfolding memory_checkpoint
memory_start = refl

broken_file :
    file_checkpoint.load none
      (record { content = some (codes "12x"); write_error = none; read_error = none })
    ≡ err (text (codes "invalid syntax"))
unfolding file_checkpoint file_load parse_uint
broken_file = refl

save_1234 : file_checkpoint.save none 1234 empty_path ≡ (none, stored_1234)
unfolding file_checkpoint file_save format_uint
save_1234 = refl

abbrev reply : Option ℕ → RedisReply
reply none = redis_nil
reply (some v) = found v

-- A client whose state is what each key holds.
abbrev toy_redis : RedisClient (Bytes → Option ℕ)
toy_redis = record {
  set = λ ctx key v s. (none, λ k. if bytes_eq k key then some v else s k);
  get_uint64 = λ ctx key s. reply (s key);
}

toy_redis-KeepsNumbers : KeepsNumbers toy_redis
toy_redis-KeepsNumbers ctx key v s s' h =
    subst (λ (t : Bytes → Option ℕ). reply (t key) ≡ found v) (ap (λ q. q.1) h)
      (rw (bytes_eq_refl key) refl)

stores_keep_the_checkpoint_example :
    Keeps memory_checkpoint Always
    × Keeps file_checkpoint CanRead
    × Keeps (redis_checkpoint toy_redis (codes "checkpoint")) Always
stores_keep_the_checkpoint_example =
    stores_keep_the_checkpoint toy_redis (codes "checkpoint") toy_redis-KeepsNumbers

resumed_at_1234 : start_block 0 (file_checkpoint.load none stored_1234) (ok 2000) ≡ ok 1234
resumed_at_1234 =
    restart_resumes file_checkpoint CanRead none 1234 empty_path stored_1234 (ok 2000)
      file_checkpoint-Keeps (omega arith) refl save_1234

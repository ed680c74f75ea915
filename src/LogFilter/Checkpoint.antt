-- ===== src/LogFilter/Checkpoint.antt =====
-- `CheckpointStore` and its implementations in memory, in a file and in Redis
-- (go/logfilter/logfilter.go), and the block at which `main` starts (go/logfilter/main.go).
pub mod Laws
pub mod Start
mod Tests
use eip_toolkit.Prelude.{ℕ, zero, suc, Option, none, some, Bytes, GoError, Result, ok, err}
use eip_toolkit.Decimal.{format_uint, parse_uint}

-- The interface: the context is the error of a context that is done, and the state of the store is
-- passed along.
pub record CheckpointStore (S : Type 0) : Type 0 where
  pub save : Option GoError → ℕ → S → Option GoError × S
  pub load : Option GoError → S → Result ℕ

-- `MemoryCheckpointStore`.
pub record MemoryCheckpointStore : Type 0 where
  pub val : ℕ

abbrev pub new_memory_checkpoint_store : ℕ → MemoryCheckpointStore
new_memory_checkpoint_store init_val = record { val = init_val }

unfoldable pub memory_checkpoint : CheckpointStore MemoryCheckpointStore
memory_checkpoint = record {
  save = λ ctx block m. (none, record m { val = block });
  load = λ ctx m. ok m.val;
}

-- A path of the file system: the content of its file, if there is one, and what the next calls
-- meet: `WriteFile` may fail and leave something else, and `ReadFile` may fail where the file
-- exists.
pub record FileAt : Type 0 where
  pub content : Option Bytes
  pub write_error : Option (GoError × Option Bytes)
  pub read_error : Option GoError

abbrev pub write_file : Bytes → FileAt → Option GoError × FileAt
write_file bytes f = elim f.write_error [
  | some (e, left) ↦ (some e, record f { content = left })
  | none ↦ (none, record f { content = some bytes })
]

-- `FileCheckpointStore.Save`.
unfoldable pub file_save : Option GoError → ℕ → FileAt → Option GoError × FileAt
file_save (some e) block f = (some e, f)
file_save none block f = write_file (format_uint block) f

abbrev pub read_number : Option GoError → Option Bytes → Result ℕ
read_number e none = ok 0
read_number (some e) (some bytes) = err e
read_number none (some bytes) = parse_uint bytes

-- `FileCheckpointStore.Load`: a file that does not exist is block 0.
unfoldable pub file_load : Option GoError → FileAt → Result ℕ
file_load (some e) f = err e
file_load none f = read_number f.read_error f.content

unfoldable pub file_checkpoint : CheckpointStore FileAt
unfolding file_save file_load
file_checkpoint = record { save = file_save; load = file_load }

-- What the client of go-redis returns for `Get(ctx, key).Uint64()`.
pub data RedisReply : Type 0 where
  found : ℕ → RedisReply
  redis_nil : RedisReply
  broken : GoError → RedisReply

-- The client is a parameter: `Set` and `Get` of a number under a key.
pub record RedisClient (S : Type 0) : Type 0 where
  pub set : Option GoError → Bytes → ℕ → S → Option GoError × S
  pub get_uint64 : Option GoError → Bytes → S → RedisReply

abbrev pub redis_result : RedisReply → Result ℕ
redis_result (found v) = ok v
redis_result redis_nil = ok 0
redis_result (broken e) = err e

-- `RedisCheckpointStore`.
module _ {S : Type 0} (rdb : RedisClient S) (key : Bytes) where
  unfoldable pub redis_checkpoint : CheckpointStore S
  redis_checkpoint = record {
    save = λ ctx block s. rdb.set ctx key block s;
    load = λ ctx s. redis_result (rdb.get_uint64 ctx key s);
  }

-- The block at which `main` starts: START_BLOCK, or else the saved block, or else the head of the
-- chain; `err` where the head is needed and the node does not answer.
unfoldable pub start_block : ℕ → Result ℕ → Result ℕ → Result ℕ
start_block zero (ok (suc saved)) head = ok (suc saved)
start_block zero (ok zero) head = head
start_block zero (err e) head = head
start_block (suc n) saved head = ok (suc n)

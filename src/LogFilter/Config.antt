-- ===== src/LogFilter/Config.antt =====
-- How `main` reads its environment and sets its task up (go/logfilter/main.go).
pub mod Read
pub mod JsonFile
mod Tests
use eip_toolkit.Prelude.{
  ℕ, Bool, true, false, Option, none, some, List, [], ◌∷◌, ◌++◌, map, if◌then◌else◌, Bytes, codes,
  bytes_eq, GoError, text, message, Result, ok, err,
}
use eip_toolkit.Strings.{trim_space, split}
use eip_toolkit.Decimal.{parse_uint, format_uint}
use eip_toolkit.LogFilter.Checkpoint.{CheckpointStore, FileAt, write_file, start_block}
use eip_toolkit.LogFilter.Task.{LogTask}
use eip_toolkit.LogFilter.Semaphore.{RpcSemaphore, new_rpc_semaphore}
use eip_toolkit.LogFilter.Rpc.{RealRpc, new_real_rpc, with_max_retries}
use eip_toolkit.Prelude.Int.{pos}

-- `os.Getenv`, which is empty for a variable that is not set.
abbrev pub Getenv : Type 0
Getenv = Bytes → Bytes

abbrev or_default : Bytes → Bytes → Bytes
or_default [] def = def
or_default (c ∷ v) def = c ∷ v

unfoldable pub env : Getenv → Bytes → Bytes → Bytes
env getenv key def = or_default (getenv key) def

abbrev pub parsed_or : ℕ → Result ℕ → ℕ
parsed_or def (ok n) = n
parsed_or def (err e) = def

abbrev pub uint_or : Bytes → ℕ → ℕ
uint_or [] def = def
uint_or (c ∷ v) def = parsed_or def (parse_uint (c ∷ v))

unfoldable pub env_uint64 : Getenv → Bytes → ℕ → ℕ
env_uint64 getenv key def = uint_or (getenv key) def

-- The contract list: the parts between commas, trimmed.
unfoldable pub contracts_of : Getenv → List Bytes
contracts_of getenv = map trim_space (split b',' (env getenv (codes "CONTRACT_ADDRESS") []))

-- `json.Unmarshal` into a `map[string]uint64` is a parameter: the entries that it leaves.
abbrev pub Unmarshal : Type 0
Unmarshal = Bytes → Result (List (Bytes × ℕ))

-- `m[key]`; a key that occurs twice has its later value, and one that is missing has 0.
abbrev pub lookup_from : ℕ → Bytes → List (Bytes × ℕ) → ℕ
lookup_from found key [] = found
lookup_from found key ((k, n) ∷ m) = lookup_from (if bytes_eq k key then n else found) key m

-- `json.Marshal` of the map from `lastBlock` to a block.
abbrev pub marshal_block : ℕ → Bytes
marshal_block block = codes "{\"lastBlock\":" ++ format_uint block ++ codes "}"

-- `m["lastBlock"]` where the text was a map.
abbrev pub last_block : Result (List (Bytes × ℕ)) → Result ℕ
last_block (err e) = err e
last_block (ok m) = ok (lookup_from 0 (codes "lastBlock") m)

-- `fileCheckpoint`: the context is not looked at, and a file that does not exist is block 0.
module _ (unmarshal : Unmarshal) where
  abbrev pub read_json : Option GoError → Option Bytes → Result ℕ
  read_json e none = ok 0
  read_json (some e) (some bytes) = err e
  read_json none (some bytes) = last_block (unmarshal bytes)

  unfoldable pub json_load : FileAt → Result ℕ
  json_load f = read_json f.read_error f.content

  unfoldable pub json_save : ℕ → FileAt → Option GoError × FileAt
  json_save block f = write_file (marshal_block block) f

  unfoldable pub json_checkpoint : CheckpointStore FileAt
  unfolding json_load json_save
  json_checkpoint = record { save = λ ctx block f. json_save block f; load = λ ctx f. json_load f }

-- What `main` sets up: the task, its client, the path of the checkpoint, the address of Redis, if
-- the pool is there, the brokers and the topic of Kafka, if logs go there, and the semaphores.
pub record Setup : Type 0 where
  pub task : LogTask
  pub rpc : RealRpc
  pub checkpoint_file : Bytes
  pub redis_addr : Option Bytes
  pub kafka : Option (List Bytes × Bytes)
  pub rpc_sem : RpcSemaphore
  pub task_local_sem : RpcSemaphore

abbrev pub unless_empty : {A : Type 0} → Bytes → A → Option A
unless_empty [] a = none
unless_empty (c ∷ v) a = some a

-- The task before its start block is chosen.
abbrev pub task_of : Getenv → (Bytes → ℕ) → LogTask
task_of getenv parse_duration = record {
  task_name = codes "primary";
  address = contracts_of getenv;
  topics = [];
  checkpoint = env_uint64 getenv (codes "START_BLOCK") 0;
  batch_size = env_uint64 getenv (codes "BATCH_SIZE") 1000;
  live_mode = true;
  live_poll_interval = parse_duration (env getenv (codes "LIVE_POLL_INTERVAL") (codes "12s"));
  restart_backoff = 5_000_000_000;
  max_backoff = 120_000_000_000;
  confirm_block_num = env_uint64 getenv (codes "CONFIRM_BLOCKS") 6;
}

abbrev pub setup_of : Getenv → LogTask → RealRpc → Setup
setup_of getenv task rpc =
    let kb = env getenv (codes "KAFKA_BROKERS") [] in
    let redis = env getenv (codes "REDIS_ADDR") [] in
    record {
      task = task;
      rpc = rpc;
      checkpoint_file = env getenv (codes "CHECKPOINT_FILE") (codes "./checkpoint.json");
      redis_addr = unless_empty redis redis;
      kafka = unless_empty kb (split b',' kb, env getenv (codes "KAFKA_TOPIC") (codes "evm_logs"));
      rpc_sem = new_rpc_semaphore 10;
      task_local_sem = new_rpc_semaphore 3;
    }

-- `log.Fatalf("<prefix>%v", err)`.
abbrev pub fatal : Bytes → GoError → GoError
fatal prefix e = text (prefix ++ message e)

-- The client, and then the start block, from the checkpoint file and the head of the chain.
abbrev pub start_at : Getenv → LogTask → RealRpc → Result ℕ → Result Setup
start_at getenv task rpc (err e) = err (fatal (codes "get chain head: ") e)
start_at getenv task rpc (ok block) = ok (setup_of getenv (record task { checkpoint = block }) rpc)

abbrev pub connect : Getenv → LogTask → Result RealRpc → Result ℕ → Result ℕ → Result Setup
connect getenv task (err e) saved head = err (fatal (codes "dial rpc: ") e)
connect getenv task (ok rpc) saved head =
    start_at getenv task rpc (start_block task.checkpoint saved head)

abbrev pub is_blank : List Bytes → Bool
is_blank [] = true
is_blank ([] ∷ contracts) = true
is_blank ((c ∷ v) ∷ contracts) = false

-- `main` up to the start of the loop; an error is the message of `log.Fatal`. The duration of a
-- text, 0 where it is invalid, the error of the dial, and the head of the chain are arguments.
unfoldable pub setup :
    Getenv → (Bytes → ℕ) → Unmarshal → Option GoError → FileAt → Result ℕ → Result Setup
setup getenv parse_duration unmarshal dial f head = elim (env getenv (codes "RPC_URL") []) [
  | [] ↦ err (text (codes "RPC_URL is required"))
  | c ∷ url ↦
      if is_blank (contracts_of getenv)
      then err (text (codes "CONTRACT_ADDRESS is required"))
      else connect getenv (task_of getenv parse_duration)
          (new_real_rpc dial (with_max_retries (pos 3) ∷ [])) (json_load unmarshal f) head
]

-- ===== src/LogFilter/Config/Tests.antt =====
-- Runs of the configuration and witnesses of its properties.
use eip_toolkit.Prelude.{
  ℕ, ◌-◌, ◌<◌, ◌≡◌, refl, ap, ◌∙◌, none, some, List, [], ◌∷◌, ◌++◌, map, arith, u64_mod,
  if◌then◌else◌, length, take, drop, length-append, All, Bytes, codes, bytes_eq, GoError, text,
  Result, ok, err,
}
use eip_toolkit.Prelude.Int.{pos}
use eip_toolkit.Strings.{trim_left, trim_right, split, join}
use eip_toolkit.Decimal.{format_uint, parse_uint, parse_uint-format_uint}
use eip_toolkit.LogFilter.Checkpoint.{FileAt, start_block}
use eip_toolkit.LogFilter.Rpc.{new_real_rpc}
use eip_toolkit.LogFilter.Config.{
  Getenv, env, env_uint64, contracts_of, Setup, setup, setup_of, task_of, json_load, json_save,
  json_checkpoint,
}
use eip_toolkit.LogFilter.Config.Read.{
  Padded, written, IsPadded, contracts_of-join, env_uint64_reads,
}
use eip_toolkit.LogFilter.Config.JsonFile.{ReadsBack, restarted_main_resumes}

-- The text of a map with one entry, `{"lastBlock":<number>}`, is read by what stands behind the
-- first 13 bytes and in front of the last one.
abbrev front : Bytes → Bytes
front s = take (length s - 1) s

abbrev one_entry : Result ℕ → Result (List (Bytes × ℕ))
one_entry (err e) = err e
one_entry (ok n) = ok ((codes "lastBlock", n) ∷ [])

abbrev read_map : Bytes → Result (List (Bytes × ℕ))
read_map s = one_entry (parse_uint (front (drop 13 s)))

take_all : (s r : Bytes) → take (length s) (s ++ r) ≡ s
take_all [] r = refl
take_all (c ∷ s) r = ap (λ z. c ∷ z) (take_all s r)

front_lem : (s : Bytes) (c : ℕ) → front (s ++ c ∷ []) ≡ s
front_lem s c =
    let n : length (s ++ c ∷ []) - 1 ≡ length s = omega (arith, length-append s (c ∷ [])) in
    rw n (take_all s (c ∷ []))

read_map-ReadsBack : ReadsBack read_map
read_map-ReadsBack block fits =
    ap (λ z. one_entry (parse_uint z)) (front_lem (format_uint block) b'}')
    ∙ ap one_entry (parse_uint-format_uint block fits)

-- An environment by its variables.
abbrev environment : List (Bytes × Bytes) → Getenv
environment [] key = []
environment ((k, v) ∷ more) key = if bytes_eq k key then v else environment more key

abbrev two_contracts : Getenv
two_contracts = environment (
    (codes "RPC_URL", codes "http://node")
    ∷ (codes "CONTRACT_ADDRESS", codes "0xab, 0xcd ")
    ∷ (codes "BATCH_SIZE", codes "0")
    ∷ (codes "CONFIRM_BLOCKS", codes "six")
    ∷ [])

abbrev no_duration : Bytes → ℕ
no_duration s = 0

abbrev no_file : FileAt
no_file = record { content = none; write_error = none; read_error = none }

abbrev saved_77 : FileAt
saved_77 = record {
  content = some (codes "{\"lastBlock\":77}");
  write_error = none;
  read_error = none;
}

addresses_are_trimmed : contracts_of two_contracts ≡ codes "0xab" ∷ codes "0xcd" ∷ []
unfolding contracts_of env split trim_left trim_right
addresses_are_trimmed = refl

-- A comma behind the last address adds the empty one.
trailing_comma :
    contracts_of (environment ((codes "CONTRACT_ADDRESS", codes "0xab,") ∷ []))
    ≡ codes "0xab" ∷ [] ∷ []
unfolding contracts_of env split trim_left trim_right
trailing_comma = refl

no_url :
    setup (environment []) no_duration read_map none no_file (ok 90)
    ≡ err (text (codes "RPC_URL is required"))
unfolding setup env
no_url = refl

no_contract :
    setup
      (environment ((codes "RPC_URL", codes "http://node") ∷ []))
      no_duration
      read_map
      none
      no_file
      (ok 90)
    ≡ err (text (codes "CONTRACT_ADDRESS is required"))
unfolding setup env contracts_of split trim_left trim_right
no_contract = refl

no_head :
    setup two_contracts no_duration read_map none no_file (err (text (codes "gone")))
    ≡ err (text (codes "get chain head: gone"))
unfolding setup env env_uint64 contracts_of split trim_left trim_right new_real_rpc json_load
    start_block
no_head = refl

-- The task of `main` behind a checkpoint.
abbrev main_at : ℕ → Setup
main_at block =
    setup_of two_contracts (record (task_of two_contracts no_duration) { checkpoint = block })
      (record { max_retries = pos 3; retry_base_wait = 500_000_000 })

main_at_77 : setup two_contracts no_duration read_map none saved_77 (ok 90) ≡ ok (main_at 77)
unfolding setup env env_uint64 contracts_of split trim_left trim_right new_real_rpc json_load
    start_block parse_uint
main_at_77 = refl

-- A batch size of 0 is taken as it is, and confirmations that are no number count as not set.
main_numbers : ((main_at 77).task.batch_size ≡ 0) × ((main_at 77).task.confirm_block_num ≡ 6)
unfolding env_uint64 parse_uint
main_numbers = (refl, refl)

save_77 : (json_checkpoint read_map).save none 77 no_file ≡ (none, saved_77)
unfolding json_checkpoint json_save format_uint
save_77 = refl

start_block_unset : env_uint64 two_contracts (codes "START_BLOCK") 0 ≡ 0
unfolding env_uint64
start_block_unset = refl

abbrev first : Padded
first = record { left = []; address = codes "0xab"; right = [] }

abbrev second : Padded
second = record { left = codes " "; address = codes "0xcd"; right = codes " " }

both-IsPadded : All IsPadded (first ∷ second ∷ [])
both-IsPadded = ground arith

listed : two_contracts (codes "CONTRACT_ADDRESS") ≡ join b',' (map written (first ∷ second ∷ []))
unfolding join
listed = refl

contracts_of-join_example : contracts_of two_contracts ≡ codes "0xab" ∷ codes "0xcd" ∷ []
contracts_of-join_example = contracts_of-join two_contracts first (second ∷ []) both-IsPadded listed

env_uint64_reads_example :
    ((n : ℕ)
      → n < u64_mod
      → two_contracts (codes "BATCH_SIZE") ≡ format_uint n
      → env_uint64 two_contracts (codes "BATCH_SIZE") 1000 ≡ n)
    × ((e : GoError)
        → parse_uint (two_contracts (codes "BATCH_SIZE")) ≡ err e
        → env_uint64 two_contracts (codes "BATCH_SIZE") 1000 ≡ 1000)
env_uint64_reads_example = env_uint64_reads two_contracts (codes "BATCH_SIZE") 1000

restarted_main_resumes_example : (main_at 77).task.checkpoint ≡ 77
restarted_main_resumes_example =
    restarted_main_resumes two_contracts no_duration read_map none none 77 no_file saved_77 (ok 90)
      (main_at 77) read_map-ReadsBack (omega arith) (omega arith) refl save_77 start_block_unset
      main_at_77

-- ===== src/LogFilter/Config/JsonFile.antt =====
-- The checkpoint file of `main` and what a restart makes of it (go/logfilter/main.go).
use eip_toolkit.LogFilter.Checkpoint.Start.{restart_resumes}
use eip_toolkit.Prelude.{
  ℕ, ◌≤◌, ◌<◌, ◌≡◌, refl, ap, subst, ok_eq, ◌≢◌, inl, inr, false, Option, none, some, [], ◌∷◌,
  arith, u64_mod, Bool-cases, List-cases, Bytes, codes, GoError, Result, ok, err,
}
use eip_toolkit.LogFilter.Checkpoint.{FileAt, start_block}
use eip_toolkit.LogFilter.Checkpoint.Laws.{Keeps, CanRead, written}
use eip_toolkit.LogFilter.Rpc.{new_real_rpc}
use eip_toolkit.LogFilter.Config.{
  Getenv, env, env_uint64, contracts_of, Unmarshal, last_block, json_load, json_save,
  json_checkpoint, Setup, setup, is_blank, task_of, LogTask, connect, RealRpc, with_max_retries,
  start_at, pos, marshal_block,
}

-- encoding/json reads the map back that it has written.
abbrev pub ReadsBack : Unmarshal → Type 0
ReadsBack unmarshal =
    (block : ℕ)
    → block < u64_mod
    → unmarshal (marshal_block block) ≡ ok ((codes "lastBlock", block) ∷ [])

-- Where encoding/json reads its own text back, the JSON file keeps the contract of the stores.
pub json_checkpoint-Keeps :
    (unmarshal : Unmarshal) → ReadsBack unmarshal → Keeps (json_checkpoint unmarshal) CanRead
unfolding json_checkpoint json_save json_load
json_checkpoint-Keeps unmarshal back ctx block f f' fits readable h =
    rw (readable, written (marshal_block block) f f' h) (ap last_block (back block fits))

-- The task that `setup` leaves, but for its start block.
abbrev Started : LogTask → Result ℕ → Setup → Type 0
Started task r s =
    (r ≡ ok s.task.checkpoint) × (s.task ≡ record task { checkpoint = s.task.checkpoint })

start_at_lem :
    (getenv : Getenv) (task : LogTask) (rpc : RealRpc) (r : Result ℕ) (s : Setup)
    → start_at getenv task rpc r ≡ ok s
    → Started task r s
start_at_lem getenv task rpc (err e) s h = cc
start_at_lem getenv task rpc (ok block) s h =
    subst (λ z. Started task (ok block) z) (ok_eq h) (refl, refl)

connect_lem :
    (getenv : Getenv) (task : LogTask) (dial : Option GoError) (saved head : Result ℕ) (s : Setup)
    → connect getenv task (new_real_rpc dial (with_max_retries (pos 3) ∷ [])) saved head ≡ ok s
    → (dial ≡ none) × Started task (start_block task.checkpoint saved head) s
unfolding new_real_rpc
connect_lem getenv task (some e) saved head s h = cc
connect_lem getenv task none saved head s h = (refl, start_at_lem getenv task _ _ s h)

-- Where `main` comes as far as its loop, the client was dialled, RPC_URL is set, the first contract
-- is not empty, and the task has the contracts, the batch size and the confirmations of the
-- environment; it starts at the block of `start_block`: START_BLOCK, the checkpoint file's, or the
-- head.
pub setup_starts :
    (getenv : Getenv) (parse_duration : Bytes → ℕ) (unmarshal : Unmarshal) (dial : Option GoError)
    (f : FileAt) (head : Result ℕ) (s : Setup)
    → setup getenv parse_duration unmarshal dial f head ≡ ok s
    → (env getenv (codes "RPC_URL") [] ≢ [])
      × (is_blank (contracts_of getenv) ≡ false)
      × (dial ≡ none)
      × (start_block (env_uint64 getenv (codes "START_BLOCK") 0) (json_load unmarshal f) head
          ≡ ok s.task.checkpoint)
      × (s.task ≡ record (task_of getenv parse_duration) { checkpoint = s.task.checkpoint })
unfolding setup
setup_starts getenv parse_duration unmarshal dial f head s h =
    elim (List-cases (env getenv (codes "RPC_URL") [])) [
      | inl e ↦ ground arith
      | inr (c, url, e) ↦ elim (Bool-cases (is_blank (contracts_of getenv))) [
        | inl blank ↦ ground arith
        | inr named ↦
            let done : connect getenv (task_of getenv parse_duration)
                  (new_real_rpc dial (with_max_retries (pos 3) ∷ [])) (json_load unmarshal f) head
                ≡ ok s =
              ground arith in
            let (d, (b, t)) = connect_lem getenv _ dial _ head s done in
            ((λ empty. cc), named, d, b, t)
      ]
    ]

-- A restart without START_BLOCK goes on where the last save succeeded, whatever the head is: the
-- block that the task saved before is the one at which the task of the new `main` starts. The block
-- is a 64-bit number other than 0, and the file can be read.
pub restarted_main_resumes :
    (getenv : Getenv) (parse_duration : Bytes → ℕ) (unmarshal : Unmarshal) (dial : Option GoError)
    (ctx : Option GoError) (block : ℕ) (f f' : FileAt) (head : Result ℕ) (s : Setup)
    → ReadsBack unmarshal
    → 1 ≤ block
    → block < u64_mod
    → CanRead f'
    → (json_checkpoint unmarshal).save ctx block f ≡ (none, f')
    → env_uint64 getenv (codes "START_BLOCK") 0 ≡ 0
    → setup getenv parse_duration unmarshal dial f' head ≡ ok s
    → s.task.checkpoint ≡ block
unfolding json_checkpoint
restarted_main_resumes getenv parse_duration unmarshal dial ctx block f f' head s back positive fits
      readable saved unset h =
    let (url, named, d, b, t) = setup_starts getenv parse_duration unmarshal dial f' head s h in
    let resumed =
      restart_resumes (json_checkpoint unmarshal) CanRead ctx block f f' head
        (json_checkpoint-Keeps unmarshal back) fits readable saved in
    ground arith

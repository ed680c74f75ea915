-- ===== src/LogFilter/Redis.antt =====
-- `RedisPendingPool` (go/logfilter/logfilter.go) over a key-value store and the set of heights. The
-- client of go-redis and encoding/json are parameters: what they answer, and the JSON of logs.
pub mod Kept
pub mod Pipeline
pub mod Gather
pub mod Spec
pub mod Popped
pub mod Held
pub mod Laws
pub mod Interface
pub mod Sync
pub mod Encoding
pub mod Removed
mod Tests
use eip_toolkit.Prelude.{
  ℕ, Bool, true, false, Option, none, some, List, [], ◌∷◌, ◌++◌, if◌then◌else◌, length, Bytes,
  codes, bytes_eq, GoError, wrap, Result, ok, err,
}
use eip_toolkit.Decimal.{format_uint, parse_uint}
use eip_toolkit.LogFilter.Log.{LogResult, contains}
use eip_toolkit.LogFilter.Pool.{PendingPool, is_confirmed}

-- The keys of the pool in Redis: the payloads, and the members of the index set.
pub record Redis : Type 0 where
  pub kv : Bytes → Option Bytes
  pub index : List Bytes

-- The commands that the pool puts into a transaction.
pub data Command : Type 0 where
  set_key : Bytes → Bytes → Command
  del : Bytes → Command
  sadd srem : Bytes → Command

abbrev pub remove : Bytes → List Bytes → List Bytes
remove m [] = []
remove m (x ∷ xs) = if bytes_eq m x then remove m xs else x ∷ remove m xs

abbrev pub apply : Command → Redis → Redis
apply (set_key k v) r = record r { kv = λ j. if bytes_eq j k then some v else r.kv j }
apply (del k) r = record r { kv = λ j. if bytes_eq j k then none else r.kv j }
apply (sadd m) r = record r { index = if contains m r.index then r.index else m ∷ r.index }
apply (srem m) r = record r { index = remove m r.index }

unfoldable pub exec : List Command → Redis → Redis
exec [] r = r
exec (c ∷ cs) r = exec cs (apply c r)

abbrev pub keep : (Command → Bool) → List Command → List Command
keep applied [] = []
keep applied (c ∷ cs) = if applied c then c ∷ keep applied cs else keep applied cs

-- What the client answers during one method: errors of `SMembers` and of `Get` by its key, the order
-- in which the members come, and an error of `Exec` with the commands that were applied all the
-- same: all but those that failed, all where the reply was lost, or none.
pub record Client : Type 0 where
  pub smembers_error : Option GoError
  pub visit : List Bytes → List Bytes
  pub get_error : Bytes → Option GoError
  pub exec_failure : Option (GoError × (Command → Bool))

-- `json.Marshal` and `json.Unmarshal` of a list of logs.
pub record Json : Type 0 where
  pub marshal : List LogResult → Result Bytes
  pub unmarshal : Bytes → Result (List LogResult)

-- `blockKey`.
abbrev pub block_key : Bytes → ℕ → Bytes
block_key prefix h = prefix ++ codes ":block:" ++ format_uint h

abbrev pub run_pipe : Client → List Command → Redis → Option GoError × Redis
run_pipe client pipe r = elim client.exec_failure [
  | some (e, applied) ↦ (some e, exec (keep applied pipe) r)
  | none ↦ (none, exec pipe r)
]

-- `if len(out) > 0`: only then is the pipeline run.
abbrev pub finish :
    Client → Redis → Result (List LogResult × List Command) → Result (List LogResult) × Redis
finish client r (err e) = (err e, r)
finish client r (ok ([], pipe)) = (ok [], r)
finish client r (ok (l ∷ out, pipe)) =
    let (e, r') = run_pipe client pipe r in
    elim e [ some err' ↦ (err err', r') | none ↦ (ok (l ∷ out), r') ]

-- `Count`; `SCard` answers as `SMembers` does.
abbrev pub count : Client → Redis → Result ℕ
count client r = elim client.smembers_error [ some e ↦ err e | none ↦ ok (length r.index) ]

module _ (json : Json) (prefix : Bytes) where
  -- `Add`.
  unfoldable pub add : Client → ℕ → List LogResult → Redis → Option GoError × Redis
  add client h logs r = elim (json.marshal logs) [
    | err e ↦ (some (wrap (codes "marshal pending logs: ") e), r)
    | ok payload ↦
        run_pipe client (set_key (block_key prefix h) payload ∷ sadd (format_uint h) ∷ []) r
  ]

  -- The loop of `PopConfirmed` over the members: the logs so far, and the pipeline so far.
  unfoldable pub pop_from :
      Client
      → ℕ
      → ℕ
      → Redis
      → List Bytes
      → List LogResult
      → List Command
      → Result (List LogResult × List Command)
  pop_from client latest confirm r [] out pipe = ok (out, pipe)
  pop_from client latest confirm r (m ∷ members) out pipe = elim (parse_uint m) [
    | err e ↦ pop_from client latest confirm r members out pipe
    | ok h ↦ elim (is_confirmed latest confirm h) [
      | false ↦ pop_from client latest confirm r members out pipe
      | true ↦ elim (client.get_error (block_key prefix h)) [
        | some e ↦ err e
        | none ↦ elim (r.kv (block_key prefix h)) [
          | none ↦ pop_from client latest confirm r members out (pipe ++ srem (format_uint h) ∷ [])
          | some payload ↦ elim (json.unmarshal payload) [
            | err e ↦ err (wrap (codes "unmarshal pending block " ++ format_uint h ++ codes ": ") e)
            | ok logs ↦
                pop_from client latest confirm r members (out ++ logs)
                  (pipe ++ del (block_key prefix h) ∷ srem (format_uint h) ∷ [])
          ]
        ]
      ]
    ]
  ]

  unfoldable pub pop_confirmed : Client → ℕ → ℕ → Redis → Result (List LogResult) × Redis
  pop_confirmed client latest confirm r = elim client.smembers_error [
    | some e ↦ (err e, r)
    | none ↦ finish client r (pop_from client latest confirm r (client.visit r.index) [] [])
  ]

-- `RedisPendingPool` behind the interface, with a client that answers the same way throughout.
abbrev pub redis_pending_pool : Json → Bytes → Client → PendingPool Redis
redis_pending_pool json prefix client = record {
  add = λ h logs r. add json prefix client h logs r;
  pop_confirmed = λ latest confirm r. pop_confirmed json prefix client latest confirm r;
  count = λ r. count client r;
}

-- ===== src/Scdo/Client.antt =====
-- The JSON-RPC client of an SCDO node (go/scdo/jsonrpc.go, go/scdo/client.go). encoding/json and
-- net/http are parameters.
pub mod Call
pub mod Receipts
mod Tests
use eip_toolkit.Prelude.{
  ℕ, suc, Bool, false, ◌&&◌, ◌||◌, Option, none, some, List, [], ◌∷◌, ◌++◌, ◌==◌, if◌then◌else◌,
  Bytes, codes, bytes_eq, GoError, text, message, Result, ok, err,
}
use eip_toolkit.Prelude.Int.{ℤ, pos, negsuc}
use eip_toolkit.Decimal.{format_uint}
use eip_toolkit.Strings.{contains}
use eip_toolkit.Scdo.BigInt.{set_string_0}
use eip_toolkit.Scdo.Tx.{TxObj, Node}

-- A parameter of a call.
pub data Param : Type 0 where
  text_param : Bytes → Param
  int_param : ℤ → Param
  tx_param : TxObj → Param

-- `rpcRequest`; the version is "2.0" and the id is 1 in each.
pub record RpcRequest : Type 0 where
  pub version : Bytes
  pub method : Bytes
  pub params : List Param
  pub id : ℕ

abbrev pub request_of : Bytes → List Param → RpcRequest
request_of method params = record {
  version = codes "2.0";
  method = method;
  params = params;
  id = 1;
}

-- `rpcResponse` by the fields that are read: the raw result, empty where there is none, and the code
-- and the message of the error, if there is one.
pub record RpcResponse : Type 0 where
  pub result : Bytes
  pub error : Option (ℤ × Bytes)

-- What the client calls: `json.Marshal` of a request, `http.NewRequestWithContext` with the URL and
-- the text, `Do`, with `io.ReadAll` of the body that it returns, and `json.Unmarshal` of the body.
pub record Http : Type 0 where
  pub marshal : RpcRequest → Result Bytes
  pub new_request : Bytes → Bytes → Option GoError
  pub send : Bytes → Bytes → Result (Result Bytes)
  pub unmarshal : Bytes → Result RpcResponse

pub record JsonRpc : Type 0 where
  pub url : Bytes
  pub client : Http

-- The result that a caller passes: nil, or what `json.Unmarshal` makes of it, which may have changed
-- it where it fails.
pub data Target (A : Type 0) : Type 0 where
  nil_target : Target A
  decode_with : (Bytes → A → Option GoError × A) → Target A

-- `%d` of an int.
abbrev pub format_int : ℤ → Bytes
format_int (pos n) = format_uint n
format_int (negsuc n) = b'-' ∷ format_uint (suc n)

-- `fmt.Errorf("<prefix>%w<middle>%s", err, body)` as its text; no caller asks what it wraps.
abbrev pub with_body : Bytes → GoError → Bytes → Bytes → GoError
with_body prefix e middle body = text (prefix ++ message e ++ middle ++ body)

abbrev pub rpc_error : ℤ → Bytes → GoError
rpc_error code m = text (codes "RPC error " ++ format_int code ++ codes ": " ++ m)

-- `len(raw) == 0 || string(raw) == "null"`.
abbrev pub is_absent : Bytes → Bool
is_absent raw = bytes_eq raw [] || bytes_eq raw (codes "null")

module _ {A : Type 0} where
  abbrev pub after_unmarshal : Bytes → Option GoError × A → Option GoError × A
  after_unmarshal raw (none, a) = (none, a)
  after_unmarshal raw (some e, a) =
      (some (with_body (codes "unmarshal result: ") e (codes ", raw: ") raw), a)

  -- What is done with the raw result.
  abbrev pub read_result : Target A → A → Bytes → Option GoError × A
  read_result nil_target a raw = (none, a)
  read_result (decode_with decode) a raw =
      if is_absent raw then (none, a) else after_unmarshal raw (decode raw a)

  abbrev pub read_response : Target A → A → Bytes → Result RpcResponse → Option GoError × A
  read_response target a body (err e) =
      (some (with_body (codes "decode response: ") e (codes ", body: ") body), a)
  read_response target a body (ok r) = elim r.error [
    | some (code, m) ↦ (some (rpc_error code m), a)
    | none ↦ read_result target a r.result
  ]

  abbrev pub read_body : Http → Target A → A → Result (Result Bytes) → Option GoError × A
  read_body http target a (err e) = (some e, a)
  read_body http target a (ok (err e)) = (some e, a)
  read_body http target a (ok (ok body)) = read_response target a body (http.unmarshal body)

  -- `callContext`.
  unfoldable pub call_context : JsonRpc → Target A → A → Bytes → List Param → Option GoError × A
  call_context r target a method params = elim (r.client.marshal (request_of method params)) [
    | err e ↦ (some e, a)
    | ok buf ↦ elim (r.client.new_request r.url buf) [
      | some e ↦ (some e, a)
      | none ↦ read_body r.client target a (r.client.send r.url buf)
    ]
  ]

-- encoding/json for the results of the calls.
pub record Decoders (R : Type 0) : Type 0 where
  pub decode_uint64 : Bytes → ℕ → Option GoError × ℕ
  pub decode_string : Bytes → Bytes → Option GoError × Bytes
  pub decode_bool : Bytes → Bool → Option GoError × Bool
  pub decode_receipt : Bytes → R → Option GoError × R

-- `Receipt`; its logs are the raw texts.
pub record Receipt : Type 0 where
  pub tx_hash : Bytes
  pub contract_address : Bytes
  pub failed : Bool
  pub used_gas : ℕ
  pub post_state : Bytes
  pub result : Bytes
  pub total_fee : Option ℤ
  pub logs : List Bytes

abbrev pub no_receipt : Receipt
no_receipt = record {
  tx_hash = [];
  contract_address = [];
  failed = false;
  used_gas = 0;
  post_state = [];
  result = [];
  total_fee = none;
  logs = [];
}

-- `Client`.
pub record Client : Type 0 where
  pub rpc_url : Bytes
  pub http : JsonRpc

abbrev pub new_json_rpc : Http → Bytes → JsonRpc
new_json_rpc http url = record { url = url; client = http }

-- `Dial`, which never fails.
abbrev pub dial : Http → Bytes → Client
dial http rpc_url = record { rpc_url = rpc_url; http = new_json_rpc http rpc_url }

abbrev pub outcome : {A : Type 0} → Option GoError × A → Result A
outcome (none, a) = ok a
outcome (some e, a) = err e

abbrev pub state_params : Bytes → ℤ → List Param
state_params addr height = text_param addr ∷ text_param [] ∷ int_param height ∷ []

abbrev pub balance_of : Bytes → Option ℤ → Result ℤ
balance_of hex none = err (text (codes "invalid balance hex: " ++ hex))
balance_of hex (some n) = ok n

abbrev pub on_balance : Option GoError × Bytes → Result ℤ
on_balance (some e, hex) = err e
on_balance (none, hex) = balance_of hex (set_string_0 hex)

abbrev pub is_empty_receipt : Receipt → Bool
is_empty_receipt r = bytes_eq r.tx_hash [] && bytes_eq r.contract_address [] && (r.used_gas == 0)

abbrev pub on_receipt : Option GoError × Receipt → Result (Option Receipt)
on_receipt (some e, r) =
    if contains (message e) (codes "leveldb: not found") then ok none else err e
on_receipt (none, r) = if is_empty_receipt r then ok none else ok (some r)

module _ (json : Decoders Receipt) (c : Client) where
  -- `BlockHeight`.
  unfoldable pub block_height : Result ℕ
  block_height =
      outcome
        (call_context c.http (decode_with json.decode_uint64) 0 (codes "scdo_getBlockHeight") [])

  -- `Balance`.
  unfoldable pub balance : Bytes → ℤ → Result ℤ
  balance addr height = on_balance (
      call_context c.http (decode_with json.decode_string) [] (codes "scdo_getBalance")
        (state_params addr height))

  -- `Nonce`.
  unfoldable pub nonce : Bytes → ℤ → Result ℕ
  nonce addr height = outcome (
      call_context c.http (decode_with json.decode_uint64) 0 (codes "scdo_getAccountNonce")
        (state_params addr height))

  -- `GetReceipt`; `none` is the nil receipt.
  unfoldable pub get_receipt : Bytes → Result (Option Receipt)
  get_receipt tx_hash = on_receipt (
      call_context c.http (decode_with json.decode_receipt) no_receipt
        (codes "scdo_getReceiptByTxHash") (text_param tx_hash ∷ text_param [] ∷ []))

  -- The calls of `SendTx`, as it makes them through the client.
  unfoldable pub client_node : Node
  unfolding block_height nonce
  client_node = record {
    height = block_height;
    account_nonce = nonce;
    added = λ obj. outcome (
        call_context c.http (decode_with json.decode_bool) false (codes "scdo_addTx")
          (tx_param obj ∷ []));
  }

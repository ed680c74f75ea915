-- ===== src/Scdo/Tx.antt =====
-- `SendTx` and `DeployContract` (go/scdo/tx.go), with the placeholder of a signature
-- (go/scdo/wallet.go). The node answers each RPC call, and the calls are recorded in order.
pub mod Sent
mod Tests
use eip_toolkit.Prelude.{
  ℕ, zero, suc, ◌-◌, ◌^◌, Bool, true, false, Option, none, some, List, [], ◌∷◌, ◌++◌, u64_mod, ltb,
  ◌==◌, if◌then◌else◌, Bytes, codes, text, wrap, Result, ok, err,
}
use eip_toolkit.Prelude.Int.{ℤ, pos, negsuc}
use eip_toolkit.Decimal.{format_uint, format_big}
use eip_toolkit.Hex.{encode_to_string}

-- A `*big.Int` of Go may be nil.
pub record Tx : Type 0 where
  pub to : Bytes
  pub amount : Option ℤ
  pub gas_price : Option ℤ
  pub gas_limit : ℕ
  pub payload : Bytes
  pub nonce : ℕ

-- The object of `scdo_addTx`; its `Type` is always 0, and `signature_message` is the text in the placeholder.
pub record TxObj : Type 0 where
  pub from : Bytes
  pub to : Bytes
  pub amount : Bytes
  pub account_nonce : ℕ
  pub gas_price : Bytes
  pub gas_limit : ℕ
  pub payload : Bytes
  pub signature_message : Bytes

pub data RpcCall : Type 0 where
  get_block_height : RpcCall
  get_account_nonce : Bytes → ℤ → RpcCall
  add_tx : TxObj → RpcCall

-- The answers of the node.
pub record Node : Type 0 where
  pub height : Result ℕ
  pub account_nonce : Bytes → ℤ → Result ℕ
  pub added : TxObj → Result Bool

-- `int64(height)`.
abbrev pub int64 : ℕ → ℤ
int64 h = if ltb h (2 ^ 63) then pos h else negsuc (u64_mod - h - 1)

-- The nonce of the transaction: its own, or, where that is 0, the account's at the head.
unfoldable pub fetch_nonce : Node → Bytes → ℕ → Result ℕ × List RpcCall
fetch_nonce node from_addr zero = elim node.height [
  | err e ↦ (err (wrap (codes "get height: ") e), get_block_height ∷ [])
  | ok h ↦
      let calls = get_block_height ∷ get_account_nonce from_addr (int64 h) ∷ [] in
      elim (node.account_nonce from_addr (int64 h)) [
        | err e ↦ (err (wrap (codes "get nonce: ") e), calls)
        | ok n ↦ (ok n, calls)
      ]
]
fetch_nonce node from_addr (suc n) = (ok (suc n), [])

-- `SignTransaction`, a placeholder that never fails: its message, by the nonce of the object.
abbrev pub sign_transaction : ℕ → Bytes
sign_transaction account_nonce = codes "sign tx nonce=" ++ format_uint account_nonce

-- `String` of a `*big.Int`.
abbrev pub big_text : Option ℤ → Bytes
big_text none = codes "<nil>"
big_text (some (pos n)) = format_big n
big_text (some (negsuc n)) = b'-' ∷ format_big (suc n)

-- `txObj`, and its signature; `0x%x` prints two digits for each byte of the payload.
abbrev pub tx_obj : Bytes → ℕ → Tx → TxObj
tx_obj from_addr n tx = record {
  from = from_addr;
  to = tx.to;
  amount = big_text tx.amount;
  account_nonce = n;
  gas_price = big_text tx.gas_price;
  gas_limit = tx.gas_limit;
  payload = codes "0x" ++ encode_to_string tx.payload;
  signature_message = sign_transaction n;
}

-- What follows `scdo_addTx`.
abbrev pub on_added : Result Bool → Result Bytes
on_added (err e) = err (wrap (codes "addTx: ") e)
on_added (ok false) = err (text (codes "addTx returned false"))
on_added (ok true) = ok []

abbrev pub broadcast : Node → Bytes → Tx → Result ℕ × List RpcCall → Result Bytes × List RpcCall
broadcast node from_addr tx (err e, calls) = (err e, calls)
broadcast node from_addr tx (ok n, calls) =
    let obj = tx_obj from_addr n tx in (on_added (node.added obj), calls ++ add_tx obj ∷ [])

-- `SendTx`; `from_addr` is what `PubkeyToAddress` makes of the key, always without an error.
unfoldable pub send_tx : Node → Bytes → Tx → Result Bytes × List RpcCall
send_tx node from_addr tx = broadcast node from_addr tx (fetch_nonce node from_addr tx.nonce)

unfoldable pub deploy_contract : Node → Bytes → Bytes → ℕ → Result Bytes × List RpcCall
deploy_contract node from_addr bytecode gas_limit = send_tx node from_addr (record {
  to = [];
  amount = some (pos 0);
  gas_price = some (pos 1);
  gas_limit = if gas_limit == 0 then 200_000 else gas_limit;
  payload = bytecode;
  nonce = 0;
})

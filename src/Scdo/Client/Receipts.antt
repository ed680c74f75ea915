-- ===== src/Scdo/Client/Receipts.antt =====
-- What the methods of the client return, by the response of the node (go/scdo/client.go), and the
-- transaction of `SendTx` over this client (go/scdo/tx.go).
use eip_toolkit.Scdo.BigInt.Digits.{set_string_0-format_hex}
use eip_toolkit.Scdo.Tx.Sent.{send_tx_sends, NonceFrom}
use eip_toolkit.Scdo.BigInt.{format_hex}
use eip_toolkit.Scdo.Client.Call.{Answered, call_context-Answered, call_context_ok}
use eip_toolkit.Scdo.Tx.{Tx, send_tx, RpcCall, add_tx, tx_obj}
use eip_toolkit.Prelude.{
  ℕ, ◌≡◌, sym, ap, ◌∙◌, ok_eq, inl, inr, true, false, Option, none, some, List, [], ◌∷◌, ◌++◌,
  arith, if◌then◌else◌, Bool-cases, Bytes, codes, GoError, message, ok, err,
}
use eip_toolkit.Prelude.Int.{ℤ, pos}
use eip_toolkit.Strings.{contains, contains-append}
use eip_toolkit.Scdo.Client.{
  Param, text_param, Decoders, Receipt, no_receipt, Client, rpc_error, is_empty_receipt, on_receipt,
  client_node, balance, get_receipt, outcome, RpcResponse, format_int, state_params, is_absent,
  decode_with, tx_param, balance_of, on_balance,
}

abbrev pub get_receipt_method : Bytes
get_receipt_method = codes "scdo_getReceiptByTxHash"

abbrev pub receipt_params : Bytes → List Param
receipt_params tx_hash = text_param tx_hash ∷ text_param [] ∷ []

abbrev pub not_found : Bytes
not_found = codes "leveldb: not found"

not_mined :
    (code : ℤ) (m : Bytes)
    → contains m not_found ≡ true
    → on_receipt (some (rpc_error code m), no_receipt) ≡ ok none
not_mined code m h =
    ap (λ b. if b then ok none else err (rpc_error code m))
      (contains-append (codes "RPC error " ++ format_int code ++ codes ": ") m not_found h)

returned_receipt :
    (p : Option GoError × Receipt) (r : Receipt)
    → on_receipt p ≡ ok (some r)
    → (p ≡ (none, r)) × (is_empty_receipt r ≡ false)
returned_receipt (some e, q) r h = elim (Bool-cases (contains (message e) not_found)) [
  | inl gone ↦ ground arith
  | inr other ↦ ground arith
]
returned_receipt (none, q) r h = elim (Bool-cases (is_empty_receipt q)) [
  | inl empty ↦ ground arith
  | inr found ↦ ground arith
]

impossible : true ≡ false → ⊥
impossible e = cc

no_receipt-empty : (r : Receipt) → r ≡ no_receipt → is_empty_receipt r ≡ false → ⊥
no_receipt-empty r e f = impossible (sym (ap is_empty_receipt e) ∙ f)

outcome_ok : {A : Type 0} (p : Option GoError × A) (a : A) → outcome p ≡ ok a → p ≡ (none, a)
outcome_ok (none, b) a h = ap (λ z. (none, z)) (ok_eq h)
outcome_ok (some e, b) a h = cc

module _ (json : Decoders Receipt) (c : Client) where
  -- A transaction that the node reports as not found, by an error whose message says so, has no
  -- receipt and no error; and a receipt is returned only where the node answered without an error,
  -- with a result that decodes to this receipt, which has a hash, a contract or gas.
  pub get_receipt_by_answer :
      (tx_hash : Bytes)
      → ((resp : RpcResponse) (code : ℤ) (m : Bytes)
          → Answered c.http get_receipt_method (receipt_params tx_hash) resp
          → resp.error ≡ some (code, m)
          → contains m not_found ≡ true
          → get_receipt json c tx_hash ≡ ok none)
        × ((r : Receipt)
            → get_receipt json c tx_hash ≡ ok (some r)
            → (resp : RpcResponse) × Answered c.http get_receipt_method
                (receipt_params tx_hash)
                resp
              × (resp.error ≡ none)
              × (json.decode_receipt resp.result no_receipt ≡ (none, r))
              × (is_empty_receipt r ≡ false))
  unfolding get_receipt
  get_receipt_by_answer tx_hash = (absent, found)
    where
      absent :
          (resp : RpcResponse) (code : ℤ) (m : Bytes)
          → Answered c.http get_receipt_method (receipt_params tx_hash) resp
          → resp.error ≡ some (code, m)
          → contains m not_found ≡ true
          → get_receipt json c tx_hash ≡ ok none
      absent resp code m answered bad h =
          let call =
            call_context-Answered c.http (decode_with json.decode_receipt) no_receipt
              get_receipt_method (receipt_params tx_hash) resp answered in
          ap on_receipt {y = (some (rpc_error code m), no_receipt)} (call ∙ ground arith)
          ∙ not_mined code m h

      found :
          (r : Receipt)
          → get_receipt json c tx_hash ≡ ok (some r)
          → (resp : RpcResponse) × Answered c.http get_receipt_method (receipt_params tx_hash) resp
            × (resp.error ≡ none)
            × (json.decode_receipt resp.result no_receipt ≡ (none, r))
            × (is_empty_receipt r ≡ false)
      found r h =
          let (called, full) = returned_receipt _ r h in
          let (resp, answered, (fine, left)) =
            (call_context_ok c.http json.decode_receipt no_receipt r get_receipt_method
                (receipt_params tx_hash)).0
              called in
          elim left [
            | inl (gone, kept) ↦ absurd (no_receipt-empty r kept full)
            | inr (there, decoded) ↦ (resp, answered, fine, decoded, full)
          ]

  -- Where the node answers with the hexadecimal text of a number that is not negative, `Balance`
  -- returns this number.
  pub balance_reads :
      (addr : Bytes) (height : ℤ) (resp : RpcResponse) (n : ℕ)
      → Answered c.http (codes "scdo_getBalance") (state_params addr height) resp
      → resp.error ≡ none
      → is_absent resp.result ≡ false
      → json.decode_string resp.result [] ≡ (none, format_hex (pos n))
      → balance json c addr height ≡ ok (pos n)
  unfolding balance
  balance_reads addr height resp n answered fine there decoded =
      let call =
        (call_context_ok c.http json.decode_string [] (format_hex (pos n)) (codes "scdo_getBalance")
            (state_params addr height)).1
          (resp, answered, (fine, inr (there, decoded))) in
      ap on_balance call ∙ ap (balance_of (format_hex (pos n))) (set_string_0-format_hex n)

  -- A call of `SendTx` over the client that succeeds returns the empty string and has sent one
  -- transaction, as its last call, which the node has accepted: its answer has no error and a
  -- result that decodes to true. The nonce is the one that was given, or, where that is 0, the
  -- account's at the head, which two calls before it have asked for.
  pub sent_tx_was_accepted :
      (from_addr : Bytes) (tx : Tx) (hash : Bytes)
      → (send_tx (client_node json c) from_addr tx).0 ≡ ok hash
      → (hash ≡ [])
        × (n : ℕ) × (calls : List RpcCall) × (resp : RpcResponse) × NonceFrom
            (client_node json c)
            from_addr
            tx.nonce
            n
            calls
        × ((send_tx (client_node json c) from_addr tx).1
            ≡ calls ++ add_tx (tx_obj from_addr n tx) ∷ [])
        × Answered c.http (codes "scdo_addTx") (tx_param (tx_obj from_addr n tx) ∷ []) resp
        × (resp.error ≡ none)
        × (json.decode_bool resp.result false ≡ (none, true))
  unfolding client_node
  sent_tx_was_accepted from_addr tx hash h =
      let (empty, n, calls, source, last, added) =
        send_tx_sends (client_node json c) from_addr tx hash h in
      let params = tx_param (tx_obj from_addr n tx) ∷ [] in
      let (resp, answered, (fine, left)) =
        (call_context_ok c.http json.decode_bool false true (codes "scdo_addTx") params).0
          (outcome_ok _ true added) in
      elim left [
        | inl (gone, kept) ↦ absurd (impossible kept)
        | inr (there, decoded) ↦ (empty, n, calls, resp, source, last, answered, fine, decoded)
      ]

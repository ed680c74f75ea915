-- ===== src/Scdo/Tx/Sent.antt =====
-- What `SendTx` sends (go/scdo/tx.go).
use eip_toolkit.Prelude.{
  ℕ, zero, suc, ◌≡◌, refl, ◌≢◌, ◌⊎◌, inl, inr, Bool, true, false, List, [], ◌∷◌, ◌++◌, arith, Bytes,
  Result, ok, err, Result-cases,
}
use eip_toolkit.Scdo.Tx.{
  Tx, RpcCall, get_block_height, get_account_nonce, add_tx, Node, int64, fetch_nonce, tx_obj,
  on_added, broadcast, send_tx,
}

-- Where the nonce comes from, and the calls that it took.
abbrev pub NonceFrom : Node → Bytes → ℕ → ℕ → List RpcCall → Type 0
NonceFrom node from_addr own n calls =
    ((own ≢ 0) × (n ≡ own) × (calls ≡ []))
    ⊎ ((own ≡ 0)
        × (h : ℕ) × (node.height ≡ ok h)
        × (node.account_nonce from_addr (int64 h) ≡ ok n)
        × (calls ≡ get_block_height ∷ get_account_nonce from_addr (int64 h) ∷ []))

fetch_nonce-NonceFrom :
    (node : Node) (from_addr : Bytes) (own n : ℕ) (calls : List RpcCall)
    → fetch_nonce node from_addr own ≡ (ok n, calls)
    → NonceFrom node from_addr own n calls
unfolding fetch_nonce
fetch_nonce-NonceFrom node from_addr zero n calls e = elim (Result-cases node.height) [
  | inr (d, bad) ↦ ground arith
  | inl (h, good) ↦ elim (Result-cases (node.account_nonce from_addr (int64 h))) [
    | inr (d, bad) ↦ ground arith
    | inl (k, got) ↦ inr (refl, h, good, ground arith, ground arith)
  ]
]
fetch_nonce-NonceFrom node from_addr (suc own) n calls e =
    inl (ground arith, ground arith, ground arith)

on_added_ok : (r : Result Bool) (hash : Bytes) → on_added r ≡ ok hash → (hash ≡ []) × (r ≡ ok true)
on_added_ok (err e) hash h = ground arith
on_added_ok (ok false) hash h = ground arith
on_added_ok (ok true) hash h = ground arith

-- What a broadcast that succeeds has sent, behind the calls for the nonce.
broadcast_sends :
    (node : Node) (from_addr : Bytes) (tx : Tx) (hash : Bytes) (p : Result ℕ × List RpcCall)
    → fetch_nonce node from_addr tx.nonce ≡ p
    → (broadcast node from_addr tx p).0 ≡ ok hash
    → (hash ≡ [])
      × (n : ℕ) × (calls : List RpcCall) × NonceFrom node from_addr tx.nonce n calls
      × ((broadcast node from_addr tx p).1 ≡ calls ++ add_tx (tx_obj from_addr n tx) ∷ [])
      × (node.added (tx_obj from_addr n tx) ≡ ok true)
broadcast_sends node from_addr tx hash (err e, calls) f h = ground arith
broadcast_sends node from_addr tx hash (ok n, calls) f h =
    let (empty, added) = on_added_ok (node.added (tx_obj from_addr n tx)) hash h in
    (empty, n, calls, fetch_nonce-NonceFrom node from_addr tx.nonce n calls f, refl, added)

-- A call of `SendTx` that succeeds returns the empty string and has sent one transaction, as its
-- last call, which the node has accepted: with the nonce that was given, or, where that is 0, with
-- the account's at the head, which two calls before it have asked for.
pub send_tx_sends :
    (node : Node) (from_addr : Bytes) (tx : Tx) (hash : Bytes)
    → (send_tx node from_addr tx).0 ≡ ok hash
    → (hash ≡ [])
      × (n : ℕ) × (calls : List RpcCall) × NonceFrom node from_addr tx.nonce n calls
      × ((send_tx node from_addr tx).1 ≡ calls ++ add_tx (tx_obj from_addr n tx) ∷ [])
      × (node.added (tx_obj from_addr n tx) ≡ ok true)
unfolding send_tx
send_tx_sends node from_addr tx hash e =
    broadcast_sends node from_addr tx hash (fetch_nonce node from_addr tx.nonce) refl e

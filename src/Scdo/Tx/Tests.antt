-- ===== src/Scdo/Tx/Tests.antt =====
-- Runs of `SendTx` and `DeployContract`, and the witness of the property.
use eip_toolkit.Prelude.{◌≡◌, refl, true, some, [], ◌∷◌, Bytes, codes, canceled, wrap, ok, err}
use eip_toolkit.Prelude.Int.{pos}
use eip_toolkit.Scdo.Tx.{
  Tx, get_block_height, get_account_nonce, add_tx, Node, tx_obj, fetch_nonce, send_tx,
  deploy_contract,
}

-- A node at block 10, where the account has the nonce 7.
abbrev node : Node
node = record { height = ok 10; account_nonce = λ a h. ok 7; added = λ obj. ok true }

abbrev transfer : Tx
transfer = record {
  to = codes "0x02";
  amount = some (pos 5);
  gas_price = some (pos 1);
  gas_limit = 21_000;
  payload = [];
  nonce = 0;
}

abbrev sender : Bytes
sender = codes "0x01"

transfer_succeeds : (send_tx node sender transfer).0 ≡ ok []
unfolding send_tx fetch_nonce
transfer_succeeds = refl

refused_height :
    send_tx (record node { height = err canceled }) sender transfer
    ≡ (err (wrap (codes "get height: ") canceled), get_block_height ∷ [])
unfolding send_tx fetch_nonce
refused_height = refl

deploys_with_default_gas :
    (deploy_contract node sender (codes "c") 0).1
    ≡ get_block_height
      ∷ get_account_nonce sender (pos 10)
      ∷ add_tx (
          tx_obj sender 7 (record {
            to = [];
            amount = some (pos 0);
            gas_price = some (pos 1);
            gas_limit = 200_000;
            payload = codes "c";
            nonce = 0;
          }))
      ∷ []
unfolding deploy_contract send_tx fetch_nonce
deploys_with_default_gas = refl

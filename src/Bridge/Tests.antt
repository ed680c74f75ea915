-- ===== src/Bridge/Tests.antt =====
-- The relayer at work.
use eip_toolkit.Prelude.{
  ℕ, ◌≤◌, ◌≡◌, refl, ◌↔◌, ◌⊎◌, inl, inr, true, none, List, [], ◌∷◌, Elem, Bytes, codes, canceled,
  text, Result, ok, err,
}
use eip_toolkit.Prelude.Int.{pos}
use eip_toolkit.Bridge.{
  DepositedEvent, BurnedEvent, mint, withdraw, watch_deposited, watch_burned, Relayer,
  with_start_block, new, seen, handle_deposit, handle_burn, Input, deposit, deposit_closed, burn,
  turn, run_loop, run,
}
use eip_toolkit.Bridge.Once.{minted, withdrawn, new-IsExact, run_at_most_once}
use eip_toolkit.Bridge.Requests.{HasCause, run_loop_causes, failed_mint_is_tried_again}

abbrev deposit_of : ℕ → DepositedEvent
deposit_of n = record {
  token = codes "0xT";
  user = codes "0xU";
  amount = pos 90;
  nonce = n;
  dest_chain_id = 1;
  source_block = 7;
  tx_hash = codes "0xd";
}

abbrev burn_of : ℕ → BurnedEvent
burn_of n = record {
  from = codes "0xV";
  amount = pos 5;
  withdraw_nonce = n;
  source_block = 8;
  tx_hash = codes "0xb";
}

abbrev refused : Result Bytes
refused = err (text (codes "refused"))

-- A mint that fails, a closed channel, the same deposit again, and once more.
abbrev inputs : List Input
inputs =
    deposit (deposit_of 3) refused
    ∷ deposit_closed none
    ∷ deposit (deposit_of 3) (ok (codes "0xm"))
    ∷ burn (burn_of 3) (ok (codes "0xw"))
    ∷ deposit (deposit_of 3) (ok (codes "0xn"))
    ∷ []

abbrev start : Relayer
start = new (with_start_block 5 6 ∷ [])

calls_made :
    (run none none inputs start).1.calls
    ≡ withdraw (codes "0xV") (pos 5) 3 (ok (codes "0xw"))
      ∷ mint (codes "0xU") (pos 90) 3 (ok (codes "0xm"))
      ∷ watch_deposited 5
      ∷ mint (codes "0xU") (pos 90) 3 refused
      ∷ watch_burned 6
      ∷ watch_deposited 5
      ∷ []
unfolding run run_loop turn handle_deposit handle_burn new
calls_made = refl

run_at_most_once_example :
    let r = (run none none inputs (new (with_start_block 5 6 ∷ []))).1 in
    (minted 3 r.calls ≤ 1)
    × (withdrawn 3 r.calls ≤ 1)
    × ((minted 3 r.calls ≡ 1) ↔ (seen 3 r.seen_minted ≡ true))
    × ((withdrawn 3 r.calls ≡ 1) ↔ (seen 3 r.seen_withdrawn ≡ true))
run_at_most_once_example = run_at_most_once (with_start_block 5 6 ∷ []) none none inputs 3

run_loop_causes_example :
    Elem (mint (codes "0xU") (pos 90) 3 refused) start.calls
    ⊎ HasCause (mint (codes "0xU") (pos 90) 3 refused) inputs
unfolding run_loop turn handle_deposit handle_burn new
run_loop_causes_example =
    run_loop_causes inputs start (mint (codes "0xU") (pos 90) 3 refused)
      (inr (inr (inr (inl refl))))

second_mint :
    let r' = handle_deposit (err canceled) (deposit_of 3) start in
    ((n : ℕ) → seen n r'.seen_minted ≡ seen n start.seen_minted)
    × ((handle_deposit (ok (codes "0xm")) (deposit_of 3) r').calls
        ≡ mint (codes "0xU") (pos 90) 3 (ok (codes "0xm"))
          ∷ mint (codes "0xU") (pos 90) 3 (err canceled)
          ∷ start.calls)
unfolding new
second_mint =
    failed_mint_is_tried_again canceled (deposit_of 3) (ok (codes "0xm")) start
      (new-IsExact (with_start_block 5 6 ∷ [])) refl

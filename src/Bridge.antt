-- ===== src/Bridge.antt =====
-- The relayer of go/bridge/relayer.go. `Run` takes one case of its `select` at a time, so a run is
-- a list of what it received, each with the answer of the call that it leads to.
pub mod Once
pub mod Requests
mod Tests
use eip_toolkit.Prelude.{
  ℕ, ◌*◌, Bool, true, false, Option, none, some, List, [], ◌∷◌, if◌then◌else◌, Bytes, codes,
  GoError, wrap, Result, ok, err,
}
use eip_toolkit.Prelude.Int.{ℤ}
use eip_toolkit.Dict.{Dict, lookup, insert, erase}

pub record DepositedEvent : Type 0 where
  pub token : Bytes
  pub user : Bytes
  pub amount : ℤ
  pub nonce : ℕ
  pub dest_chain_id : ℕ
  pub source_block : ℕ
  pub tx_hash : Bytes

pub record BurnedEvent : Type 0 where
  pub from : Bytes
  pub amount : ℤ
  pub withdraw_nonce : ℕ
  pub source_block : ℕ
  pub tx_hash : Bytes

-- A call on one of the two chains, with its answer.
pub data Call : Type 0 where
  mint : Bytes → ℤ → ℕ → Result Bytes → Call
  withdraw : Bytes → ℤ → ℕ → Result Bytes → Call
  watch_deposited : ℕ → Call
  watch_burned : ℕ → Call

-- The fields of `Relayer` that are no interface, and its calls so far, the newest first.
pub record Relayer : Type 0 where
  pub eth_from_block : ℕ
  pub scdo_from_block : ℕ
  pub poll_interval : ℕ
  pub seen_minted : Dict Bool
  pub seen_withdrawn : Dict Bool
  pub calls : List Call

pub data RelayerOption : Type 0 where
  with_start_block : ℕ → ℕ → RelayerOption
  with_poll_interval : ℕ → RelayerOption

abbrev pub apply_option : RelayerOption → Relayer → Relayer
apply_option (with_start_block eth scdo) r = record r {
  eth_from_block = eth;
  scdo_from_block = scdo;
}
apply_option (with_poll_interval d) r = record r { poll_interval = d }

apply_options : List RelayerOption → Relayer → Relayer
apply_options [] r = r
apply_options (o ∷ opts) r = apply_options opts (apply_option o r)

-- Durations are in nanoseconds.
unfoldable pub new : List RelayerOption → Relayer
unfolding apply_options
new opts = apply_options opts (record {
  eth_from_block = 0;
  scdo_from_block = 0;
  poll_interval = 12 * 1_000_000_000;
  seen_minted = [];
  seen_withdrawn = [];
  calls = [];
})

-- `m[k]` of a `map[uint64]bool`.
abbrev pub is_set : Option Bool → Bool
is_set none = false
is_set (some b) = b

abbrev pub seen : ℕ → Dict Bool → Bool
seen k m = is_set (lookup k m)

abbrev call : Call → Relayer → Relayer
call c r = record r { calls = c ∷ r.calls }

-- What follows the call of `Mint`.
abbrev pub after_mint : ℕ → Result Bytes → Relayer → Relayer
after_mint n (ok tx) r = r
after_mint n (err e) r = record r { seen_minted = erase n r.seen_minted }

unfoldable pub handle_deposit : Result Bytes → DepositedEvent → Relayer → Relayer
handle_deposit answer d r =
    if seen d.nonce r.seen_minted
    then r
    else after_mint d.nonce answer (record r {
      seen_minted = insert d.nonce true r.seen_minted;
      calls = mint d.user d.amount d.nonce answer ∷ r.calls;
    })

abbrev pub after_withdraw : ℕ → Result Bytes → Relayer → Relayer
after_withdraw n (ok tx) r = r
after_withdraw n (err e) r = record r { seen_withdrawn = erase n r.seen_withdrawn }

unfoldable pub handle_burn : Result Bytes → BurnedEvent → Relayer → Relayer
handle_burn answer b r =
    if seen b.withdraw_nonce r.seen_withdrawn
    then r
    else after_withdraw b.withdraw_nonce answer (record r {
      seen_withdrawn = insert b.withdraw_nonce true r.seen_withdrawn;
      calls = withdraw b.from b.amount b.withdraw_nonce answer ∷ r.calls;
    })

-- A case of the `select`: the cancelled context, an event with the answer of the call for it, or a
-- closed channel with the error of the new watch.
pub data Input : Type 0 where
  done : GoError → Input
  deposit : DepositedEvent → Result Bytes → Input
  deposit_closed : Option GoError → Input
  burn : BurnedEvent → Result Bytes → Input
  burn_closed : Option GoError → Input

-- One turn of the loop in `Run`: the error that it returns, if any.
unfoldable pub turn : Input → Relayer → Option GoError × Relayer
turn (done e) r = (some e, r)
turn (deposit d answer) r = (none, handle_deposit answer d r)
turn (deposit_closed e) r = (e, call (watch_deposited r.eth_from_block) r)
turn (burn b answer) r = (none, handle_burn answer b r)
turn (burn_closed e) r = (e, call (watch_burned r.scdo_from_block) r)

-- The loop over what arrives; `none` where it still waits.
unfoldable pub run_loop : List Input → Relayer → Option GoError × Relayer
unfolding turn
run_loop [] r = (none, r)
run_loop (i ∷ inputs) r =
    let (e, r') = turn i r in elim e [ some e' ↦ (some e', r') | none ↦ run_loop inputs r' ]

-- `Run`, with the answers of its two first watches.
unfoldable pub run :
    Option GoError → Option GoError → List Input → Relayer → Option GoError × Relayer
run (some e) burns inputs r =
    (some (wrap (codes "watch deposits: ") e), call (watch_deposited r.eth_from_block) r)
run none (some e) inputs r = (
  some (wrap (codes "watch burns: ") e),
  call (watch_burned r.scdo_from_block) (call (watch_deposited r.eth_from_block) r),
)
run none none inputs r =
    run_loop inputs
      (call (watch_burned r.scdo_from_block) (call (watch_deposited r.eth_from_block) r))

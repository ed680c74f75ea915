-- ===== src/Bridge/Once.antt =====
-- Each nonce is minted, and withdrawn, at most once.
use eip_toolkit.Prelude.{
  ℕ, suc, ◌≤◌, ◌≡◌, refl, ◌↔◌, inl, inr, Bool, true, false, Option, none, some, List, [], ◌∷◌,
  arith, ◌==◌, if◌then◌else◌, Bool-cases, Option-cases, Bytes, GoError, Result, ok, err,
}
use eip_toolkit.Dict.{
  Dict, insert, erase, Distinct, lookup-insert, lookup-erase, insert-Distinct, erase-Distinct,
}
use eip_toolkit.Bridge.{
  DepositedEvent, BurnedEvent, Call, mint, withdraw, Relayer, seen, handle_deposit, handle_burn,
  Input, done, deposit, deposit_closed, burn, burn_closed, turn, run_loop, run, after_withdraw,
  after_mint, RelayerOption, new, apply_options, with_start_block, with_poll_interval,
}

-- How often a call for the nonce succeeded.
abbrev pub minted : ℕ → List Call → ℕ
minted n [] = 0
minted n (mint to amount k (ok tx) ∷ cs) = if n == k then suc (minted n cs) else minted n cs
minted n (c ∷ cs) = minted n cs

abbrev pub withdrawn : ℕ → List Call → ℕ
withdrawn n [] = 0
withdrawn n (withdraw to amount k (ok tx) ∷ cs) =
    if n == k then suc (withdrawn n cs) else withdrawn n cs
withdrawn n (c ∷ cs) = withdrawn n cs

-- A nonce is marked exactly if a call for it succeeded, and then one did.
pub record IsExact (r : Relayer) : Type 0 where
  pub mints_distinct : Distinct r.seen_minted
  pub withdraws_distinct : Distinct r.seen_withdrawn
  pub mints : (n : ℕ) → minted n r.calls ≡ (if seen n r.seen_minted then 1 else 0)
  pub withdraws : (n : ℕ) → withdrawn n r.calls ≡ (if seen n r.seen_withdrawn then 1 else 0)

-- The marks after a call, and after the mark is taken back.
pub seen-insert :
    (k n : ℕ) (m : Dict Bool) → seen n (insert k true m) ≡ (if k == n then true else seen n m)
seen-insert k n m = ground (arith, lookup-insert k n true m)

pub seen-erase-insert :
    (k n : ℕ) (m : Dict Bool)
    → Distinct m
    → seen k m ≡ false
    → seen n (erase k (insert k true m)) ≡ seen n m
seen-erase-insert k n m v new = ground (
  arith,
  lookup-erase k n (insert k true m) (insert-Distinct k true m v),
  lookup-insert k n true m,
)

pub handle_deposit-IsExact :
    (answer : Result Bytes) (d : DepositedEvent) (r : Relayer)
    → IsExact r
    → IsExact (handle_deposit answer d r)
unfolding handle_deposit
handle_deposit-IsExact answer d r x = elim (Bool-cases (seen d.nonce r.seen_minted)) [
  | inl old ↦ rw old x
  | inr new ↦ rw new (exact answer new)
]
  where
    inserted : Distinct (insert d.nonce true r.seen_minted)
    inserted = insert-Distinct d.nonce true r.seen_minted x.mints_distinct

    marked : Result Bytes → Relayer
    marked a = record r {
      seen_minted = insert d.nonce true r.seen_minted;
      calls = mint d.user d.amount d.nonce a ∷ r.calls;
    }

    exact :
        (a : Result Bytes)
        → seen d.nonce r.seen_minted ≡ false
        → IsExact (after_mint d.nonce a (marked a))
    exact (ok tx) new = record {
      mints_distinct = inserted;
      withdraws_distinct = x.withdraws_distinct;
      mints = λ n. ground (arith, x.mints n, seen-insert d.nonce n r.seen_minted);
      withdraws = x.withdraws;
    }
    exact (err e) new = record {
      mints_distinct = erase-Distinct d.nonce _ inserted;
      withdraws_distinct = x.withdraws_distinct;
      mints = λ n. rw (seen-erase-insert d.nonce n r.seen_minted x.mints_distinct new) (x.mints n);
      withdraws = x.withdraws;
    }

pub handle_burn-IsExact :
    (answer : Result Bytes) (b : BurnedEvent) (r : Relayer)
    → IsExact r
    → IsExact (handle_burn answer b r)
unfolding handle_burn
handle_burn-IsExact answer b r x = elim (Bool-cases (seen b.withdraw_nonce r.seen_withdrawn)) [
  | inl old ↦ rw old x
  | inr new ↦ rw new (exact answer new)
]
  where
    inserted : Distinct (insert b.withdraw_nonce true r.seen_withdrawn)
    inserted = insert-Distinct b.withdraw_nonce true r.seen_withdrawn x.withdraws_distinct

    marked : Result Bytes → Relayer
    marked a = record r {
      seen_withdrawn = insert b.withdraw_nonce true r.seen_withdrawn;
      calls = withdraw b.from b.amount b.withdraw_nonce a ∷ r.calls;
    }

    exact :
        (a : Result Bytes)
        → seen b.withdraw_nonce r.seen_withdrawn ≡ false
        → IsExact (after_withdraw b.withdraw_nonce a (marked a))
    exact (ok tx) new = record {
      mints_distinct = x.mints_distinct;
      withdraws_distinct = inserted;
      mints = x.mints;
      withdraws =
          λ n. ground (arith, x.withdraws n, seen-insert b.withdraw_nonce n r.seen_withdrawn);
    }
    exact (err e) new = record {
      mints_distinct = x.mints_distinct;
      withdraws_distinct = erase-Distinct b.withdraw_nonce _ inserted;
      mints = x.mints;
      withdraws = λ n.
          rw (seen-erase-insert b.withdraw_nonce n r.seen_withdrawn x.withdraws_distinct new)
            (x.withdraws n);
    }

pub turn-IsExact : (i : Input) (r : Relayer) → IsExact r → IsExact (turn i r).1
unfolding turn
turn-IsExact (done e) r x = x
turn-IsExact (deposit d answer) r x = handle_deposit-IsExact answer d r x
turn-IsExact (burn b answer) r x = handle_burn-IsExact answer b r x
turn-IsExact (deposit_closed e) r x = record {
  mints_distinct = x.mints_distinct;
  withdraws_distinct = x.withdraws_distinct;
  mints = x.mints;
  withdraws = x.withdraws;
}
turn-IsExact (burn_closed e) r x = record {
  mints_distinct = x.mints_distinct;
  withdraws_distinct = x.withdraws_distinct;
  mints = x.mints;
  withdraws = x.withdraws;
}

run_loop-IsExact : (inputs : List Input) (r : Relayer) → IsExact r → IsExact (run_loop inputs r).1
unfolding run_loop
run_loop-IsExact [] r x = x
run_loop-IsExact (i ∷ inputs) r x = elim (Option-cases (turn i r).0) [
  | inl go ↦ rw (go, run_loop) (run_loop-IsExact inputs (turn i r).1 (turn-IsExact i r x))
  | inr (e, stop) ↦ rw (stop, run_loop) (turn-IsExact i r x)
]

apply_options-IsExact :
    (opts : List RelayerOption) (r : Relayer) → IsExact r → IsExact (apply_options opts r)
unfolding apply_options
apply_options-IsExact [] r x = x
apply_options-IsExact (with_start_block eth scdo ∷ opts) r x =
    apply_options-IsExact opts _ (record {
      mints_distinct = x.mints_distinct;
      withdraws_distinct = x.withdraws_distinct;
      mints = x.mints;
      withdraws = x.withdraws;
    })
apply_options-IsExact (with_poll_interval d ∷ opts) r x = apply_options-IsExact opts _ (record {
  mints_distinct = x.mints_distinct;
  withdraws_distinct = x.withdraws_distinct;
  mints = x.mints;
  withdraws = x.withdraws;
})

pub new-IsExact : (opts : List RelayerOption) → IsExact (new opts)
unfolding new
new-IsExact opts = apply_options-IsExact opts _ (record {
  mints_distinct = tt;
  withdraws_distinct = tt;
  mints = λ n. refl;
  withdraws = λ n. refl;
})

pub run-IsExact :
    (deposits burns : Option GoError) (inputs : List Input) (r : Relayer)
    → IsExact r
    → IsExact (run deposits burns inputs r).1
unfolding run
run-IsExact (some e) burns inputs r x = record {
  mints_distinct = x.mints_distinct;
  withdraws_distinct = x.withdraws_distinct;
  mints = x.mints;
  withdraws = x.withdraws;
}
run-IsExact none (some e) inputs r x = record {
  mints_distinct = x.mints_distinct;
  withdraws_distinct = x.withdraws_distinct;
  mints = x.mints;
  withdraws = x.withdraws;
}
run-IsExact none none inputs r x = run_loop-IsExact inputs _ (record {
  mints_distinct = x.mints_distinct;
  withdraws_distinct = x.withdraws_distinct;
  mints = x.mints;
  withdraws = x.withdraws;
})

-- Whatever arrives in whatever order, with watches that are closed and opened again, events that are
-- repeated and calls that fail, a new relayer has at most one call of `Mint` that succeeded, and at
-- most one such call of `Withdraw`, for each nonce; and a nonce is marked exactly if there is one.
pub run_at_most_once :
    (opts : List RelayerOption) (deposits burns : Option GoError) (inputs : List Input) (n : ℕ)
    → let r = (run deposits burns inputs (new opts)).1 in
      (minted n r.calls ≤ 1)
      × (withdrawn n r.calls ≤ 1)
      × ((minted n r.calls ≡ 1) ↔ (seen n r.seen_minted ≡ true))
      × ((withdrawn n r.calls ≡ 1) ↔ (seen n r.seen_withdrawn ≡ true))
run_at_most_once opts deposits burns inputs n =
    let x = run-IsExact deposits burns inputs (new opts) (new-IsExact opts) in
    let m = x.mints n in
    let w = x.withdraws n in
    (
      ground (arith, m),
      ground (arith, w),
      (ground (arith, m), ground (arith, m)),
      (ground (arith, w), ground (arith, w)),
    )

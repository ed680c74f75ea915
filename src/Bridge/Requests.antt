-- ===== src/Bridge/Requests.antt =====
-- The calls that the relayer makes, and the events for which it makes them.
use eip_toolkit.Prelude.{
  ℕ, ◌≡◌, refl, sym, ap, ◌∙◌, subst, ◌⊎◌, inl, inr, true, false, none, List, [], ◌∷◌, arith,
  Bool-cases, Option-cases, Elem, Bytes, GoError, Result, ok, err,
}
use eip_toolkit.Bridge.{
  DepositedEvent, Call, mint, withdraw, watch_deposited, watch_burned, Relayer, seen,
  handle_deposit, handle_burn, Input, done, deposit, deposit_closed, burn, burn_closed, turn,
  run_loop,
}
use eip_toolkit.Bridge.Once.{IsExact, seen-insert, turn-IsExact, seen-erase-insert}

-- The event for which a call is made.
abbrev pub IsFor : Call → Input → Type 0
IsFor (mint to amount n a) (deposit d a') =
    (to ≡ d.user) × (amount ≡ d.amount) × (n ≡ d.nonce) × (a ≡ a')
IsFor (withdraw to amount n a) (burn b a') =
    (to ≡ b.from) × (amount ≡ b.amount) × (n ≡ b.withdraw_nonce) × (a ≡ a')
IsFor (watch_deposited n) (deposit_closed e) = Unit
IsFor (watch_burned n) (burn_closed e) = Unit
IsFor c i = ⊥

turn_calls :
    (i : Input) (r : Relayer)
    → ((turn i r).1.calls ≡ r.calls) ⊎ ((c : Call) × ((turn i r).1.calls ≡ c ∷ r.calls) × IsFor c i)
unfolding turn handle_deposit handle_burn
turn_calls (done e) r = inl refl
turn_calls (deposit_closed e) r = inr (watch_deposited r.eth_from_block, refl, tt)
turn_calls (burn_closed e) r = inr (watch_burned r.scdo_from_block, refl, tt)
turn_calls (deposit d (ok tx)) r = elim (Bool-cases (seen d.nonce r.seen_minted)) [
  | inl old ↦ inl (ground arith)
  | inr new ↦ inr (mint d.user d.amount d.nonce (ok tx), ground arith, (refl, refl, refl, refl))
]
turn_calls (deposit d (err e)) r = elim (Bool-cases (seen d.nonce r.seen_minted)) [
  | inl old ↦ inl (ground arith)
  | inr new ↦ inr (mint d.user d.amount d.nonce (err e), ground arith, (refl, refl, refl, refl))
]
turn_calls (burn b (ok tx)) r = elim (Bool-cases (seen b.withdraw_nonce r.seen_withdrawn)) [
  | inl old ↦ inl (ground arith)
  | inr new ↦
      inr
        (withdraw b.from b.amount b.withdraw_nonce (ok tx), ground arith, (refl, refl, refl, refl))
]
turn_calls (burn b (err e)) r = elim (Bool-cases (seen b.withdraw_nonce r.seen_withdrawn)) [
  | inl old ↦ inl (ground arith)
  | inr new ↦
      inr
        (withdraw b.from b.amount b.withdraw_nonce (err e), ground arith, (refl, refl, refl, refl))
]

abbrev pub HasCause : Call → List Input → Type 0
HasCause c inputs = (i : Input) × Elem i inputs × IsFor c i

-- Every call that the loop makes is made for something that arrived: the recipient, the amount and
-- the nonce of a mint or a withdrawal are those of a deposit or a burn with that answer.
pub run_loop_causes :
    (inputs : List Input) (r : Relayer) (c : Call)
    → Elem c (run_loop inputs r).1.calls
    → Elem c r.calls ⊎ HasCause c inputs
unfolding run_loop
run_loop_causes [] r c h = inl h
run_loop_causes (i ∷ inputs) r c h = elim (Option-cases (turn i r).0) [
  | inr (e, stop) ↦ first (turn_calls i r) (rw (stop, run_loop) at h)
  | inl go ↦ elim (run_loop_causes inputs (turn i r).1 c (rw (go, run_loop) at h)) [
    | inl here ↦ first (turn_calls i r) here
    | inr (j, there, for') ↦ inr (j, inr there, for')
  ]
]
  where
    first :
        ((turn i r).1.calls ≡ r.calls)
          ⊎ ((c : Call) × ((turn i r).1.calls ≡ c ∷ r.calls) × IsFor c i)
        → Elem c (turn i r).1.calls
        → Elem c r.calls ⊎ HasCause c (i ∷ inputs)
    first (inl same) m = inl (subst (Elem c) same m)
    first (inr (c', new, for')) m = elim (subst (Elem c) new m) [
      | inl e ↦ inr (i, inl refl, subst (λ x. IsFor x i) (sym e) for')
      | inr old ↦ inl old
    ]

-- A mark stays.
seen-turn :
    (n : ℕ) (i : Input) (r : Relayer)
    → IsExact r
    → seen n r.seen_minted ≡ true
    → seen n (turn i r).1.seen_minted ≡ true
unfolding turn handle_deposit handle_burn
seen-turn n (done e) r x s = s
seen-turn n (deposit_closed e) r x s = s
seen-turn n (burn_closed e) r x s = s
seen-turn n (burn b (ok tx)) r x s = ground arith
seen-turn n (burn b (err e)) r x s = ground arith
seen-turn n (deposit d (ok tx)) r x s = ground (arith, seen-insert d.nonce n r.seen_minted)
seen-turn n (deposit d (err e)) r x s = elim (Bool-cases (seen d.nonce r.seen_minted)) [
  | inl old ↦ rw old s
  | inr new ↦ rw new (seen-erase-insert d.nonce n r.seen_minted x.mints_distinct new ∙ s)
]

seen-run_loop :
    (n : ℕ) (inputs : List Input) (r : Relayer)
    → IsExact r
    → seen n r.seen_minted ≡ true
    → seen n (run_loop inputs r).1.seen_minted ≡ true
unfolding run_loop
seen-run_loop n [] r x s = s
seen-run_loop n (i ∷ inputs) r x s = elim (Option-cases (turn i r).0) [
  | inr (e, stop) ↦ rw (stop, run_loop) (seen-turn n i r x s)
  | inl go ↦
      rw (go, run_loop)
        (seen-run_loop n inputs (turn i r).1 (turn-IsExact i r x) (seen-turn n i r x s))
]

seen_after_mint :
    (d : DepositedEvent) (tx : Bytes) (i : Input) (r : Relayer)
    → deposit d (ok tx) ≡ i
    → seen d.nonce (turn i r).1.seen_minted ≡ true
unfolding turn handle_deposit
seen_after_mint d tx i r e = rw (← e) (ground (arith, seen-insert d.nonce d.nonce r.seen_minted))

-- A deposit whose mint would succeed ends up minted: at the end of a loop that was not stopped its
-- nonce is marked, whatever else arrived before and after it.
pub run_loop_mints :
    (inputs : List Input) (r : Relayer) (d : DepositedEvent) (tx : Bytes)
    → IsExact r
    → Elem (deposit d (ok tx)) inputs
    → (run_loop inputs r).0 ≡ none
    → seen d.nonce (run_loop inputs r).1.seen_minted ≡ true
unfolding run_loop
run_loop_mints [] r d tx x m h = elim m [ ]
run_loop_mints (i ∷ inputs) r d tx x m h = elim (Option-cases (turn i r).0) [
  | inr (e, stop) ↦ absurd (ground arith)
  | inl go ↦
      rw (go, run_loop)
        (elim m [
          | inl e ↦
              seen-run_loop d.nonce inputs (turn i r).1 (turn-IsExact i r x)
                (seen_after_mint d tx i r e)
          | inr later ↦
              run_loop_mints inputs (turn i r).1 d tx (turn-IsExact i r x) later
                (rw (go, run_loop) at h)
        ])
]

-- The relayer looks neither at the token nor at the destination chain of a deposit: whichever they
-- are, it makes the same call of `Mint`.
pub handle_deposit_any_token :
    (answer : Result Bytes) (d : DepositedEvent) (token' : Bytes) (chain' : ℕ) (r : Relayer)
    → handle_deposit answer (record d { token = token'; dest_chain_id = chain' }) r
      ≡ handle_deposit answer d r
unfolding handle_deposit
handle_deposit_any_token answer d token' chain' r = refl

call_of_deposit :
    (a : Result Bytes) (d : DepositedEvent) (r : Relayer)
    → seen d.nonce r.seen_minted ≡ false
    → (handle_deposit a d r).calls ≡ mint d.user d.amount d.nonce a ∷ r.calls
unfolding handle_deposit
call_of_deposit (ok tx) d r new = rw new
call_of_deposit (err e) d r new = rw new

mark_taken_back :
    (e : GoError) (d : DepositedEvent) (r : Relayer)
    → IsExact r
    → seen d.nonce r.seen_minted ≡ false
    → (n : ℕ) → seen n (handle_deposit (err e) d r).seen_minted ≡ seen n r.seen_minted
unfolding handle_deposit
mark_taken_back e d r x new n =
    rw new (seen-erase-insert d.nonce n r.seen_minted x.mints_distinct new)

-- A deposit whose call of `Mint` fails leaves the marks as they were, so the same event, when it
-- arrives again, leads to another call.
pub failed_mint_is_tried_again :
    (e : GoError) (d : DepositedEvent) (answer : Result Bytes) (r : Relayer)
    → IsExact r
    → seen d.nonce r.seen_minted ≡ false
    → let r' = handle_deposit (err e) d r in
      ((n : ℕ) → seen n r'.seen_minted ≡ seen n r.seen_minted)
      × ((handle_deposit answer d r').calls
          ≡ mint d.user d.amount d.nonce answer ∷ mint d.user d.amount d.nonce (err e) ∷ r.calls)
failed_mint_is_tried_again e d answer r x new =
    let again =
      call_of_deposit answer d (handle_deposit (err e) d r)
        (mark_taken_back e d r x new d.nonce ∙ new) in
    (
      mark_taken_back e d r x new,
      again ∙ ap (λ cs. mint d.user d.amount d.nonce answer ∷ cs) (call_of_deposit (err e) d r new),
    )

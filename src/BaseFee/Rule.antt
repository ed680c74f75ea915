-- ===== src/BaseFee/Rule.antt =====
-- The rule on plain numbers, and the rule of EIP-1559.
use eip_toolkit.Prelude.{ℕ, max, ◌+◌, ◌-◌, ◌*◌, ◌/◌, ◌≡◌, arith, ltb, if◌then◌else◌}
use eip_toolkit.Prelude.Int.{pos}
use eip_toolkit.BaseFee.{target_gas, calc_next_base_fee}

-- The change of a fee by `gas` units of gas beside the target.
abbrev pub change : ℕ → ℕ → ℕ
change fee gas = fee * gas / target_gas / 8

-- The next fee: it moves by the change, towards the side of the target that the block was on, and is
-- at least 1.
abbrev pub next_fee : ℕ → ℕ → ℕ
next_fee fee gas_used =
    if ltb gas_used target_gas
    then max 1 (fee - change fee (target_gas - gas_used))
    else max 1 (fee + change fee (gas_used - target_gas))

-- On every fee that is not negative the calculation on big integers is the rule on plain numbers.
pub calc_next_base_fee-eq-next_fee :
    (fee gas_used : ℕ) → calc_next_base_fee (pos fee) gas_used ≡ pos (next_fee fee gas_used)
unfolding calc_next_base_fee
calc_next_base_fee-eq-next_fee fee gas_used = ground arith

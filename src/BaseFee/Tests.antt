-- ===== src/BaseFee/Tests.antt =====
-- The base fee on small inputs.
use eip_toolkit.Prelude.{◌+◌, ◌-◌, ◌/◌, ◌≡◌, arith}
use eip_toolkit.Prelude.Int.{pos, ◌≤ℤ◌}
use eip_toolkit.BaseFee.{calc_next_base_fee}
use eip_toolkit.BaseFee.Rule.{next_fee, calc_next_base_fee-eq-next_fee}
use eip_toolkit.BaseFee.Bounds.{moves_by_an_eighth, low_fee_never_rises}

calc_next_base_fee-eq-next_fee_example :
    calc_next_base_fee (pos 100) 24_000_000 ≡ pos (next_fee 100 24_000_000)
calc_next_base_fee-eq-next_fee_example = calc_next_base_fee-eq-next_fee 100 24_000_000

moves_by_an_eighth_example :
    let next = calc_next_base_fee (pos 100) 24_000_000 in
    (pos (100 - 100 / 8) ≤ℤ next) × (next ≤ℤ pos (100 + 100 / 8)) × (pos 1 ≤ℤ next)
moves_by_an_eighth_example = moves_by_an_eighth 100 24_000_000 (omega arith) (omega arith)

fee_of_seven_stays : calc_next_base_fee (pos 7) 30_000_000 ≡ pos 7
fee_of_seven_stays =
    low_fee_never_rises 7 30_000_000 (omega arith) (omega arith) (omega arith) (omega arith)

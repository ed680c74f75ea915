-- ===== src/BaseFee.antt =====
-- The base fee calculator of go/eip1559/basefee.go.
pub mod Rule
pub mod Bounds
mod Tests
use eip_toolkit.Prelude.{ℕ, ◌≡◌, refl, if◌then◌else◌}
use eip_toolkit.Prelude.Int.{ℤ, pos, ◌+ℤ◌, ◌-ℤ◌, ◌*ℤ◌, ltb_ℤ, neg, abs, div_pos}

abbrev pub target_gas : ℕ
target_gas = 15_000_000

-- `currentBaseFee` is a `*big.Int`, so it has a sign; `gasUsed` is a `uint64`.
unfoldable pub calc_next_base_fee : ℤ → ℕ → ℤ
unfolding ◌+ℤ◌ ◌-ℤ◌ ◌*ℤ◌ neg abs div_pos
calc_next_base_fee current_base_fee gas_used =
    let delta = pos gas_used -ℤ pos target_gas in
    let abs_delta = abs delta in
    let scaled = div_pos (div_pos (current_base_fee *ℤ abs_delta) target_gas) 8 in
    let scaled' = if ltb_ℤ delta (pos 0) then neg scaled else scaled in
    let next = current_base_fee +ℤ scaled' in if ltb_ℤ next (pos 1) then pos 1 else next

rises : calc_next_base_fee (pos 100) 24_000_000 ≡ pos 107
unfolding calc_next_base_fee
rises = refl

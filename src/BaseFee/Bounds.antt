-- ===== src/BaseFee/Bounds.antt =====
-- How far the base fee moves, and in which direction.
use native.Mathlib.Nat.{mul-le-mul, mul-le-mul_left, le_refl}
use eip_toolkit.Prelude.{
  ℕ, max, ◌+◌, ◌-◌, ◌*◌, ◌/◌, ◌≤◌, ◌<◌, ◌≡◌, sym, ap, ◌∙◌, ◌↔◌, ◌⊎◌, arith, ltb, ◌==◌,
  if◌then◌else◌,
}
use eip_toolkit.Prelude.Int.{pos, ◌≤ℤ◌}
use eip_toolkit.BaseFee.{target_gas, calc_next_base_fee}
use eip_toolkit.BaseFee.Rule.{change, next_fee, calc_next_base_fee-eq-next_fee}

change_le_eighth : (fee gas : ℕ) → gas ≤ target_gas → change fee gas ≤ fee / 8
change_le_eighth fee gas le = let product = mul-le-mul_left fee le in omega (arith, product)

-- In a block within its limit of twice the target, a positive fee moves by an eighth at most, rounded
-- down, and it stays positive.
pub moves_by_an_eighth :
    (fee gas_used : ℕ)
    → 1 ≤ fee
    → gas_used ≤ 2 * target_gas
    → let next = calc_next_base_fee (pos fee) gas_used in
      (pos (fee - fee / 8) ≤ℤ next) × (next ≤ℤ pos (fee + fee / 8)) × (pos 1 ≤ℤ next)
moves_by_an_eighth fee gas_used positive limit = rw (calc_next_base_fee-eq-next_fee fee gas_used) (
    ground (
      arith,
      change_le_eighth fee (target_gas - gas_used),
      change_le_eighth fee (gas_used - target_gas),
    ))

change_mono : (a b c d : ℕ) → a ≤ b → c ≤ d → change a c ≤ change b d
change_mono a b c d h k = let product = mul-le-mul h k in omega (arith, product)

-- Below the target a fee falls more slowly than it does by itself.
falling_mono : (a b gas : ℕ) → a ≤ b → gas ≤ target_gas → a - change a gas ≤ b - change b gas
falling_mono a b gas h k =
    let split : b ≡ a + (b - a) = omega arith in
    let product = ap (λ (t : ℕ). t * gas) split in
    let low = mul-le-mul_left a k in
    let high = mul-le-mul_left (b - a) k in omega (arith, product, low, high)

-- More gas used never lowers the next fee, and neither does a higher current fee.
pub calc_next_base_fee-mono :
    (a b c d : ℕ) → a ≤ b → c ≤ d → calc_next_base_fee (pos a) c ≤ℤ calc_next_base_fee (pos b) d
calc_next_base_fee-mono a b c d h k =
    rw (calc_next_base_fee-eq-next_fee a c, calc_next_base_fee-eq-next_fee b d)
      (ground (
        arith,
        falling_mono a b (target_gas - d) h,
        change_mono a a (target_gas - d) (target_gas - c) (le_refl a),
        change_mono a b (c - target_gas) (d - target_gas) h,
      ))

-- A block at or below the target rounds the exact fee, current * (1 - missing / (8 * target)), up: the
-- next fee is the least number that is not below it.
pub falling_rounds_up :
    (fee gas_used : ℕ) {next : ℕ}
    → 1 ≤ fee
    → gas_used ≤ target_gas
    → calc_next_base_fee (pos fee) gas_used ≡ pos next
    → (fee * (8 * target_gas - (target_gas - gas_used)) ≤ 8 * target_gas * next)
      × (8 * target_gas * next < fee * (8 * target_gas - (target_gas - gas_used)) + 8 * target_gas)
falling_rounds_up fee gas_used {next} positive le e =
    let missing = target_gas - gas_used in
    let whole : 8 * target_gas - missing + missing ≡ 8 * target_gas = omega arith in
    let product = ap (λ (t : ℕ). fee * t) whole in
    let small = change_le_eighth fee missing in
    let plain : pos (next_fee fee gas_used) ≡ pos next =
      sym (calc_next_base_fee-eq-next_fee fee gas_used) ∙ e in
    let value : next ≡ fee - change fee missing = ground arith in
    omega (arith, product, small, value)

-- The rule of EIP-1559: above the target the fee rises by 1 at least.
abbrev pub eip_1559_fee : ℕ → ℕ → ℕ
eip_1559_fee fee gas_used =
    if gas_used == target_gas
    then fee
    else if ltb target_gas gas_used
    then fee + max (change fee (gas_used - target_gas)) 1
    else fee - change fee (target_gas - gas_used)

-- On a positive fee the calculator agrees with the rule of EIP-1559 exactly where the block is not
-- above the target or the change comes to 1 at least.
pub agrees_with_eip_1559 :
    (fee gas_used : ℕ)
    → 1 ≤ fee
    → (calc_next_base_fee (pos fee) gas_used ≡ pos (eip_1559_fee fee gas_used))
      ↔ ((gas_used ≤ target_gas) ⊎ (1 ≤ change fee (gas_used - target_gas)))
agrees_with_eip_1559 fee gas_used positive = rw (calc_next_base_fee-eq-next_fee fee gas_used) (
  ground (arith, change_le_eighth fee (target_gas - gas_used)),
  ground (arith, change_le_eighth fee (target_gas - gas_used)),
)

-- A fee below 8 never rises, however full the blocks are, up to the limit of twice the target.
pub low_fee_never_rises :
    (fee gas_used : ℕ)
    → 1 ≤ fee
    → fee < 8
    → target_gas ≤ gas_used
    → gas_used ≤ 2 * target_gas
    → calc_next_base_fee (pos fee) gas_used ≡ pos fee
low_fee_never_rises fee gas_used positive low above limit =
    rw (calc_next_base_fee-eq-next_fee fee gas_used)
      (ground (arith, change_le_eighth fee (gas_used - target_gas)))

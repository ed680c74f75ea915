-- ===== src/Prelude/Text.antt =====
-- Go strings and byte slices as lists of bytes: literals, equality and the order of `<` on strings.
use Prim.Native.Nat.{ℕ}
use Prim.Native.Char.{code}
use Prim.Native.String.{String}
use mathlib.Core.Path.{◌≡◌, refl}
use mathlib.Core.Logic.{◌↔◌}
use mathlib.Core.Bool.{Bool, true, false, ◌&&◌}
use mathlib.Core.List.{List, [], ◌∷◌}
use native.Mathlib.Omega.{arith}
use eip_toolkit.Prelude.Tests.{ltb, ◌==◌, if◌then◌else◌}

abbrev pub Bytes : Type 0
Bytes = List ℕ

-- The code points of a literal; these are its bytes, since the program's literals are ASCII.
abbrev pub codes : String → Bytes
codes String.[] = []
codes (String.◌∷◌ c s) = code c ∷ codes s

-- `a == b` on strings.
abbrev pub bytes_eq : Bytes → Bytes → Bool
bytes_eq [] [] = true
bytes_eq [] (y ∷ ys) = false
bytes_eq (x ∷ xs) [] = false
bytes_eq (x ∷ xs) (y ∷ ys) = (x == y) && bytes_eq xs ys

-- `a > b` on strings: the order of the first byte in which they differ.
abbrev pub bytes_gt : Bytes → Bytes → Bool
bytes_gt [] ys = false
bytes_gt (x ∷ xs) [] = true
bytes_gt (x ∷ xs) (y ∷ ys) = if ltb y x then true else if ltb x y then false else bytes_gt xs ys

pub bytes_eq→eq : (a b : Bytes) → bytes_eq a b ≡ true → a ≡ b
bytes_eq→eq [] [] h = refl
bytes_eq→eq [] (y ∷ ys) h = cc
bytes_eq→eq (x ∷ xs) [] h = cc
bytes_eq→eq (x ∷ xs) (y ∷ ys) h = ground (arith, bytes_eq→eq xs ys)

pub bytes_eq_refl : (a : Bytes) → bytes_eq a a ≡ true
bytes_eq_refl [] = refl
bytes_eq_refl (x ∷ xs) = ground (arith, bytes_eq_refl xs)

pub bytes_eq_iff : (a b : Bytes) → (bytes_eq a b ≡ true) ↔ (a ≡ b)
bytes_eq_iff a b = (bytes_eq→eq a b, λ e. rw e (bytes_eq_refl b))

-- Of two different strings exactly one is the greater.
pub bytes_gt_asymm : (a b : Bytes) → bytes_gt a b ≡ true → bytes_gt b a ≡ false
bytes_gt_asymm [] b h = cc
bytes_gt_asymm (x ∷ xs) [] h = refl
bytes_gt_asymm (x ∷ xs) (y ∷ ys) h = ground (arith, bytes_gt_asymm xs ys)

pub bytes_gt_antisymm : (a b : Bytes) → bytes_gt a b ≡ false → bytes_gt b a ≡ false → a ≡ b
bytes_gt_antisymm [] [] h k = refl
bytes_gt_antisymm [] (y ∷ ys) h k = cc
bytes_gt_antisymm (x ∷ xs) [] h k = cc
bytes_gt_antisymm (x ∷ xs) (y ∷ ys) h k = ground (arith, bytes_gt_antisymm xs ys)

-- ===== src/Base/Bits/And.antt =====
-- Masks of low bits on numbers of any size.
use Prim.Native.Nat.{
  ℕ, zero, suc, ◌+◌, ◌*◌, ◌/◌, ◌%◌, ◌≤◌, ◌<◌, min, digits, bit_and, bit_and-bitwise,
}
use mathlib.Core.Path.{◌≡◌, refl}
use native.Mathlib.Omega.{arith}

-- The recursion that `bit_and` stands for, with `n` steps of fuel.
abbrev and_fuel : ℕ → ℕ → ℕ → ℕ
and_fuel n a b = digits (λ y. 0) min n a b

and_fuel_enough : (b m n a : ℕ) → a ≤ m → m ≤ n → and_fuel n a b ≡ and_fuel m a b
and_fuel_enough b zero zero zero p q = refl
and_fuel_enough b zero (suc n) zero p q = refl
and_fuel_enough b zero n (suc a) p q = absurd (omega arith)
and_fuel_enough b (suc m) zero a p q = absurd (omega arith)
and_fuel_enough b (suc m) (suc n) zero p q = refl
and_fuel_enough b (suc m) (suc n) (suc a) p q =
    omega (arith, and_fuel_enough (b / 2) m n (suc a / 2) (omega arith) (omega arith))

lowest : (a b : ℕ) → bit_and a b ≡ bit_and (a / 2) (b / 2) * 2 + min (a % 2) (b % 2)
lowest zero b = omega (arith, bit_and-bitwise 0 b, bit_and-bitwise 0 (b / 2))
lowest (suc a) b = omega (
  arith,
  bit_and-bitwise (suc a) b,
  bit_and-bitwise (suc a / 2) (b / 2),
  and_fuel_enough (b / 2) (suc a / 2) a (suc a / 2) (omega arith) (omega arith),
)

and_zero_below : (k a : ℕ) → a < k → bit_and a 0 ≡ 0
and_zero_below zero a h = absurd (omega arith)
and_zero_below (suc k) zero h = refl
and_zero_below (suc k) (suc a) h =
    omega (arith, lowest (suc a) 0, and_zero_below k (suc a / 2) (omega arith))

low_one : (a : ℕ) → bit_and a 1 ≡ a % 2
low_one a = omega (arith, lowest a 1, and_zero_below (suc (a / 2)) (a / 2) (omega arith))

low_two : (a : ℕ) → bit_and a 3 ≡ a % 4
low_two a = omega (arith, lowest a 3, low_one (a / 2))

low_three : (a : ℕ) → bit_and a 7 ≡ a % 8
low_three a = omega (arith, lowest a 7, low_two (a / 2))

pub low_four : (a : ℕ) → bit_and a 15 ≡ a % 16
low_four a = omega (arith, lowest a 15, low_three (a / 2))

pub low_five : (a : ℕ) → bit_and a 31 ≡ a % 32
low_five a = omega (arith, lowest a 31, low_four (a / 2))

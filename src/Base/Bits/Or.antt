-- ===== src/Base/Bits/Or.antt =====
-- `(q << k) | r` is a sum when `r` fits into `k` bits.
use Prim.Native.Nat.{
  ℕ, zero, suc, ◌+◌, ◌*◌, ◌/◌, ◌%◌, ◌^◌, ◌≤◌, ◌<◌, max, digits, bit_or, bit_or-bitwise,
}
use mathlib.Core.Path.{◌≡◌, refl, ap}
use native.Mathlib.Nat.{pow-suc}
use native.Mathlib.Omega.{arith}

-- The recursion that `bit_or` stands for, with `n` steps of fuel.
abbrev or_fuel : ℕ → ℕ → ℕ → ℕ
or_fuel n a b = digits (λ y. y) max n a b

-- More fuel than the first number changes nothing.
or_fuel_enough : (b m n a : ℕ) → a ≤ m → m ≤ n → or_fuel n a b ≡ or_fuel m a b
or_fuel_enough b zero zero zero p q = refl
or_fuel_enough b zero (suc n) zero p q = refl
or_fuel_enough b zero n (suc a) p q = absurd (omega arith)
or_fuel_enough b (suc m) zero a p q = absurd (omega arith)
or_fuel_enough b (suc m) (suc n) zero p q = refl
or_fuel_enough b (suc m) (suc n) (suc a) p q =
    omega (arith, or_fuel_enough (b / 2) m n (suc a / 2) (omega arith) (omega arith))

-- The lowest digit apart.
lowest : (a b : ℕ) → bit_or a b ≡ bit_or (a / 2) (b / 2) * 2 + max (a % 2) (b % 2)
lowest zero b = omega (arith, bit_or-bitwise 0 b, bit_or-bitwise 0 (b / 2))
lowest (suc a) b = omega (
  arith,
  bit_or-bitwise (suc a) b,
  bit_or-bitwise (suc a / 2) (b / 2),
  or_fuel_enough (b / 2) (suc a / 2) a (suc a / 2) (omega arith) (omega arith),
)

or_zero_below : (k a : ℕ) → a < k → bit_or a 0 ≡ a
or_zero_below zero a h = absurd (omega arith)
or_zero_below (suc k) zero h = refl
or_zero_below (suc k) (suc a) h =
    omega (arith, lowest (suc a) 0, or_zero_below k (suc a / 2) (omega arith))

pub or_zero : (a : ℕ) → bit_or a 0 ≡ a
or_zero a = or_zero_below (suc a) a (omega arith)

doubled : (q k : ℕ) → q * 2 ^ suc k ≡ q * 2 ^ k * 2
doubled q k = omega (arith, ap (λ (t : ℕ). q * t) (pow-suc 2 k))

pub or_shifted : (k q r : ℕ) → r < 2 ^ k → bit_or (q * 2 ^ k) r ≡ q * 2 ^ k + r
or_shifted zero q r h = ground (arith, or_zero q)
or_shifted (suc k) q r h =
    ground (arith, lowest (q * 2 ^ suc k) r, doubled q k, pow-suc 2 k, or_shifted k q (r / 2))

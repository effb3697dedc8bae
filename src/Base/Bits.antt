-- ===== src/Base/Bits.antt =====
-- The masks that the library uses, as arithmetic. Each law is a table over the byte, evaluated.
pub mod Or
pub mod And
use Prim.Native.Nat.{ℕ, zero, suc, ◌+◌, ◌-◌, ◌*◌, ◌/◌, ◌%◌, ◌^◌, ◌<◌, bit_and, bit_or, bit_xor}
use mathlib.Core.Path.{◌≡◌, refl}
use mathlib.Core.Bool.{Bool, true, ◌&&◌}
use native.Mathlib.Omega.{arith}
use libmbus.Base.Tests.{◌==◌}

same_below : (ℕ → ℕ) → (ℕ → ℕ) → ℕ → Bool
same_below f g zero = true
same_below f g (suc n) = f n == g n && same_below f g n

by_table : (f g : ℕ → ℕ) (n : ℕ) → same_below f g n ≡ true → (b : ℕ) → b < n → f b ≡ g b
unfolding same_below
by_table f g zero e b h = absurd (omega arith)
by_table f g (suc n) e b h = ground (arith, by_table f g n (ground arith) b)

pub and_0f : (b : ℕ) → b < 256 → bit_and b 0x0F ≡ b % 16
unfolding same_below
and_0f = by_table _ _ 256 refl

pub and_1f : (b : ℕ) → b < 256 → bit_and b 0x1F ≡ b % 32
unfolding same_below
and_1f = by_table _ _ 256 refl

pub and_3f : (b : ℕ) → b < 256 → bit_and b 0x3F ≡ b % 64
unfolding same_below
and_3f = by_table _ _ 256 refl

pub and_7f : (b : ℕ) → b < 256 → bit_and b 0x7F ≡ b % 128
unfolding same_below
and_7f = by_table _ _ 256 refl

pub and_80 : (b : ℕ) → b < 256 → bit_and b 0x80 ≡ b / 128 * 128
unfolding same_below
and_80 = by_table _ _ 256 refl

pub and_e0 : (b : ℕ) → b < 256 → bit_and b 0xE0 ≡ b / 32 * 32
unfolding same_below
and_e0 = by_table _ _ 256 refl

pub and_f0 : (b : ℕ) → b < 256 → bit_and b 0xF0 ≡ b / 16 * 16
unfolding same_below
and_f0 = by_table _ _ 256 refl

pub xor_ff : (b : ℕ) → b < 256 → bit_xor b 0xFF ≡ 255 - b
unfolding same_below
xor_ff = by_table _ _ 256 refl

pub or_f0 : (b : ℕ) → b < 256 → bit_or b 0xF0 ≡ 240 + b % 16
unfolding same_below
or_f0 = by_table _ _ 256 refl

nibbles_table : (b : ℕ) → b < 256 → bit_or (b / 16 * 16) (b % 16) ≡ b
unfolding same_below
nibbles_table = by_table _ _ 256 refl

-- Two digits in one byte.
pub or_nibbles : (hi lo : ℕ) → hi < 16 → lo < 16 → bit_or (hi * 16) lo ≡ hi * 16 + lo
or_nibbles hi lo p q =
    let b : ℕ = hi * 16 + lo in
    let e : b / 16 ≡ hi = omega arith in
    let f : b % 16 ≡ lo = omega arith in simp (e, f) at (nibbles_table b (omega arith))

-- `(c - 64) & 0x1F` on an `int`, whose two's complement has 32 bits.
pub and_1f_letter : (c : ℕ) → c < 256 → bit_and (c + 2 ^ 32 - 64) 0x1F ≡ c % 32
unfolding same_below
and_1f_letter = by_table _ _ 256 refl

pub and_40 : (b : ℕ) → b < 256 → bit_and b 0x40 ≡ b / 64 % 2 * 64
unfolding same_below
and_40 = by_table _ _ 256 refl

pub and_30 : (b : ℕ) → b < 256 → bit_and b 0x30 ≡ b / 16 % 4 * 16
unfolding same_below
and_30 = by_table _ _ 256 refl

-- The seven bits of a year, stored in two places.
pub or_year : (y : ℕ) → y < 128 → bit_or (y % 8) (y / 8 * 8) ≡ y
unfolding same_below
or_year = by_table _ _ 128 refl

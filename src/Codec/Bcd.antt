-- ===== src/Codec/Bcd.antt =====
-- `mbus_data_bcd_encode`, `mbus_data_bcd_decode` and `mbus_data_bcd_decode_hex` of
-- mbus/mbus-protocol.c, on arrays that are there. A `long long` is computed as the number of its 64
-- bits, with the wrap-around of two's complement.
pub mod Laws
use libmbus.Base.{
  ℕ, zero, suc, ◌+◌, ◌-◌, ◌*◌, ◌/◌, ◌==◌, List, [], ◌∷◌, ℤ, pos, negsuc, if◌then◌else◌, ltb, length,
  byte_at, bit_and, bit_or, ◌<<<◌, ◌>>>◌, ◌^◌, u64, set, Option, none, some,
}

-- One round of the decoding loop: the tens, unless they are a hexadecimal digit, and the ones.
unfoldable pub bcd_step : ℕ → ℕ → ℕ
bcd_step val b =
    let tens = if ltb (b >>> 4) 0xA then val * 10 + bit_and (b >>> 4) 0xF else val * 10 in
    u64 (tens * 10 + bit_and b 0xF)

-- `for (i = bcd_data_size; i > 0; i--)`: the last byte comes first.
unfoldable pub bcd_loop : List ℕ → ℕ
bcd_loop [] = 0
bcd_loop (b ∷ bs) = bcd_step (bcd_loop bs) b

-- The number that 64 bits stand for in a `long long`.
abbrev pub long_long : ℕ → ℤ
long_long val = if ltb val (2 ^ 63) then pos val else negsuc (2 ^ 64 - 1 - val)

-- `val * -1`, on the 64 bits.
abbrev pub negate_bits : ℕ → ℕ
negate_bits val = u64 (2 ^ 64 - val)

-- `mbus_data_bcd_decode`. With no byte at all the code reads in front of the array.
unfoldable pub bcd_decode : List ℕ → ℤ
bcd_decode d =
    if byte_at d (length d - 1) >>> 4 == 0xF
    then long_long (negate_bits (bcd_loop d))
    else long_long (bcd_loop d)

-- `mbus_data_bcd_decode_hex`. The result is the number of the 64 bits, as `%llX` prints it; the
-- `long long` itself is `long_long` of it.
unfoldable pub bcd_decode_hex : List ℕ → ℕ
bcd_decode_hex [] = 0
bcd_decode_hex (b ∷ bs) = bit_or (u64 (bcd_decode_hex bs <<< 8)) b

-- One round of the encoding loop on `v0`: the byte, and `v2`.
unfoldable pub bcd_byte : ℕ → ℕ
bcd_byte v0 =
    let v1 = v0 / 10 in
    let v2 = v1 / 10 in let x1 = v0 - v1 * 10 in let x2 = v1 - v2 * 10 in bit_or (x2 <<< 4) x1

-- The bytes are stored from the last index down; `out` is what is stored already.
unfoldable pub bcd_encode_loop : ℕ → ℕ → List ℕ → List ℕ
bcd_encode_loop zero v0 out = out
bcd_encode_loop (suc n) v0 out = bcd_encode_loop n (v0 / 10 / 10) (bcd_byte v0 ∷ out)

-- `abs(value)`, and `value < 0`.
abbrev pub abs : ℤ → ℕ
abs (pos n) = n
abs (negsuc n) = suc n

-- `bcd_data[bcd_data_size-1] |= 0xF0`
unfoldable pub mark_negative : ℤ → List ℕ → List ℕ
mark_negative (pos n) d = d
mark_negative (negsuc n) d = set d (length d - 1) (bit_or (byte_at d (length d - 1)) 0xF0)

-- `mbus_data_bcd_encode` into an array of `size` bytes; `none` is the result -1.
unfoldable pub bcd_encode : ℕ → ℤ → Option (List ℕ)
bcd_encode size value =
    if size == 0 then none else some (mark_negative value (bcd_encode_loop size (abs value) []))

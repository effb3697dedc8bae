-- ===== src/Codec/Integer.antt =====
-- `mbus_data_int_decode`, `mbus_data_long_decode`, `mbus_data_long_long_decode` and
-- `mbus_data_int_encode` of mbus/mbus-protocol.c. The three decoders are one text at three types;
-- they are
-- called with at most four bytes for the `int` and eight for the `long long`. A result of n bytes has
-- 8 * n bits, as `Integer/Laws` shows, so that nothing wraps there.
pub mod Laws
use libmbus.Base.{
  ℕ, zero, suc, ◌+◌, ◌-◌, ◌/◌, ◌*◌, ◌^◌, Bool, true, false, not, List, [], ◌∷◌, ℤ, pos, negsuc,
  if◌then◌else◌, ltb, leb, ◌==◌, length, byte_at, bit_and, bit_xor, u8, Option, none, some, ◌<<<◌,
  ◌>>>◌,
}

-- `for (i = int_data_size; i > 0; i--)`: the last byte comes first.
unfoldable pub int_loop : Bool → List ℕ → ℕ
int_loop neg [] = 0
int_loop neg (b ∷ bs) = (int_loop neg bs <<< 8) + (if neg then bit_xor b 0xFF else b)

-- `*value = *value * -1 - 1`
abbrev pub complement : ℕ → ℤ
complement n = negsuc n

-- `neg = int_data[int_data_size-1] & 0x80`
abbrev pub is_neg : List ℕ → Bool
is_neg d = not (bit_and (byte_at d (length d - 1)) 0x80 == 0)

-- `none` is the result -1, at which `*value` is 0.
unfoldable pub int_decode : List ℕ → Option ℤ
int_decode d =
    if ltb (length d) 1
    then none
    else some (if is_neg d then complement (int_loop true d) else pos (int_loop false d))

-- `(value >> k) & 0xFF`; the shift of a negative number is arithmetic.
unfoldable pub shifted_byte : ℤ → ℕ → ℕ
shifted_byte (pos n) k = u8 (n >>> k)
shifted_byte (negsuc n) k = 255 - u8 (n >>> k)

-- The loop at index `i`, with `left` bytes to store.
unfoldable pub int_encode_loop : ℤ → ℕ → ℕ → List ℕ
int_encode_loop value zero i = []
int_encode_loop value (suc left) i = shifted_byte value (i * 8) ∷ int_encode_loop value left (i + 1)

-- `mbus_data_int_encode` of an `int`, of which the shift by 32 bits or more is undefined: from the
-- fifth byte on there is no result.
unfoldable pub int_encode : ℕ → ℤ → Option (List ℕ)
int_encode size value = if leb size 4 then some (int_encode_loop value size 0) else none

-- ===== src/Units/Value32.antt =====
-- `mbus_variable_value_decode_32` of mbus/mbus-protocol-aux.c.
use libmbus.Base.{ℕ, ◌-◌, ◌^◌, ◌%◌, ℤ, pos, negsuc, minus_one, minus_two, Option, none, some}
use libmbus.Codec.Integer.{int_decode}
use libmbus.Codec.Bcd.{bcd_decode}
use libmbus.Data.Record.{DataRecord}
use libmbus.Units.Value.{
  Coding, no_data, int_8, int_16, int_24, int_32, real_32, int_48, int_64, selection, bcd_2, bcd_4,
  bcd_6, bcd_8, variable_length, bcd_12, special, coding, first,
}

-- A number stored in a `uint32_t`.
abbrev pub u32 : ℤ → ℕ
u32 (pos n) = n % 2 ^ 32
u32 (negsuc n) = 2 ^ 32 - 1 - n % 2 ^ 32

-- What is returned, and what was stored.
abbrev pub Decoded32 : Type 0
Decoded32 = ℤ × Option ℕ

unfoldable pub stored_int : ℕ → DataRecord → Decoded32
stored_int n r = elim (int_decode (first n r.content)) [
  | some i ↦ (pos 0, some (u32 i))
  | none ↦ (minus_one, some 0)
]

unfoldable pub stored_bcd : ℕ → DataRecord → Decoded32
stored_bcd n r = (pos 0, some (u32 (bcd_decode (first n r.content))))

-- `mbus_variable_value_decode_32`, by the kind of data.
unfoldable pub decode_32_as : Coding → DataRecord → Decoded32
decode_32_as int_8 r = stored_int 1 r
decode_32_as int_16 r = stored_int 2 r
decode_32_as int_24 r = stored_int 3 r
decode_32_as int_32 r = stored_int 4 r
decode_32_as bcd_2 r = stored_bcd 1 r
decode_32_as bcd_4 r = stored_bcd 2 r
decode_32_as bcd_6 r = stored_bcd 3 r
decode_32_as bcd_8 r = stored_bcd 4 r
decode_32_as bcd_12 r = stored_bcd 6 r
decode_32_as selection r = (minus_two, none)
decode_32_as no_data r = (minus_one, none)
decode_32_as real_32 r = (minus_one, none)
decode_32_as int_48 r = (minus_one, none)
decode_32_as int_64 r = (minus_one, none)
decode_32_as variable_length r = (minus_one, none)
decode_32_as special r = (minus_one, none)

unfoldable pub variable_value_decode_32 : DataRecord → Decoded32
variable_value_decode_32 r = decode_32_as (coding r) r

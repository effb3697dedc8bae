-- ===== src/Units/Print.antt =====
-- `mbus_data_record_decode`, `mbus_data_record_value` and `mbus_data_record_unit` of
-- mbus/mbus-protocol.c: the value and the unit of a record as texts.
use libmbus.Base.{
  ℕ, zero, suc, ◌/◌, ◌%◌, List, [], ◌∷◌, ◌++◌, none, some, if◌then◌else◌, leb, ltb, length,
}
use libmbus.Codec.Integer.{int_decode}
use libmbus.Codec.Bcd.{bcd_decode_hex}
use libmbus.Codec.Text.{c_string, hex_digit, str_decode, bin_decode}
use libmbus.Codec.Time.{tm_decode}
use libmbus.Data.Record.{DataRecord}
use libmbus.Units.Double.{Double}
use libmbus.Units.Lookup.{vib_unit_lookup}
use libmbus.Units.Prefix.{print_int}
use libmbus.Units.Text.{text, snprintf, small_hex_byte}
use libmbus.Units.Value.{
  Coding, no_data, int_8, int_16, int_24, int_32, real_32, int_48, int_64, selection, bcd_2, bcd_4,
  bcd_6, bcd_8, variable_length, bcd_12, special, first, coding, is_date, is_date_time, print_date,
  print_date_time, float_decode,
}

-- `%X` and `%llX`, of at most `places` digits.
unfoldable pub hex_digits : ℕ → ℕ → List ℕ
hex_digits zero n = []
hex_digits (suc places) n =
    let front = hex_digits places (n / 16) in
    if ltb n 16 then hex_digit n ∷ [] else front ++ (hex_digit (n % 16) ∷ [])

-- The buffer is one for all calls: what no call has written is as it was, but none gets there.
unfoldable pub print_decoded : ℕ → DataRecord → List ℕ
print_decoded n r = elim (int_decode (first n r.content)) [
  | some i ↦ snprintf 768 (print_int i)
  | none ↦ []
]

unfoldable pub print_bcd : ℕ → DataRecord → List ℕ
print_bcd n r = snprintf 768 (hex_digits 16 (bcd_decode_hex (first n r.content)))

unfoldable pub unknown_dif : DataRecord → List ℕ
unknown_dif r = snprintf 768 (text "Unknown DIF (0x" ++ small_hex_byte r.dif ++ text ")")

unfoldable pub print_time : ℕ → DataRecord → List ℕ
print_time n r = snprintf 768 (print_date_time (tm_decode (first n r.content)))

module _ {ℓ} {W : Type ℓ} (d : Double W) where
  -- A text that a record holds ends for the caller at its first NUL. The switch of `mbus_data_record_decode`, by the kind of data.
  unfoldable pub print_as : Coding → DataRecord → List ℕ
  print_as no_data r = []
  print_as int_8 r = print_decoded 1 r
  print_as int_16 r =
      if is_date r
      then snprintf 768 (print_date (tm_decode (first 2 r.content)))
      else print_decoded 2 r
  print_as int_24 r = print_decoded 3 r
  print_as int_32 r = if is_date_time r then print_time 4 r else print_decoded 4 r
  print_as real_32 r = snprintf 768 (d.print (float_decode ⦃d = d⦄ r.content))
  print_as int_48 r = if is_date_time r then print_time 6 r else print_decoded 6 r
  print_as int_64 r = print_decoded 8 r
  print_as bcd_2 r = print_bcd 1 r
  print_as bcd_4 r = print_bcd 2 r
  print_as bcd_6 r = print_bcd 3 r
  print_as bcd_8 r = print_bcd 4 r
  print_as variable_length r =
      if leb (length r.content) 0xBF then c_string (str_decode r.content) else unknown_dif r
  print_as bcd_12 r = print_bcd 6 r
  print_as special r = bin_decode r.content 768
  print_as selection r = unknown_dif r

  -- `mbus_data_record_decode`
  unfoldable pub record_decode : DataRecord → List ℕ
  record_decode r = print_as (coding r) r

  -- `mbus_data_record_value`
  unfoldable pub record_value : DataRecord → List ℕ
  record_value r = snprintf 768 (record_decode r)

-- `mbus_data_record_unit`
unfoldable pub record_unit : DataRecord → List ℕ
record_unit r = snprintf 256 (vib_unit_lookup r)

-- ===== src/Units/Value.antt =====
-- How the bytes of a record become a value: `mbus_data_float_decode` of mbus/mbus-protocol.c and
-- `mbus_variable_value_decode` of mbus/mbus-protocol-aux.c, where `malloc` succeeds.
use libmbus.Base.{
  ℕ, zero, suc, ◌+◌, ◌-◌, ◌*◌, Bool, ◌&&◌, ◌||◌, List, [], ◌∷◌, ◌++◌, ℤ, pos, negsuc, minus_one,
  minus_two, Option, none, some, if◌then◌else◌, ◌==◌, leb, length, bit_and, byte_at, replicate,
}
use libmbus.Codec.Bytes.{little_endian}
use libmbus.Codec.Integer.{int_decode}
use libmbus.Codec.Bcd.{bcd_decode}
use libmbus.Codec.Text.{str_decode, bin_decode}
use libmbus.Codec.Time.{Tm, tm_decode}
use libmbus.Data.Record.{DataRecord}
use libmbus.Units.Table.Entry.{whole}
use libmbus.Units.Double.{Double}
use libmbus.Units.Prefix.{decimal_digits}
use libmbus.Units.Text.{text, snprintf, switch}

-- The first bytes of `record->data`, which is 0 behind the bytes of the record.
unfoldable pub first : ℕ → List ℕ → List ℕ
first zero d = []
first (suc n) [] = 0 ∷ first n []
first (suc n) (b ∷ d) = b ∷ first n d

-- The cases of the switches on the data field of the DIF; `selection` is their `default`.
pub data Coding : Type 0 where
  no_data : Coding
  int_8 : Coding
  int_16 : Coding
  int_24 : Coding
  int_32 : Coding
  real_32 : Coding
  int_48 : Coding
  int_64 : Coding
  selection : Coding
  bcd_2 : Coding
  bcd_4 : Coding
  bcd_6 : Coding
  bcd_8 : Coding
  variable_length : Coding
  bcd_12 : Coding
  special : Coding

unfoldable pub coding : DataRecord → Coding
coding r =
    switch (bit_and r.dif 0x0F)
      (((0x0 ∷ [], no_data)
        ∷ (0x1 ∷ [], int_8)
        ∷ (0x2 ∷ [], int_16)
        ∷ (0x3 ∷ [], int_24)
        ∷ (0x4 ∷ [], int_32)
        ∷ (0x5 ∷ [], real_32)
        ∷ (0x6 ∷ [], int_48)
        ∷ (0x7 ∷ [], int_64)
        ∷ (0x9 ∷ [], bcd_2)
        ∷ (0xA ∷ [], bcd_4)
        ∷ (0xB ∷ [], bcd_6)
        ∷ (0xC ∷ [], bcd_8)
        ∷ (0xD ∷ [], variable_length)
        ∷ (0xE ∷ [], bcd_12)
        ∷ (0xF ∷ [], special)
        ∷ []))
      selection

-- `(vif & 0x7F) == 0x6C`
unfoldable pub is_date : DataRecord → Bool
is_date r = bit_and r.vif 0x7F == 0x6C

unfoldable pub is_date_time : DataRecord → Bool
is_date_time r =
    let vife = bit_and (byte_at r.vife 0) 0x7F in
    bit_and r.vif 0x7F == 0x6D || (r.vif == 0xFD && vife == 0x30) || (r.vif == 0xFD && vife == 0x70)

-- `%0<width>d` of a number that is not negative.
abbrev pub padded : ℕ → ℕ → List ℕ
padded width n = let s = decimal_digits 20 n in replicate (width - length s) b'0' ++ s

-- `tm_mon + 1`
abbrev pub month_number : ℤ → ℕ
month_number (pos m) = m + 1
month_number (negsuc m) = 0

-- `%04d-%02d-%02d`
unfoldable pub print_date : Tm → List ℕ
print_date t =
    padded 4 (t.year + 1900)
    ++ text "-"
    ++ padded 2 (month_number t.mon)
    ++ text "-"
    ++ padded 2 t.mday

-- `%04d-%02d-%02dT%02d:%02d:%02d`
unfoldable pub print_date_time : Tm → List ℕ
print_date_time t =
    print_date t
    ++ text "T"
    ++ padded 2 t.hour
    ++ text ":"
    ++ padded 2 t.min
    ++ text ":"
    ++ padded 2 t.sec

-- `mbus_data_float_decode` where `float` is the format of IEEE 754 and the machine stores low bytes
-- first: the four bytes are the bits of the result.
unfoldable pub float_decode {ℓ} : {W : Type ℓ} ⦃d : Double W⦄ → List ℕ → W
float_decode ⦃d⦄ float_data = d.of_float (little_endian (first 4 float_data))

-- What is returned, and what was stored at the two places; `none` is the text NULL. The size of a
-- text is stored too.
pub record Decoded {ℓ} (W : Type ℓ) : Type ℓ where
  pub result : ℤ
  pub real : W
  pub str : Option (List ℕ)
  pub str_size : ℕ

module _ {ℓ} {W : Type ℓ} ⦃d : Double W⦄ where
  abbrev pub failed : ℤ → Decoded W
  failed code = record { result = code; real = d.literal (whole 0); str = none; str_size = 0 }

  abbrev pub decoded_real : W → Decoded W
  decoded_real x = record { result = pos 0; real = x; str = none; str_size = 0 }

  -- A text of `size` characters, of which `room - 1` are stored.
  abbrev pub decoded_text : ℕ → List ℕ → Decoded W
  decoded_text room s = record {
    result = pos 0;
    real = d.literal (whole 0);
    str = some (snprintf room s);
    str_size = length s;
  }

  -- `mbus_data_int_decode` and `mbus_data_long_long_decode` of the first `n` bytes.
  unfoldable pub decoded_int : ℕ → DataRecord → Decoded W
  decoded_int n r = elim (int_decode (first n r.content)) [
    | some i ↦ decoded_real (d.of_int i)
    | none ↦ record (failed minus_one) { real = d.of_int (pos 0) }
  ]

  unfoldable pub decoded_bcd : ℕ → DataRecord → Decoded W
  decoded_bcd n r = decoded_real (d.of_int (bcd_decode (first n r.content)))

  -- The texts of a record of variable length and of the special functions.
  abbrev pub decoded_str : DataRecord → Decoded W
  decoded_str r =
      if leb (length r.content) 0xBF
      then decoded_text (length r.content + 1) (str_decode r.content)
      else failed minus_two

  abbrev pub decoded_bin : DataRecord → Decoded W
  decoded_bin r =
      let size = 3 * length r.content in
      record {
        result = pos 0;
        real = d.literal (whole 0);
        str = some (bin_decode r.content (size + 1));
        str_size = size;
      }

  abbrev pub decoded_date_time : ℕ → DataRecord → Decoded W
  decoded_date_time n r =
      decoded_text 21 (print_date_time (tm_decode (first n r.content)) ++ text "Z")

  -- `mbus_variable_value_decode`, by the kind of data.
  unfoldable pub decode_as : Coding → DataRecord → Decoded W
  decode_as no_data r = decoded_text 1 []
  decode_as int_8 r = decoded_int 1 r
  decode_as int_16 r =
      if is_date r
      then decoded_text 11 (print_date (tm_decode (first 2 r.content)))
      else decoded_int 2 r
  decode_as int_24 r = decoded_int 3 r
  decode_as int_32 r = if is_date_time r then decoded_date_time 4 r else decoded_int 4 r
  decode_as real_32 r = decoded_real (float_decode r.content)
  decode_as int_48 r = if is_date_time r then decoded_date_time 6 r else decoded_int 6 r
  decode_as int_64 r = decoded_int 8 r
  decode_as bcd_2 r = decoded_bcd 1 r
  decode_as bcd_4 r = decoded_bcd 2 r
  decode_as bcd_6 r = decoded_bcd 3 r
  decode_as bcd_8 r = decoded_bcd 4 r
  decode_as variable_length r = decoded_str r
  decode_as bcd_12 r = decoded_bcd 6 r
  decode_as special r = decoded_bin r
  decode_as selection r = failed minus_two

  unfoldable pub variable_value_decode : DataRecord → Decoded W
  variable_value_decode r = decode_as (coding r) r

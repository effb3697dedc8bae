-- ===== src/Codec/Time.antt =====
-- `mbus_data_tm_decode` of mbus/mbus-protocol.c. Of `struct tm` the model has the fields that the
-- function sets to something else than 0.
pub mod Laws
use libmbus.Base.{
  ℕ, ◌+◌, ◌-◌, ◌*◌, ◌/◌, Bool, not, List, ℤ, pos, negsuc, sub_ℕ, if◌then◌else◌, ◌==◌, length,
  byte_at, bit_and, bit_or, ◌>>>◌,
}

pub record Tm : Type 0 where
  pub sec : ℕ
  pub min : ℕ
  pub hour : ℕ
  pub mday : ℕ
  -- Months since January: -1 where the data has no month.
  pub mon : ℤ
  -- Years since 1900.
  pub year : ℕ
  pub isdst : ℕ

abbrev pub zero_tm : Tm
zero_tm = record { sec = 0; min = 0; hour = 0; mday = 0; mon = pos 0; year = 0; isdst = 0 }

-- `(b & 0x0F) - 1`
abbrev pub month_of : ℕ → ℤ
month_of b = sub_ℕ (bit_and b 0x0F) 1

-- `100 + (((a & 0xE0) >> 5) | ((b & 0xF0) >> 1))`
abbrev pub year_of : ℕ → ℕ → ℕ
year_of a b = 100 + bit_or (bit_and a 0xE0 >>> 5) (bit_and b 0xF0 >>> 1)

-- Type I, six bytes.
unfoldable pub tm_decode_i : List ℕ → Tm
tm_decode_i d =
    if bit_and (byte_at d 1) 0x80 == 0
    then record {
      sec = bit_and (byte_at d 0) 0x3F;
      min = bit_and (byte_at d 1) 0x3F;
      hour = bit_and (byte_at d 2) 0x1F;
      mday = bit_and (byte_at d 3) 0x1F;
      mon = month_of (byte_at d 4);
      year = year_of (byte_at d 3) (byte_at d 4);
      isdst = if bit_and (byte_at d 0) 0x40 == 0 then 0 else 1;
    }
    else zero_tm

-- Type F, four bytes.
unfoldable pub tm_decode_f : List ℕ → Tm
tm_decode_f d =
    if bit_and (byte_at d 0) 0x80 == 0
    then record {
      sec = 0;
      min = bit_and (byte_at d 0) 0x3F;
      hour = bit_and (byte_at d 1) 0x1F;
      mday = bit_and (byte_at d 2) 0x1F;
      mon = month_of (byte_at d 3);
      year = year_of (byte_at d 2) (byte_at d 3);
      isdst = if bit_and (byte_at d 1) 0x80 == 0 then 0 else 1;
    }
    else zero_tm

-- Type G, two bytes.
unfoldable pub tm_decode_g : List ℕ → Tm
tm_decode_g d = record zero_tm {
  mday = bit_and (byte_at d 0) 0x1F;
  mon = month_of (byte_at d 1);
  year = year_of (byte_at d 0) (byte_at d 1);
}

-- `mbus_data_tm_decode`: the length of the list is `t_data_size`.
unfoldable pub tm_decode : List ℕ → Tm
tm_decode d =
    if length d == 6
    then tm_decode_i d
    else (if length d == 4
        then tm_decode_f d
        else (if length d == 2 then tm_decode_g d else zero_tm))

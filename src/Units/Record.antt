-- ===== src/Units/Record.antt =====
-- `mbus_record` of mbus/mbus-protocol-aux.h, and `mbus_parse_fixed_record` and
-- `mbus_parse_variable_record` of mbus/mbus-protocol-aux.c, which fill it from the answers of a slave.
use libmbus.Base.{ℕ, ◌==◌, ◌||◌, List, ℤ, pos, Option, none, some, if◌then◌else◌, bit_and, is_zero}
use libmbus.Codec.Integer.{int_decode}
use libmbus.Codec.Bcd.{bcd_decode}
use libmbus.Data.Outcome.{Outcome, done, ◌>>=◌, ◌>>◌, check}
use libmbus.Data.Record.{DataRecord, manufacturer_specific, more_records_follow_dif}
use libmbus.Data.Storage.{storage_number, tariff, device}
use libmbus.Units.Table.Entry.{whole}
use libmbus.Units.Text.{text}
use libmbus.Units.Double.{Double}
use libmbus.Units.Medium.{record_function, fixed_function}
use libmbus.Units.Normalize.{Normalized, fixed_normalize, vib_unit_normalize}
use libmbus.Units.Value.{Decoded, first, variable_value_decode}

-- `value` with `is_numeric`.
pub data RecordValue {ℓ} (W : Type ℓ) : Type ℓ where
  real_val : W → RecordValue W
  str_val : List ℕ → ℕ → RecordValue W

-- `mbus_record`; `none` is NULL, and the number -1.
pub record MbusRecord {ℓ} (W : Type ℓ) : Type ℓ where
  pub value : RecordValue W
  pub unit : Option (List ℕ)
  pub function_medium : List ℕ
  pub quantity : Option (List ℕ)
  pub device_no : Option ℕ
  pub tariff_no : Option ℕ
  pub storage_no : ℕ

-- The counter of a fixed answer, as the format bit of the status says.
unfoldable pub counter_value : ℕ → List ℕ → ℤ
counter_value status_byte bytes =
    if bit_and status_byte 0x80 == 0x00
    then bcd_decode (first 4 bytes)
    else elim (int_decode (first 4 bytes)) [ some i ↦ i | none ↦ pos 0 ]

module _ {ℓ} {W : Type ℓ} ⦃d : Double W⦄ where
  -- A place of type `double` that was 0.0 before.
  abbrev pub real_out : Option W → W
  real_out none = d.literal (whole 0)
  real_out (some x) = x

  -- The text, if there is one, and else the number.
  abbrev pub value_of : Decoded W → W → RecordValue W
  value_of w x = elim w.str [ some s ↦ str_val s w.str_size | none ↦ real_val x ]

  -- `mbus_parse_fixed_record`; NULL is `refused`.
  unfoldable pub parse_fixed_record : ℕ → ℕ → List ℕ → Outcome (MbusRecord W)
  parse_fixed_record status_byte medium_unit bytes = do
    let n : Normalized W = fixed_normalize medium_unit (counter_value status_byte bytes)
    check (is_zero n.result)
    done record {
      value = real_val (real_out n.value_out);
      unit = n.unit_out;
      function_medium = fixed_function status_byte;
      quantity = n.quantity_out;
      device_no = none;
      tariff_no = none;
      storage_no = 0;
    }

  -- A record that is not interpreted: its unit and quantity stay NULL.
  unfoldable pub special_record : DataRecord → ℕ → Option ℕ → Option ℕ → Outcome (MbusRecord W)
  special_record r storage t dev = do
    let w : Decoded W = variable_value_decode r
    check (is_zero w.result)
    done record {
      value = value_of w (d.literal (whole 0));
      unit = none;
      function_medium =
          if r.dif == more_records_follow_dif
          then text "More records follow"
          else text "Manufacturer specific";
      quantity = none;
      device_no = dev;
      tariff_no = t;
      storage_no = storage;
    }

  unfoldable pub plain_record : DataRecord → ℕ → Option ℕ → Option ℕ → Outcome (MbusRecord W)
  plain_record r storage t dev = do
    let w : Decoded W = variable_value_decode r
    check (is_zero w.result)
    let n : Normalized W = vib_unit_normalize r w.real
    check (is_zero n.result)
    done record {
      value = value_of w (real_out n.value_out);
      unit = n.unit_out;
      function_medium = record_function r;
      quantity = n.quantity_out;
      device_no = dev;
      tariff_no = t;
      storage_no = storage;
    }

  -- `mbus_parse_variable_record`; NULL is `refused`.
  unfoldable pub parse_variable_record : DataRecord → Outcome (MbusRecord W)
  parse_variable_record r = do
    storage ← storage_number r
    t ← tariff r
    dev ← device r
    (if r.dif == manufacturer_specific || r.dif == more_records_follow_dif
        then special_record r storage t dev
        else plain_record r storage t dev)

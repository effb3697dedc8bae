-- ===== src/Units/Laws/Records.antt =====
-- A record of an answer as `mbus_parse_variable_record` gives it to the caller.
use libmbus.Base.{
  ℕ, ◌+◌, ◌*◌, ◌/◌, ◌%◌, ◌≤◌, ◌≡◌, ◌⊎◌, inl, inr, refl, sym, ◌∙◌, false, ◌||◌, arith, Option, none,
  some, if◌then◌else◌, ltb, ◌==◌, length, AreBytes, IsByte, Bool-cases, ◌≢◌,
}
use libmbus.Data.Outcome.{done, check}
use libmbus.Data.Record.{DataRecord, manufacturer_specific, more_records_follow_dif}
use libmbus.Data.Storage.{digits, storage_number-digits, tariff-device-digits}
use libmbus.Units.Table.Entry.{decimal}
use libmbus.Units.Text.{text, switch, is_among}
use libmbus.Units.Double.{Double}
use libmbus.Units.Medium.{record_function}
use libmbus.Units.Normalize.{vib_unit_normalize}
use libmbus.Units.Value.{coding, decoded_real, variable_value_decode}
use libmbus.Units.Record.{MbusRecord, real_val, plain_record, parse_variable_record}
use libmbus.Units.Laws.Standard.{Meaning, meaning, is_misread, code_of}
use libmbus.Units.Laws.Decades.{in_unit, vib_unit_normalize-lookup}
use libmbus.Units.Laws.Printed.{int_at, int_width, int_width_as, record_value-int}

-- A record of an integer is none of those that are not interpreted.
special-width : (r : DataRecord) → (r.dif ≡ 0x0F) ⊎ (r.dif ≡ 0x1F) → int_width r ≡ none
unfolding int_width int_width_as coding switch is_among
special-width r (inl e) = rw e refl
special-width r (inr e) = rw e refl

no_width : (n : ℕ) → ◌≢◌ {A = Option ℕ} none (some n)
no_width n e = cc

interpreted :
    (r : DataRecord) (n : ℕ)
    → int_width r ≡ some n
    → (r.dif == manufacturer_specific || r.dif == more_records_follow_dif) ≡ false
interpreted r n e = elim (Bool-cases (r.dif == 0x0F || r.dif == 0x1F)) [
  | inr out ↦ out
  | inl y ↦ absurd (no_width n (sym (special-width r (ground arith)) ∙ e))
]

-- What a number of the DIFEs is, where there is a DIFE.
abbrev pub number_of : (ℕ → ℕ) → ℕ → DataRecord → Option ℕ
number_of field bits r = if ltb 0 (length r.dife) then some (digits field bits r.dife) else none

done-number :
    (r : DataRecord) (k : ℕ)
    → (if ltb 0 (length r.dife) then done (some k) else done none)
      ≡ done (if ltb 0 (length r.dife) then some k else none)
done-number r k = elim (Bool-cases (ltb 0 (length r.dife))) [
  | inl y ↦ rw y refl
  | inr y ↦ rw y refl
]

module _ {ℓ} {W : Type ℓ} ⦃d : Double W⦄ where
  -- The record for a value of a meaning, with the numbers of the DIFEs.
  abbrev pub record_of : DataRecord → Meaning → W → ℕ → Option ℕ → Option ℕ → MbusRecord W
  record_of r m x s t dev = record {
    value = real_val (d.times x (d.literal (decimal 1 m.power)));
    unit = some (text m.unit);
    function_medium = record_function r;
    quantity = some (text m.quantity);
    device_no = dev;
    tariff_no = t;
    storage_no = s;
  }

  plain_record-in_unit :
      (r : DataRecord) (m : Meaning) (x : W) (s : ℕ) (t dev : Option ℕ)
      → variable_value_decode r ≡ decoded_real x
      → vib_unit_normalize r x ≡ in_unit m x
      → plain_record r s t dev ≡ done (record_of r m x s t dev)
  unfolding plain_record check
  plain_record-in_unit r m x s t dev value norm = rw (value, norm) refl

-- For a record of bytes with at most seven DIFEs that holds an integer of `n` bytes and no date, and whose
-- code stands for a power of ten of a unit in the standard and is not one of those that `vif_table`
-- has wrong (0x208, 0x209, 0x230, 0x231 and 0x279): `mbus_parse_variable_record` gives the integer in two's
-- complement times the power of ten of the code, with the unit and the quantity of the standard, the
-- function of the DIF, and storage number, tariff and device with their bits of the DIF and the
-- DIFEs as digits.
pub parse_variable_record-meaning {ℓ} :
    {W : Type ℓ} ⦃d : Double W⦄ (r : DataRecord) (n code : ℕ) (m : Meaning)
    → IsByte r.dif
    → AreBytes r.dife
    → length r.dife ≤ 7
    → AreBytes r.vife
    → AreBytes r.content
    → int_width r ≡ some n
    → code_of r ≡ some code
    → meaning code ≡ some m
    → is_misread code ≡ false
    → parse_variable_record r
      ≡ done (
          record_of r m
            (d.of_int (int_at n r))
            (r.dif / 64 % 2 + 2 * digits (λ e. e % 16) 4 r.dife)
            (number_of (λ e. e / 16 % 4) 2 r)
            (number_of (λ e. e / 64 % 2) 1 r))
unfolding parse_variable_record
parse_variable_record-meaning ⦃d⦄ r n code m dif dife few vife content width at e right =
    let x = d.of_int (int_at n r) in
    let (t, dev) = tariff-device-digits r dife (omega arith) in
    rw
      (
        storage_number-digits r dif dife few,
        t ∙ done-number r (digits (λ b. b / 16 % 4) 2 r.dife),
        dev ∙ done-number r (digits (λ b. b / 64 % 2) 1 r.dife),
        interpreted r n width,
      )
      (plain_record-in_unit r m x _ _ _ (record_value-int r n content width).1
        ((vib_unit_normalize-lookup r x code m vife at e right).0))

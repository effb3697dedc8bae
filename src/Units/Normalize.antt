-- ===== src/Units/Normalize.antt =====
-- `mbus_fixed_normalize`, `mbus_vif_unit_normalize` and `mbus_vib_unit_normalize` of
-- mbus/mbus-protocol-aux.c, with the places for their results there.
use Prim.Native.String.{String}
use libmbus.Base.{
  ℕ, Bool, ◌&&◌, ◌||◌, not, List, [], ◌∷◌, ℤ, pos, minus_one, minus_two, sub_ℕ, Option, none, some,
  if◌then◌else◌, ◌==◌, length, bit_and, bit_or, byte_at, is_zero,
}
use libmbus.Codec.Text.{c_string}
use libmbus.Data.Record.{DataRecord}
use libmbus.Units.Text.{text, switch}
use libmbus.Units.Table.{vif_table, find}
use libmbus.Units.Table.Entry.{VariableVif, whole}
use libmbus.Units.Table.Fixed.{fixed_table}
use libmbus.Units.Double.{Double}

-- What is returned, and what was stored at the three places; `none` is a place left as it was.
pub record Normalized {ℓ} (W : Type ℓ) : Type ℓ where
  pub result : ℤ
  pub unit_out : Option (List ℕ)
  pub value_out : Option W
  pub quantity_out : Option (List ℕ)

-- `(vif & 0x80) && vif != 0xFD && vif != 0xFB`
unfoldable pub is_corrected : ℕ → Bool
is_corrected vif = not (bit_and vif 0x80 == 0) && not (vif == 0xFD) && not (vif == 0xFB)

module _ {ℓ} {W : Type ℓ} ⦃d : Double W⦄ where
  abbrev pub normalized : List ℕ → W → List ℕ → Normalized W
  normalized u x q = record {
    result = pos 0;
    unit_out = some u;
    value_out = some x;
    quantity_out = some q;
  }

  -- `missing VIF extension`
  abbrev pub missing : Normalized W
  missing = record { result = minus_one; unit_out = none; value_out = none; quantity_out = none }

  abbrev pub unknown : String → Normalized W
  unknown unit = record {
    result = minus_one;
    unit_out = some (text unit);
    value_out = some (d.literal (whole 0));
    quantity_out = some (text "Unknown");
  }

  abbrev pub of_entry : VariableVif → W → Normalized W
  of_entry e value =
      normalized (text e.unit) (d.times value (d.literal e.exponent)) (text e.quantity)

  -- The times 0x00 and 0x01: their values are not stored.
  abbrev pub time_of : String → Normalized W
  time_of unit = record {
    result = minus_two;
    unit_out = some (text unit);
    value_out = none;
    quantity_out = some (text "Time");
  }

  -- `default` in `mbus_fixed_normalize`
  unfoldable pub fixed_lookup : ℕ → ℤ → Normalized W
  fixed_lookup medium_unit medium_value = elim (find fixed_table medium_unit) [
    | some e ↦ of_entry e (d.of_int medium_value)
    | none ↦ unknown "Unknown"
  ]

  -- `mbus_fixed_normalize`
  unfoldable pub fixed_normalize : ℕ → ℤ → Normalized W
  fixed_normalize byte medium_value =
      let medium_unit = bit_and byte 0x3F in
      if medium_unit == 0x00
      then time_of "h,m,s"
      else (if medium_unit == 0x01 then time_of "D,M,Y" else fixed_lookup medium_unit medium_value)

  -- `mbus_vif_unit_normalize`. The unit of an unknown VIF is the format as it stands.
  unfoldable pub vif_unit_normalize : ℕ → W → Normalized W
  vif_unit_normalize vif value = elim (find vif_table (bit_and vif 0xF7F)) [
    | some e ↦ of_entry e value
    | none ↦ unknown "Unknown (VIF=0x%.02X)"
  ]

  -- The part of `mbus_vib_unit_normalize` up to the correction.
  unfoldable pub vib_lookup : DataRecord → W → Normalized W
  vib_lookup r value =
      let vife = bit_and (byte_at r.vife 0) 0x7F in
      if r.vif == 0xFD
      then (if length r.vife == 0 then missing else vif_unit_normalize (bit_or vife 0x100) value)
      else (if r.vif == 0xFB
          then (if length r.vife == 0
              then missing
              else vif_unit_normalize (bit_or vife 0x200) value)
          else (if r.vif == 0x7C || r.vif == 0xFC
              then normalized (text "-") value (c_string r.custom_vif)
              else vif_unit_normalize (bit_and r.vif 0x7F) value))

  -- The correction by the first VIFE, as a function on the value.
  unfoldable pub correction : ℕ → W → W
  correction vife value =
      switch (bit_and vife 0x7F)
        (((
          0x70 ∷ 0x71 ∷ 0x72 ∷ 0x73 ∷ 0x74 ∷ 0x75 ∷ 0x76 ∷ 0x77 ∷ [],
          d.times value (d.power_of_ten (sub_ℕ (bit_and vife 0x07) 6)),
        )
          ∷ (
            0x78 ∷ 0x79 ∷ 0x7A ∷ 0x7B ∷ [],
            d.plus value (d.power_of_ten (sub_ℕ (bit_and vife 0x03) 3)),
          )
          ∷ (0x7D ∷ [], d.times value (d.literal (whole 1000)))
          ∷ []))
        value

  abbrev pub correct : ℕ → Normalized W → Normalized W
  correct vife n = record n {
    value_out = elim n.value_out [ some x ↦ some (correction vife x) | none ↦ none ];
  }

  -- `mbus_vib_unit_normalize` on the VIB of a record.
  unfoldable pub vib_unit_normalize : DataRecord → W → Normalized W
  vib_unit_normalize r value =
      let n = vib_lookup r value in
      if is_zero n.result
      then (if is_corrected r.vif then correct (byte_at r.vife 0) n else n)
      else n

-- ===== src/Units/Lookup.antt =====
-- `mbus_vif_unit_lookup`, `mbus_vib_unit_lookup` and `mbus_data_error_lookup` of
-- mbus/mbus-protocol.c: the units of values as they are printed.
pub mod Fb
pub mod Fd
use Prim.Native.String.{String}
use libmbus.Base.{
  ℕ, ◌+◌, ◌-◌, ◌&&◌, List, [], ◌∷◌, ◌++◌, sub_ℕ, if◌then◌else◌, ◌==◌, length, bit_and, byte_at,
}
use libmbus.Codec.Text.{c_string, hex_byte}
use libmbus.Data.Record.{DataRecord}
use libmbus.Units.Text.{text, snprintf, switch, labels}
use libmbus.Units.Prefix.{scaled, unit_prefix}
use libmbus.Units.Lookup.Fb.{vib_unit_lookup_fb}
use libmbus.Units.Lookup.Fd.{vib_unit_lookup_fd}

-- The block of the four durations.
unfoldable pub duration : ℕ → List ℕ
duration vif =
    (if bit_and vif 0x7C == 0x20
      then text "On time "
      else (if bit_and vif 0x7C == 0x24
          then text "Operating time "
          else (if bit_and vif 0x7C == 0x70
              then text "Averaging Duration "
              else text "Actuality Duration ")))
    ++ switch (bit_and vif 0x03)
        ((0x00 ∷ [], text "(seconds)")
          ∷ (0x01 ∷ [], text "(minutes)")
          ∷ (0x02 ∷ [], text "(hours)")
          ∷ (0x03 ∷ [], text "(days)")
          ∷ [])
        []

-- The cases of `mbus_vif_unit_lookup` down to the mass flow.
unfoldable pub power_text : ℕ → List ℕ → List ℕ
power_text vif otherwise =
    let n = bit_and vif 0x07 in
    switch (bit_and vif 0x7F)
      ((labels 0x00 8, scaled "Energy (" n 3 "Wh)")
        ∷ (labels 0x08 8, scaled "Energy (" n 0 "J)")
        ∷ (labels 0x18 8, scaled "Mass (" n 3 "kg)")
        ∷ (labels 0x28 8, scaled "Power (" n 3 "W)")
        ∷ (labels 0x30 8, scaled "Power (" n 0 "J/h)")
        ∷ (labels 0x10 8, scaled "Volume (" n 6 " m^3)")
        ∷ (labels 0x38 8, scaled "Volume flow (" n 6 " m^3/h)")
        ∷ (labels 0x40 8, scaled "Volume flow (" n 7 " m^3/min)")
        ∷ (labels 0x48 8, scaled "Volume flow (" n 9 " m^3/s)")
        ∷ (labels 0x50 8, scaled "Mass flow (" n 3 " kg/h)")
        ∷ [])
      otherwise

-- The other cases.
unfoldable pub more_vif_text : ℕ → List ℕ
more_vif_text vif =
    let m = bit_and vif 0x03 in
    switch (bit_and vif 0x7F)
      ((labels 0x58 4, scaled "Flow temperature (" m 3 "deg C)")
        ∷ (labels 0x5C 4, scaled "Return temperature (" m 3 "deg C)")
        ∷ (labels 0x68 4, scaled "Pressure (" m 3 " bar)")
        ∷ (labels 0x20 8 ++ labels 0x70 8, duration vif)
        ∷ (
          labels 0x6C 2,
          (if bit_and vif 0x1 == 0
              then text "Time Point (date)"
              else text "Time Point (time & date)"),
        )
        ∷ (labels 0x60 4, scaled "Temperature Difference (" m 3 " deg C)")
        ∷ (labels 0x64 4, scaled "External temperature (" m 3 " deg C)")
        ∷ (0x6E ∷ [], text "Units for H.C.A.")
        ∷ (0x6F ∷ [], text "Reserved")
        ∷ (0x7C ∷ [], text "Custom VIF")
        ∷ (0x78 ∷ [], text "Fabrication number")
        ∷ (0x7A ∷ [], text "Bus Address")
        ∷ (0x7F ∷ 0xFF ∷ [], text "Manufacturer specific")
        ∷ [])
      (text "Unknown (VIF=0x" ++ hex_byte vif ++ text ")")

-- The text of the whole switch, before it is cut to the buffer.
unfoldable pub vif_unit_text : ℕ → List ℕ
vif_unit_text vif = power_text vif (more_vif_text vif)

-- `mbus_vif_unit_lookup`
unfoldable pub vif_unit_lookup : ℕ → List ℕ
vif_unit_lookup vif = snprintf 64 (vif_unit_text vif)

-- `mbus_vib_unit_lookup` on the VIB of a record, whose own unit is read up to its first NUL.
unfoldable pub vib_unit_lookup : DataRecord → List ℕ
vib_unit_lookup r =
    let vife = byte_at r.vife 0 in
    if r.vif == 0xFB
    then (if length r.vife == 0 then text "Missing VIF extension" else vib_unit_lookup_fb vife)
    else (if r.vif == 0xFD
        then (if length r.vife == 0 then text "Missing VIF extension" else vib_unit_lookup_fd vife)
        else (if r.vif == 0x7C
            then snprintf 256 (c_string r.custom_vif)
            else (if r.vif == 0xFC && bit_and vife 0x78 == 0x70
                then snprintf 256
                    (unit_prefix (sub_ℕ (bit_and vife 0x07) 6) ++ text " " ++ c_string r.custom_vif)
                else vif_unit_lookup r.vif)))

-- `mbus_data_error_lookup`, on the byte of an answer.
unfoldable pub data_error_lookup : ℕ → List ℕ
data_error_lookup error = snprintf 30 (
    switch error
      ((0x00 ∷ [], text "Unspecified error")
        ∷ (0x01 ∷ [], text "Unimplemented CI-Field")
        ∷ (0x02 ∷ [], text "Buffer too long, truncated")
        ∷ (0x03 ∷ [], text "Too many records")
        ∷ (0x04 ∷ [], text "Premature end of record")
        ∷ (0x05 ∷ [], text "More than 10 DIFE´s")
        ∷ (0x06 ∷ [], text "More than 10 VIFE´s")
        ∷ (0x07 ∷ [], text "Reserved")
        ∷ (0x08 ∷ [], text "Application busy")
        ∷ (0x09 ∷ [], text "Too many readouts")
        ∷ [])
      (text "Unknown error (0x" ++ hex_byte error ++ text ")"))

-- ===== src/Units/Medium.antt =====
-- The texts for answers of mbus/mbus-protocol.c: `mbus_data_fixed_medium`, `mbus_data_fixed_unit`,
-- `mbus_data_variable_medium_lookup`, `mbus_data_record_function` and `mbus_data_fixed_function`.
use libmbus.Base.{ℕ, List, [], ◌∷◌, ◌++◌, if◌then◌else◌, ◌==◌, bit_and, bit_or, ◌>>>◌}
use libmbus.Data.Record.{DataRecord}
use libmbus.Data.Fixed.{DataFixed}
use libmbus.Units.Text.{text, snprintf, switch, small_hex_byte}

-- The switch of `mbus_data_fixed_medium`.
unfoldable pub fixed_medium_text : DataFixed → List ℕ
fixed_medium_text f =
    switch (bit_or (bit_and f.cnt1_type 0xC0 >>> 6) (bit_and f.cnt2_type 0xC0 >>> 4))
      (((0x00 ∷ [], text "Other")
        ∷ (0x01 ∷ [], text "Oil")
        ∷ (0x02 ∷ [], text "Electricity")
        ∷ (0x03 ∷ [], text "Gas")
        ∷ (0x04 ∷ [], text "Heat")
        ∷ (0x05 ∷ [], text "Steam")
        ∷ (0x06 ∷ [], text "Hot Water")
        ∷ (0x07 ∷ [], text "Water")
        ∷ (0x08 ∷ [], text "H.C.A.")
        ∷ (0x09 ∷ [], text "Reserved")
        ∷ (0x0A ∷ [], text "Gas Mode 2")
        ∷ (0x0B ∷ [], text "Heat Mode 2")
        ∷ (0x0C ∷ [], text "Hot Water Mode 2")
        ∷ (0x0D ∷ [], text "Water Mode 2")
        ∷ (0x0E ∷ [], text "H.C.A. Mode 2")
        ∷ (0x0F ∷ [], text "Reserved")
        ∷ []))
      (text "unknown")

-- `mbus_data_fixed_medium`
unfoldable pub fixed_medium : DataFixed → List ℕ
fixed_medium f = snprintf 20 (fixed_medium_text f)

-- The cases of `mbus_data_fixed_unit` below 0x20.
unfoldable pub fixed_unit_text : ℕ → List ℕ → List ℕ
fixed_unit_text unit otherwise =
    switch unit
      (((0x00 ∷ [], text "h,m,s")
        ∷ (0x01 ∷ [], text "D,M,Y")
        ∷ (0x02 ∷ [], text "Wh")
        ∷ (0x03 ∷ [], text "10 Wh")
        ∷ (0x04 ∷ [], text "100 Wh")
        ∷ (0x05 ∷ [], text "kWh")
        ∷ (0x06 ∷ [], text "10 kWh")
        ∷ (0x07 ∷ [], text "100 kWh")
        ∷ (0x08 ∷ [], text "MWh")
        ∷ (0x09 ∷ [], text "10 MWh")
        ∷ (0x0A ∷ [], text "100 MWh")
        ∷ (0x0B ∷ [], text "kJ")
        ∷ (0x0C ∷ [], text "10 kJ")
        ∷ (0x0E ∷ [], text "100 kJ")
        ∷ (0x0D ∷ [], text "MJ")
        ∷ (0x0F ∷ [], text "10 MJ")
        ∷ (0x10 ∷ [], text "100 MJ")
        ∷ (0x11 ∷ [], text "GJ")
        ∷ (0x12 ∷ [], text "10 GJ")
        ∷ (0x13 ∷ [], text "100 GJ")
        ∷ (0x14 ∷ [], text "W")
        ∷ (0x15 ∷ [], text "10 W")
        ∷ (0x16 ∷ [], text "100 W")
        ∷ (0x17 ∷ [], text "kW")
        ∷ (0x18 ∷ [], text "10 kW")
        ∷ (0x19 ∷ [], text "100 kW")
        ∷ (0x1A ∷ [], text "MW")
        ∷ (0x1B ∷ [], text "10 MW")
        ∷ (0x1C ∷ [], text "100 MW")
        ∷ (0x1D ∷ [], text "kJ/h")
        ∷ (0x1E ∷ [], text "10 kJ/h")
        ∷ (0x1F ∷ [], text "100 kJ/h")
        ∷ []))
      otherwise

-- The cases from 0x20 on.
unfoldable pub more_fixed_unit_text : ℕ → List ℕ
more_fixed_unit_text unit =
    switch unit
      (((0x20 ∷ [], text "MJ/h")
        ∷ (0x21 ∷ [], text "10 MJ/h")
        ∷ (0x22 ∷ [], text "100 MJ/h")
        ∷ (0x23 ∷ [], text "GJ/h")
        ∷ (0x24 ∷ [], text "10 GJ/h")
        ∷ (0x25 ∷ [], text "100 GJ/h")
        ∷ (0x26 ∷ [], text "ml")
        ∷ (0x27 ∷ [], text "10 ml")
        ∷ (0x28 ∷ [], text "100 ml")
        ∷ (0x29 ∷ [], text "l")
        ∷ (0x2A ∷ [], text "10 l")
        ∷ (0x2B ∷ [], text "100 l")
        ∷ (0x2C ∷ [], text "m^3")
        ∷ (0x2D ∷ [], text "10 m^3")
        ∷ (0x2E ∷ [], text "100 m^3")
        ∷ (0x2F ∷ [], text "ml/h")
        ∷ (0x30 ∷ [], text "10 ml/h")
        ∷ (0x31 ∷ [], text "100 ml/h")
        ∷ (0x32 ∷ [], text "l/h")
        ∷ (0x33 ∷ [], text "10 l/h")
        ∷ (0x34 ∷ [], text "100 l/h")
        ∷ (0x35 ∷ [], text "m^3/h")
        ∷ (0x36 ∷ [], text "10 m^3/h")
        ∷ (0x37 ∷ [], text "100 m^3/h")
        ∷ (0x38 ∷ [], text "1e-3 °C")
        ∷ (0x39 ∷ [], text "units for HCA")
        ∷ (0x3A ∷ 0x3B ∷ 0x3C ∷ 0x3D ∷ [], text "reserved")
        ∷ (0x3E ∷ [], text "reserved but historic")
        ∷ (0x3F ∷ [], text "without units")
        ∷ []))
      (text "unknown")

-- `mbus_data_fixed_unit`
unfoldable pub fixed_unit : ℕ → List ℕ
fixed_unit medium_unit_byte =
    let unit = bit_and medium_unit_byte 0x3F in
    snprintf 22 (fixed_unit_text unit (more_fixed_unit_text unit))

-- The switch of `mbus_data_variable_medium_lookup`.
unfoldable pub variable_medium_text : ℕ → List ℕ
variable_medium_text medium =
    switch medium
      (((0x00 ∷ [], text "Other")
        ∷ (0x01 ∷ [], text "Oil")
        ∷ (0x02 ∷ [], text "Electricity")
        ∷ (0x03 ∷ [], text "Gas")
        ∷ (0x04 ∷ [], text "Heat: Outlet")
        ∷ (0x05 ∷ [], text "Steam")
        ∷ (0x06 ∷ [], text "Warm water (30-90°C)")
        ∷ (0x07 ∷ [], text "Water")
        ∷ (0x08 ∷ [], text "Heat Cost Allocator")
        ∷ (0x09 ∷ [], text "Compressed Air")
        ∷ (0x0A ∷ [], text "Cooling load meter: Outlet")
        ∷ (0x0B ∷ [], text "Cooling load meter: Inlet")
        ∷ (0x0C ∷ [], text "Heat: Inlet")
        ∷ (0x0D ∷ [], text "Heat / Cooling load meter")
        ∷ (0x0E ∷ [], text "Bus/System")
        ∷ (0x0F ∷ [], text "Unknown Medium")
        ∷ (0x10 ∷ [], text "Irrigation Water")
        ∷ (0x11 ∷ [], text "Water Logger")
        ∷ (0x12 ∷ [], text "Gas Logger")
        ∷ (0x13 ∷ [], text "Gas Converter")
        ∷ (0x14 ∷ [], text "Calorific value")
        ∷ (0x15 ∷ [], text "Hot water (>90°C)")
        ∷ (0x16 ∷ [], text "Cold water")
        ∷ (0x17 ∷ [], text "Dual water")
        ∷ (0x18 ∷ [], text "Pressure")
        ∷ (0x19 ∷ [], text "A/D Converter")
        ∷ (0x1A ∷ [], text "Smoke Detector")
        ∷ (0x1B ∷ [], text "Ambient Sensor")
        ∷ (0x1C ∷ [], text "Gas Detector")
        ∷ (0x20 ∷ [], text "Breaker: Electricity")
        ∷ (0x21 ∷ [], text "Valve: Gas or Water")
        ∷ (0x25 ∷ [], text "Customer Unit: Display Device")
        ∷ (0x28 ∷ [], text "Waste Water")
        ∷ (0x29 ∷ [], text "Garbage")
        ∷ (0x30 ∷ [], text "Service Unit")
        ∷ (0x36 ∷ [], text "Radio Converter: System")
        ∷ (0x37 ∷ [], text "Radio Converter: Meter")
        ∷ (
          0x22 ∷ 0x23 ∷ 0x24 ∷ 0x26 ∷ 0x27 ∷ 0x2A ∷ 0x2B ∷ 0x2C ∷ 0x2D ∷ 0x2E ∷ 0x2F ∷ 0x31 ∷ 0x32
              ∷ 0x33 ∷ 0x34 ∷ 0x38 ∷ 0x39 ∷ 0x3A ∷ 0x3B ∷ 0x3C ∷ 0x3D ∷ 0x3E ∷ 0x3F ∷ [],
          text "Reserved",
        )
        ∷ []))
      (text "Unknown medium (0x" ++ small_hex_byte medium ++ text ")")

-- `mbus_data_variable_medium_lookup`
unfoldable pub variable_medium_lookup : ℕ → List ℕ
variable_medium_lookup medium = snprintf 32 (variable_medium_text medium)

-- `mbus_data_record_function`
unfoldable pub record_function : DataRecord → List ℕ
record_function r = snprintf 25 (
    switch (bit_and r.dif 0x30)
      ((0x00 ∷ [], text "Instantaneous value")
        ∷ (0x10 ∷ [], text "Maximum value")
        ∷ (0x20 ∷ [], text "Minimum value")
        ∷ (0x30 ∷ [], text "Value during error state")
        ∷ [])
      (text "unknown"))

-- `mbus_data_fixed_function`
unfoldable pub fixed_function : ℕ → List ℕ
fixed_function status =
    snprintf 13 (if bit_and status 0x40 == 0x40 then text "Stored value" else text "Actual value")

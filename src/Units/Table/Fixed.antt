-- ===== src/Units/Table/Fixed.antt =====
-- `fixed_table` of mbus/mbus-protocol-aux.c.
use libmbus.Base.{List, [], ◌∷◌}
use libmbus.Units.Table.Entry.{VariableVif, entry, tens, tenths, whole}

-- The times 0x00 and 0x01 are left out, and so is 0x30.
unfoldable pub fixed_table : List VariableVif
fixed_table =
    entry 0x02 (tens 0) "Wh" "Energy"
    ∷ entry 0x03 (tens 1) "Wh" "Energy"
    ∷ entry 0x04 (tens 2) "Wh" "Energy"
    ∷ entry 0x05 (tens 3) "Wh" "Energy"
    ∷ entry 0x06 (tens 4) "Wh" "Energy"
    ∷ entry 0x07 (tens 5) "Wh" "Energy"
    ∷ entry 0x08 (tens 6) "Wh" "Energy"
    ∷ entry 0x09 (tens 7) "Wh" "Energy"
    ∷ entry 0x0A (tens 8) "Wh" "Energy"
    ∷ entry 0x0B (tens 3) "J" "Energy"
    ∷ entry 0x0C (tens 4) "J" "Energy"
    ∷ entry 0x0D (tens 5) "J" "Energy"
    ∷ entry 0x0E (tens 6) "J" "Energy"
    ∷ entry 0x0F (tens 7) "J" "Energy"
    ∷ entry 0x10 (tens 8) "J" "Energy"
    ∷ entry 0x11 (tens 9) "J" "Energy"
    ∷ entry 0x12 (tens 10) "J" "Energy"
    ∷ entry 0x13 (tens 11) "J" "Energy"
    ∷ entry 0x14 (tens 0) "W" "Power"
    ∷ entry 0x15 (tens 0) "W" "Power"
    ∷ entry 0x16 (tens 0) "W" "Power"
    ∷ entry 0x17 (tens 0) "W" "Power"
    ∷ entry 0x18 (tens 0) "W" "Power"
    ∷ entry 0x19 (tens 0) "W" "Power"
    ∷ entry 0x1A (tens 0) "W" "Power"
    ∷ entry 0x1B (tens 0) "W" "Power"
    ∷ entry 0x1C (tens 0) "W" "Power"
    ∷ entry 0x1D (tens 3) "J/h" "Energy"
    ∷ entry 0x1E (tens 4) "J/h" "Energy"
    ∷ entry 0x1F (tens 5) "J/h" "Energy"
    ∷ entry 0x20 (tens 6) "J/h" "Energy"
    ∷ entry 0x21 (tens 7) "J/h" "Energy"
    ∷ entry 0x22 (tens 8) "J/h" "Energy"
    ∷ entry 0x23 (tens 9) "J/h" "Energy"
    ∷ entry 0x24 (tens 10) "J/h" "Energy"
    ∷ entry 0x25 (tens 11) "J/h" "Energy"
    ∷ entry 0x26 (tenths 6) "m^3" "Volume"
    ∷ entry 0x27 (tenths 5) "m^3" "Volume"
    ∷ entry 0x28 (tenths 4) "m^3" "Volume"
    ∷ entry 0x29 (tenths 3) "m^3" "Volume"
    ∷ entry 0x2A (tenths 2) "m^3" "Volume"
    ∷ entry 0x2B (tenths 1) "m^3" "Volume"
    ∷ entry 0x2C (tens 0) "m^3" "Volume"
    ∷ entry 0x2D (tens 1) "m^3" "Volume"
    ∷ entry 0x2E (tens 2) "m^3" "Volume"
    ∷ entry 0x2F (tenths 5) "m^3/h" "Volume flow"
    ∷ entry 0x31 (tenths 4) "m^3/h" "Volume flow"
    ∷ entry 0x32 (tenths 3) "m^3/h" "Volume flow"
    ∷ entry 0x33 (tenths 2) "m^3/h" "Volume flow"
    ∷ entry 0x34 (tenths 1) "m^3/h" "Volume flow"
    ∷ entry 0x35 (tens 0) "m^3/h" "Volume flow"
    ∷ entry 0x36 (tens 1) "m^3/h" "Volume flow"
    ∷ entry 0x37 (tens 2) "m^3/h" "Volume flow"
    ∷ entry 0x38 (tenths 3) "°C" "Temperature"
    ∷ entry 0x39 (tens 0) "Units for H.C.A." "H.C.A."
    ∷ entry 0x3A (whole 0) "Reserved" "Reserved"
    ∷ entry 0x3B (whole 0) "Reserved" "Reserved"
    ∷ entry 0x3C (whole 0) "Reserved" "Reserved"
    ∷ entry 0x3D (whole 0) "Reserved" "Reserved"
    ∷ entry 0x3E (tens 0) "" "historic"
    ∷ entry 0x3F (tens 0) "" "No units"
    ∷ entry 0xFFFF (whole 0) "" ""
    ∷ []

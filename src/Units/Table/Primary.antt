-- ===== src/Units/Table/Primary.antt =====
-- The entries of `vif_table` of mbus/mbus-protocol-aux.c for the primary VIFs.
use libmbus.Base.{List, [], ◌∷◌}
use libmbus.Units.Table.Entry.{VariableVif, entry, tens, tenths, whole}

-- Energy to volume flow.
unfoldable pub primary_vifs : List VariableVif
primary_vifs =
    entry 0x00 (tenths 3) "Wh" "Energy"
    ∷ entry 0x01 (tenths 2) "Wh" "Energy"
    ∷ entry 0x02 (tenths 1) "Wh" "Energy"
    ∷ entry 0x03 (tens 0) "Wh" "Energy"
    ∷ entry 0x04 (tens 1) "Wh" "Energy"
    ∷ entry 0x05 (tens 2) "Wh" "Energy"
    ∷ entry 0x06 (tens 3) "Wh" "Energy"
    ∷ entry 0x07 (tens 4) "Wh" "Energy"
    ∷ entry 0x08 (tens 0) "J" "Energy"
    ∷ entry 0x09 (tens 1) "J" "Energy"
    ∷ entry 0x0A (tens 2) "J" "Energy"
    ∷ entry 0x0B (tens 3) "J" "Energy"
    ∷ entry 0x0C (tens 4) "J" "Energy"
    ∷ entry 0x0D (tens 5) "J" "Energy"
    ∷ entry 0x0E (tens 6) "J" "Energy"
    ∷ entry 0x0F (tens 7) "J" "Energy"
    ∷ entry 0x10 (tenths 6) "m^3" "Volume"
    ∷ entry 0x11 (tenths 5) "m^3" "Volume"
    ∷ entry 0x12 (tenths 4) "m^3" "Volume"
    ∷ entry 0x13 (tenths 3) "m^3" "Volume"
    ∷ entry 0x14 (tenths 2) "m^3" "Volume"
    ∷ entry 0x15 (tenths 1) "m^3" "Volume"
    ∷ entry 0x16 (tens 0) "m^3" "Volume"
    ∷ entry 0x17 (tens 1) "m^3" "Volume"
    ∷ entry 0x18 (tenths 3) "kg" "Mass"
    ∷ entry 0x19 (tenths 2) "kg" "Mass"
    ∷ entry 0x1A (tenths 1) "kg" "Mass"
    ∷ entry 0x1B (tens 0) "kg" "Mass"
    ∷ entry 0x1C (tens 1) "kg" "Mass"
    ∷ entry 0x1D (tens 2) "kg" "Mass"
    ∷ entry 0x1E (tens 3) "kg" "Mass"
    ∷ entry 0x1F (tens 4) "kg" "Mass"
    ∷ entry 0x20 (tens 0) "s" "On time"
    ∷ entry 0x21 (whole 60) "s" "On time"
    ∷ entry 0x22 (whole 3600) "s" "On time"
    ∷ entry 0x23 (whole 86400) "s" "On time"
    ∷ entry 0x24 (tens 0) "s" "Operating time"
    ∷ entry 0x25 (whole 60) "s" "Operating time"
    ∷ entry 0x26 (whole 3600) "s" "Operating time"
    ∷ entry 0x27 (whole 86400) "s" "Operating time"
    ∷ entry 0x28 (tenths 3) "W" "Power"
    ∷ entry 0x29 (tenths 2) "W" "Power"
    ∷ entry 0x2A (tenths 1) "W" "Power"
    ∷ entry 0x2B (tens 0) "W" "Power"
    ∷ entry 0x2C (tens 1) "W" "Power"
    ∷ entry 0x2D (tens 2) "W" "Power"
    ∷ entry 0x2E (tens 3) "W" "Power"
    ∷ entry 0x2F (tens 4) "W" "Power"
    ∷ entry 0x30 (tens 0) "J/h" "Power"
    ∷ entry 0x31 (tens 1) "J/h" "Power"
    ∷ entry 0x32 (tens 2) "J/h" "Power"
    ∷ entry 0x33 (tens 3) "J/h" "Power"
    ∷ entry 0x34 (tens 4) "J/h" "Power"
    ∷ entry 0x35 (tens 5) "J/h" "Power"
    ∷ entry 0x36 (tens 6) "J/h" "Power"
    ∷ entry 0x37 (tens 7) "J/h" "Power"
    ∷ entry 0x38 (tenths 6) "m^3/h" "Volume flow"
    ∷ entry 0x39 (tenths 5) "m^3/h" "Volume flow"
    ∷ entry 0x3A (tenths 4) "m^3/h" "Volume flow"
    ∷ entry 0x3B (tenths 3) "m^3/h" "Volume flow"
    ∷ entry 0x3C (tenths 2) "m^3/h" "Volume flow"
    ∷ entry 0x3D (tenths 1) "m^3/h" "Volume flow"
    ∷ entry 0x3E (tens 0) "m^3/h" "Volume flow"
    ∷ entry 0x3F (tens 1) "m^3/h" "Volume flow"
    ∷ entry 0x40 (tenths 7) "m^3/min" "Volume flow"
    ∷ entry 0x41 (tenths 6) "m^3/min" "Volume flow"
    ∷ entry 0x42 (tenths 5) "m^3/min" "Volume flow"
    ∷ entry 0x43 (tenths 4) "m^3/min" "Volume flow"
    ∷ entry 0x44 (tenths 3) "m^3/min" "Volume flow"
    ∷ entry 0x45 (tenths 2) "m^3/min" "Volume flow"
    ∷ entry 0x46 (tenths 1) "m^3/min" "Volume flow"
    ∷ entry 0x47 (tens 0) "m^3/min" "Volume flow"
    ∷ []

-- Volume flow to what a manufacturer defines. The code has 0xFE and 0xFF too.
unfoldable pub more_primary_vifs : List VariableVif
more_primary_vifs =
    entry 0x48 (tenths 9) "m^3/s" "Volume flow"
    ∷ entry 0x49 (tenths 8) "m^3/s" "Volume flow"
    ∷ entry 0x4A (tenths 7) "m^3/s" "Volume flow"
    ∷ entry 0x4B (tenths 6) "m^3/s" "Volume flow"
    ∷ entry 0x4C (tenths 5) "m^3/s" "Volume flow"
    ∷ entry 0x4D (tenths 4) "m^3/s" "Volume flow"
    ∷ entry 0x4E (tenths 3) "m^3/s" "Volume flow"
    ∷ entry 0x4F (tenths 2) "m^3/s" "Volume flow"
    ∷ entry 0x50 (tenths 3) "kg/h" "Mass flow"
    ∷ entry 0x51 (tenths 2) "kg/h" "Mass flow"
    ∷ entry 0x52 (tenths 1) "kg/h" "Mass flow"
    ∷ entry 0x53 (tens 0) "kg/h" "Mass flow"
    ∷ entry 0x54 (tens 1) "kg/h" "Mass flow"
    ∷ entry 0x55 (tens 2) "kg/h" "Mass flow"
    ∷ entry 0x56 (tens 3) "kg/h" "Mass flow"
    ∷ entry 0x57 (tens 4) "kg/h" "Mass flow"
    ∷ entry 0x58 (tenths 3) "°C" "Flow temperature"
    ∷ entry 0x59 (tenths 2) "°C" "Flow temperature"
    ∷ entry 0x5A (tenths 1) "°C" "Flow temperature"
    ∷ entry 0x5B (tens 0) "°C" "Flow temperature"
    ∷ entry 0x5C (tenths 3) "°C" "Return temperature"
    ∷ entry 0x5D (tenths 2) "°C" "Return temperature"
    ∷ entry 0x5E (tenths 1) "°C" "Return temperature"
    ∷ entry 0x5F (tens 0) "°C" "Return temperature"
    ∷ entry 0x60 (tenths 3) "K" "Temperature difference"
    ∷ entry 0x61 (tenths 2) "K" "Temperature difference"
    ∷ entry 0x62 (tenths 1) "K" "Temperature difference"
    ∷ entry 0x63 (tens 0) "K" "Temperature difference"
    ∷ entry 0x64 (tenths 3) "°C" "External temperature"
    ∷ entry 0x65 (tenths 2) "°C" "External temperature"
    ∷ entry 0x66 (tenths 1) "°C" "External temperature"
    ∷ entry 0x67 (tens 0) "°C" "External temperature"
    ∷ entry 0x68 (tenths 3) "bar" "Pressure"
    ∷ entry 0x69 (tenths 2) "bar" "Pressure"
    ∷ entry 0x6A (tenths 1) "bar" "Pressure"
    ∷ entry 0x6B (tens 0) "bar" "Pressure"
    ∷ entry 0x6C (tens 0) "-" "Time point (date)"
    ∷ entry 0x6D (tens 0) "-" "Time point (date & time)"
    ∷ entry 0x6E (tens 0) "Units for H.C.A." "H.C.A."
    ∷ entry 0x6F (whole 0) "Reserved" "Reserved"
    ∷ entry 0x70 (tens 0) "s" "Averaging Duration"
    ∷ entry 0x71 (whole 60) "s" "Averaging Duration"
    ∷ entry 0x72 (whole 3600) "s" "Averaging Duration"
    ∷ entry 0x73 (whole 86400) "s" "Averaging Duration"
    ∷ entry 0x74 (tens 0) "s" "Actuality Duration"
    ∷ entry 0x75 (whole 60) "s" "Actuality Duration"
    ∷ entry 0x76 (whole 3600) "s" "Actuality Duration"
    ∷ entry 0x77 (whole 86400) "s" "Actuality Duration"
    ∷ entry 0x78 (tens 0) "" "Fabrication No"
    ∷ entry 0x79 (tens 0) "" "(Enhanced) Identification"
    ∷ entry 0x7A (tens 0) "" "Bus Address"
    ∷ entry 0x7E (tens 0) "" "Any VIF"
    ∷ entry 0x7F (tens 0) "" "Manufacturer specific"
    ∷ entry 0xFE (tens 0) "" "Any VIF"
    ∷ entry 0xFF (tens 0) "" "Manufacturer specific"
    ∷ []

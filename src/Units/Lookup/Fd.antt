-- ===== src/Units/Lookup/Fd.antt =====
-- `mbus_vib_unit_lookup_fd` of mbus/mbus-protocol.c, on the first VIFE. The chain of tests is a table
-- of the codes that pass each of them and none before.
use libmbus.Base.{ℕ, List, [], ◌∷◌, ◌++◌, bit_and}
use libmbus.Units.Text.{text, snprintf, switch, labels, small_hex_byte}
use libmbus.Units.Prefix.{scaled, unit_duration_nn, unit_duration_pp}

-- The tests up to 0x2B, for the VIFE without its extension bit.
unfoldable pub fd_text : ℕ → List ℕ → List ℕ
fd_text vife otherwise =
    let n = bit_and vife 0x03 in
    switch vife
      ((labels 0x00 4, scaled "Credit of " n 3 " of the nominal local legal currency units")
        ∷ (labels 0x04 4, scaled "Debit of " n 3 " of the nominal local legal currency units")
        ∷ (0x08 ∷ [], text "Access Number (transmission count)")
        ∷ (0x09 ∷ [], text "Medium (as in fixed header)")
        ∷ (0x0A ∷ [], text "Manufacturer (as in fixed header)")
        ∷ (0x0B ∷ [], text "Parameter set identification")
        ∷ (0x0C ∷ [], text "Model / Version")
        ∷ (0x0D ∷ [], text "Hardware version")
        ∷ (0x0E ∷ [], text "Firmware version")
        ∷ (0x0F ∷ [], text "Software version")
        ∷ (0x10 ∷ [], text "Customer location")
        ∷ (0x11 ∷ [], text "Customer")
        ∷ (0x12 ∷ [], text "Access Code User")
        ∷ (0x13 ∷ [], text "Access Code Operator")
        ∷ (0x14 ∷ [], text "Access Code System Operator")
        ∷ (0x15 ∷ [], text "Access Code Developer")
        ∷ (0x16 ∷ [], text "Password")
        ∷ (0x17 ∷ [], text "Error flags")
        ∷ (0x18 ∷ [], text "Error mask")
        ∷ (0x19 ∷ [], text "Reserved")
        ∷ (0x1A ∷ [], text "Digital output (binary)")
        ∷ (0x1B ∷ [], text "Digital input (binary)")
        ∷ (0x1C ∷ [], text "Baudrate")
        ∷ (0x1D ∷ [], text "response delay time")
        ∷ (0x1E ∷ [], text "Retry")
        ∷ (0x1F ∷ [], text "Reserved")
        ∷ (0x20 ∷ [], text "First storage # for cyclic storage")
        ∷ (0x21 ∷ [], text "Last storage # for cyclic storage")
        ∷ (0x22 ∷ [], text "Size of storage block")
        ∷ (0x23 ∷ [], text "Reserved")
        ∷ (labels 0x24 4, text "Storage interval " ++ unit_duration_nn n)
        ∷ (0x28 ∷ [], text "Storage interval month(s)")
        ∷ (0x29 ∷ [], text "Storage interval year(s)")
        ∷ (0x2A ∷ 0x2B ∷ [], text "Reserved")
        ∷ [])
      otherwise

-- The tests from 0x2C on. The last one is never reached.
unfoldable pub more_fd_text : ℕ → List ℕ
more_fd_text vife =
    let n = bit_and vife 0x03 in
    switch vife
      ((labels 0x2C 4, text "Duration since last readout " ++ unit_duration_nn n)
        ∷ (0x30 ∷ [], text "Start (date/time) of tariff")
        ∷ (labels 0x31 3, text "Duration of tariff " ++ unit_duration_nn n)
        ∷ (labels 0x34 4, text "Period of tariff " ++ unit_duration_nn n)
        ∷ (0x38 ∷ [], text "Period of tariff months(s)")
        ∷ (0x39 ∷ [], text "Period of tariff year(s)")
        ∷ (0x3A ∷ [], text "dimensionless / no VIF")
        ∷ (0x3B ∷ [], text "Reserved")
        ∷ (labels 0x3C 4, text "Reserved")
        ∷ (labels 0x40 16, scaled "" (bit_and vife 0x0F) 9 " V")
        ∷ (labels 0x50 16, scaled "" (bit_and vife 0x0F) 12 " A")
        ∷ (0x60 ∷ [], text "Reset counter")
        ∷ (0x61 ∷ [], text "Cumulation counter")
        ∷ (0x62 ∷ [], text "Control signal")
        ∷ (0x63 ∷ [], text "Day of week")
        ∷ (0x64 ∷ [], text "Week number")
        ∷ (0x65 ∷ [], text "Time point of day change")
        ∷ (0x66 ∷ [], text "State of parameter activation")
        ∷ (0x67 ∷ [], text "Special supplier information")
        ∷ (labels 0x68 4, text "Duration since last cumulation " ++ unit_duration_pp n)
        ∷ (labels 0x6C 4, text "Operating time battery " ++ unit_duration_pp n)
        ∷ (0x70 ∷ [], text "Date and time of battery change")
        ∷ (labels 0x71 15, text "Reserved VIF extension")
        ∷ [])
      (text "Unrecognized VIF 0xFD extension: 0x" ++ small_hex_byte vife)

-- `mbus_vib_unit_lookup_fd`
unfoldable pub vib_unit_lookup_fd : ℕ → List ℕ
vib_unit_lookup_fd byte =
    let vife = bit_and byte 0x7F in snprintf 128 (fd_text vife (more_fd_text vife))

-- ===== src/Units/Lookup/Fb.antt =====
-- `mbus_vib_unit_lookup_fb` of mbus/mbus-protocol.c, on the first VIFE.
use Prim.Native.String.{String}
use libmbus.Base.{ℕ, ◌+◌, List, [], ◌∷◌, ◌++◌, pos, if◌then◌else◌, ◌==◌, bit_and}
use libmbus.Units.Text.{text, snprintf, switch, labels, small_hex_byte}
use libmbus.Units.Prefix.{scaled, unit_prefix}

-- `"<head>%s<tail>"` with the prefix "0.1 " at an even VIFE.
abbrev tenth_or_one : String → ℕ → String → List ℕ
tenth_or_one head n tail = text head ++ (if n == 0 then text "0.1 " else []) ++ text tail

abbrev reserved : ℕ → List ℕ
reserved vife = text "Reserved (0x" ++ small_hex_byte vife ++ text ")"

-- The cases up to 0x27.
unfoldable pub fb_text : ℕ → List ℕ → List ℕ
fb_text vife otherwise =
    let n = bit_and 0x01 vife in
    switch (bit_and vife 0x7F)
      ((labels 0x0 2, tenth_or_one "Energy (" n "MWh)")
        ∷ (labels 0x2 2 ++ labels 0x4 4, reserved vife)
        ∷ (labels 0x8 2, tenth_or_one "Energy (" n "GJ)")
        ∷ (labels 0xA 2 ++ labels 0xC 4, reserved vife)
        ∷ (labels 0x10 2, text "Volume (" ++ unit_prefix (pos (n + 2)) ++ text "m3)")
        ∷ (labels 0x12 2 ++ labels 0x14 4, reserved vife)
        ∷ (labels 0x18 2, text "Mass (" ++ unit_prefix (pos (n + 2)) ++ text "t)")
        ∷ (labels 0x1A 7, reserved vife)
        ∷ (0x21 ∷ [], text "Volume (0.1 feet^3)")
        ∷ (0x22 ∷ 0x23 ∷ [], tenth_or_one "Volume (" n "american gallon)")
        ∷ (0x24 ∷ [], text "Volume flow (0.001 american gallon/min)")
        ∷ (0x25 ∷ [], text "Volume flow (american gallon/min)")
        ∷ (0x26 ∷ [], text "Volume flow (american gallon/h)")
        ∷ (0x27 ∷ [], reserved vife)
        ∷ [])
      otherwise

-- The cases from 0x28 on. There is none for 0x50 and 0x51.
unfoldable pub more_fb_text : ℕ → List ℕ
more_fb_text vife =
    let b = bit_and 0x01 vife in
    let n = bit_and 0x03 vife in
    switch (bit_and vife 0x7F)
      ((labels 0x28 2, tenth_or_one "Power (" b "MW)")
        ∷ (labels 0x2A 2 ++ labels 0x2C 4, reserved vife)
        ∷ (labels 0x30 2, tenth_or_one "Power (" b "GJ/h)")
        ∷ (labels 0x32 14 ++ labels 0x40 16 ++ labels 0x52 6, reserved vife)
        ∷ (labels 0x58 4, scaled "Flow Temperature (" n 3 " degree F)")
        ∷ (labels 0x5C 4, scaled "Return Temperature (" n 3 " degree F)")
        ∷ (labels 0x60 4, scaled "Temperature Difference (" n 3 " degree F)")
        ∷ (labels 0x64 4, scaled "External Temperature (" n 3 " degree F)")
        ∷ (labels 0x68 8, reserved vife)
        ∷ (labels 0x70 4, scaled "Cold / Warm Temperature Limit (" n 3 " degree F)")
        ∷ (labels 0x74 4, scaled "Cold / Warm Temperature Limit (" n 3 " degree C)")
        ∷ (labels 0x78 8, scaled "cumul. count max power (" (bit_and 0x07 vife) 3 " W)")
        ∷ [])
      (text "Unrecognized VIF 0xFB extension: 0x" ++ small_hex_byte vife)

-- `mbus_vib_unit_lookup_fb`
unfoldable pub vib_unit_lookup_fb : ℕ → List ℕ
vib_unit_lookup_fb vife = snprintf 256 (fb_text vife (more_fb_text vife))

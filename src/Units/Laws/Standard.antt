-- ===== src/Units/Laws/Standard.antt =====
-- The codes of EN 1434-3, 6.4.3 and of its extension tables that stand for a power of ten of a unit:
-- decades of codes, each code for ten times as much as the one before. The units, the quantities and
-- the powers are those of the standard; the words of the texts are those that the program prints. A code is a VIF of seven bits, with 0x100 added
-- for the first byte behind 0xFD and 0x200 for the one behind 0xFB.
use Prim.Native.String.{String}
use libmbus.Base.{
  ℕ, ◌+◌, ◌-◌, ◌%◌, Bool, ◌&&◌, ◌||◌, pos, List, [], ◌∷◌, ◌++◌, ℤ, sub_ℕ, Option, none, some,
  if◌then◌else◌, leb, ltb, ◌==◌, length, byte_at,
}
use libmbus.Data.Record.{DataRecord}
use libmbus.Units.Text.{text}
use libmbus.Units.Prefix.{unit_prefix}

-- `count` codes from `start` on: the code `start + n` stands for 10^(n + up - down) of the unit, and
-- `shown n` is how the program words it.
pub record Decade : Type 0 where
  pub start : ℕ
  pub count : ℕ
  pub up : ℕ
  pub down : ℕ
  pub unit : String
  pub quantity : String
  pub shown : ℕ → List ℕ

-- A decade of which the first code stands for 10^(-b), with the prefix of the power between two words.
abbrev decade : ℕ → ℕ → ℕ → String → String → String → String → Decade
decade s c b u q h t = record {
  start = s;
  count = c;
  up = 0;
  down = b;
  unit = u;
  quantity = q;
  shown = λ n. text h ++ unit_prefix (sub_ℕ n b) ++ text t;
}

-- One from 10^p on, which is shown as 10^k of a larger unit.
abbrev larger : ℕ → ℕ → ℕ → ℕ → String → String → String → String → Decade
larger s c p k u q h t = record {
  start = s;
  count = c;
  up = p;
  down = 0;
  unit = u;
  quantity = q;
  shown = λ n. text h ++ unit_prefix (pos (n + k)) ++ text t;
}

-- A tenth and one of a unit that is 10^p of the unit of the table.
abbrev tenth_and_one : ℕ → ℕ → ℕ → String → String → String → String → Decade
tenth_and_one s up down u q h t = record {
  start = s;
  count = 2;
  up = up;
  down = down;
  unit = u;
  quantity = q;
  shown = λ n. text h ++ (if n == 0 then text "0.1 " else []) ++ text t;
}

-- One code.
abbrev alone : ℕ → ℕ → String → String → String → Decade
alone s b u q t = record {
  start = s;
  count = 1;
  up = 0;
  down = b;
  unit = u;
  quantity = q;
  shown = λ n. text t;
}

unfoldable pub decades : List Decade
decades =
    decade 0x00 8 3 "Wh" "Energy" "Energy (" "Wh)"
    ∷ decade 0x08 8 0 "J" "Energy" "Energy (" "J)"
    ∷ decade 0x10 8 6 "m^3" "Volume" "Volume (" " m^3)"
    ∷ decade 0x18 8 3 "kg" "Mass" "Mass (" "kg)"
    ∷ decade 0x28 8 3 "W" "Power" "Power (" "W)"
    ∷ decade 0x30 8 0 "J/h" "Power" "Power (" "J/h)"
    ∷ decade 0x38 8 6 "m^3/h" "Volume flow" "Volume flow (" " m^3/h)"
    ∷ decade 0x40 8 7 "m^3/min" "Volume flow" "Volume flow (" " m^3/min)"
    ∷ decade 0x48 8 9 "m^3/s" "Volume flow" "Volume flow (" " m^3/s)"
    ∷ decade 0x50 8 3 "kg/h" "Mass flow" "Mass flow (" " kg/h)"
    ∷ decade 0x58 4 3 "°C" "Flow temperature" "Flow temperature (" "deg C)"
    ∷ decade 0x5C 4 3 "°C" "Return temperature" "Return temperature (" "deg C)"
    ∷ decade 0x60 4 3 "K" "Temperature difference" "Temperature Difference (" " deg C)"
    ∷ decade 0x64 4 3 "°C" "External temperature" "External temperature (" " deg C)"
    ∷ decade 0x68 4 3 "bar" "Pressure" "Pressure (" " bar)"
    ∷ decade 0x100 4 3 "Currency units" "Credit" "Credit of "
        " of the nominal local legal currency units"
    ∷ decade 0x104 4 3 "Currency units" "Debit" "Debit of "
        " of the nominal local legal currency units"
    ∷ decade 0x140 16 9 "V" "Voltage" "" " V"
    ∷ decade 0x150 16 12 "A" "Current" "" " A"
    ∷ tenth_and_one 0x200 5 0 "Wh" "Energy" "Energy (" "MWh)"
    ∷ tenth_and_one 0x208 8 0 "J" "Energy" "Energy (" "GJ)"
    ∷ larger 0x210 2 2 2 "m^3" "Volume" "Volume (" "m3)"
    ∷ larger 0x218 2 5 2 "kg" "Mass" "Mass (" "t)"
    ∷ alone 0x221 1 "feet^3" "Volume" "Volume (0.1 feet^3)"
    ∷ tenth_and_one 0x222 0 1 "American gallon" "Volume" "Volume (" "american gallon)"
    ∷ alone 0x224 3 "American gallon/min" "Volume flow" "Volume flow (0.001 american gallon/min)"
    ∷ alone 0x225 0 "American gallon/min" "Volume flow" "Volume flow (american gallon/min)"
    ∷ alone 0x226 0 "American gallon/h" "Volume flow" "Volume flow (american gallon/h)"
    ∷ tenth_and_one 0x228 5 0 "W" "Power" "Power (" "MW)"
    ∷ tenth_and_one 0x230 8 0 "J/h" "Power" "Power (" "GJ/h)"
    ∷ decade 0x258 4 3 "°F" "Flow temperature" "Flow Temperature (" " degree F)"
    ∷ decade 0x25C 4 3 "°F" "Return temperature" "Return Temperature (" " degree F)"
    ∷ decade 0x260 4 3 "°F" "Temperature difference" "Temperature Difference (" " degree F)"
    ∷ decade 0x264 4 3 "°F" "External temperature" "External Temperature (" " degree F)"
    ∷ decade 0x270 4 3 "°F" "Cold / Warm Temperature Limit" "Cold / Warm Temperature Limit ("
        " degree F)"
    ∷ decade 0x274 4 3 "°C" "Cold / Warm Temperature Limit" "Cold / Warm Temperature Limit ("
        " degree C)"
    ∷ decade 0x278 8 3 "W" "Cumul count max power" "cumul. count max power (" " W)"
    ∷ []

-- What a code stands for: 10^power of the unit; `shown` is how that is printed.
pub record Meaning : Type 0 where
  pub power : ℤ
  pub unit : String
  pub quantity : String
  pub shown : List ℕ

abbrev pub in_decade : Decade → ℕ → Meaning
in_decade b n = record {
  power = sub_ℕ (n + b.up) b.down;
  unit = b.unit;
  quantity = b.quantity;
  shown = b.shown n;
}

unfoldable pub meaning_in : List Decade → ℕ → Option Meaning
meaning_in [] code = none
meaning_in (b ∷ bs) code =
    let rest = meaning_in bs code in
    if leb b.start code && ltb code (b.start + b.count)
    then some (in_decade b (code - b.start))
    else rest

unfoldable pub meaning : ℕ → Option Meaning
meaning = meaning_in decades

-- The codes at which `vif_table` has another unit, or in the last case another power, than the
-- standard.
unfoldable pub is_misread : ℕ → Bool
is_misread code = code == 0x208 || code == 0x209 || code == 0x230 || code == 0x231 || code == 0x279

unfoldable pub right_meaning : ℕ → Option Meaning
right_meaning code = if is_misread code then none else meaning code

-- The code of the VIB of a record, whose VIF has no extension but 0xFD and 0xFB.
unfoldable pub code_of : DataRecord → Option ℕ
code_of r =
    let vife = byte_at r.vife 0 % 128 in
    if ltb r.vif 0x80
    then some r.vif
    else (if ltb 0 (length r.vife)
        then (if r.vif == 0xFD
            then some (0x100 + vife)
            else (if r.vif == 0xFB then some (0x200 + vife) else none))
        else none)

-- ===== src/Units/Table/Fb.antt =====
-- The entries of `vif_table` of mbus/mbus-protocol-aux.c for the extension behind the VIF 0xFB,
-- with 0x200 added.
use libmbus.Base.{List, [], ◌∷◌}
use libmbus.Units.Table.Entry.{VariableVif, entry, tens, tenths}

-- Energy to power.
unfoldable pub fb_vifs : List VariableVif
fb_vifs =
    entry 0x200 (tens 5) "Wh" "Energy"
    ∷ entry 0x201 (tens 6) "Wh" "Energy"
    ∷ entry 0x202 (tens 0) "Reserved" "Reserved"
    ∷ entry 0x203 (tens 0) "Reserved" "Reserved"
    ∷ entry 0x204 (tens 0) "Reserved" "Reserved"
    ∷ entry 0x205 (tens 0) "Reserved" "Reserved"
    ∷ entry 0x206 (tens 0) "Reserved" "Reserved"
    ∷ entry 0x207 (tens 0) "Reserved" "Reserved"
    ∷ entry 0x208 (tens 8) "Reserved" "Energy"
    ∷ entry 0x209 (tens 9) "Reserved" "Energy"
    ∷ entry 0x20A (tens 0) "Reserved" "Reserved"
    ∷ entry 0x20B (tens 0) "Reserved" "Reserved"
    ∷ entry 0x20C (tens 0) "Reserved" "Reserved"
    ∷ entry 0x20D (tens 0) "Reserved" "Reserved"
    ∷ entry 0x20E (tens 0) "Reserved" "Reserved"
    ∷ entry 0x20F (tens 0) "Reserved" "Reserved"
    ∷ entry 0x210 (tens 2) "m^3" "Volume"
    ∷ entry 0x211 (tens 3) "m^3" "Volume"
    ∷ entry 0x212 (tens 0) "Reserved" "Reserved"
    ∷ entry 0x213 (tens 0) "Reserved" "Reserved"
    ∷ entry 0x214 (tens 0) "Reserved" "Reserved"
    ∷ entry 0x215 (tens 0) "Reserved" "Reserved"
    ∷ entry 0x216 (tens 0) "Reserved" "Reserved"
    ∷ entry 0x217 (tens 0) "Reserved" "Reserved"
    ∷ entry 0x218 (tens 5) "kg" "Mass"
    ∷ entry 0x219 (tens 6) "kg" "Mass"
    ∷ entry 0x21A (tens 0) "Reserved" "Reserved"
    ∷ entry 0x21B (tens 0) "Reserved" "Reserved"
    ∷ entry 0x21C (tens 0) "Reserved" "Reserved"
    ∷ entry 0x21D (tens 0) "Reserved" "Reserved"
    ∷ entry 0x21E (tens 0) "Reserved" "Reserved"
    ∷ entry 0x21F (tens 0) "Reserved" "Reserved"
    ∷ entry 0x220 (tens 0) "Reserved" "Reserved"
    ∷ entry 0x221 (tenths 1) "feet^3" "Volume"
    ∷ entry 0x222 (tenths 1) "American gallon" "Volume"
    ∷ entry 0x223 (tens 0) "American gallon" "Volume"
    ∷ entry 0x224 (tenths 3) "American gallon/min" "Volume flow"
    ∷ entry 0x225 (tens 0) "American gallon/min" "Volume flow"
    ∷ entry 0x226 (tens 0) "American gallon/h" "Volume flow"
    ∷ entry 0x227 (tens 0) "Reserved" "Reserved"
    ∷ entry 0x228 (tens 5) "W" "Power"
    ∷ entry 0x229 (tens 6) "W" "Power"
    ∷ entry 0x22A (tens 0) "Reserved" "Reserved"
    ∷ entry 0x22B (tens 0) "Reserved" "Reserved"
    ∷ entry 0x22C (tens 0) "Reserved" "Reserved"
    ∷ entry 0x22D (tens 0) "Reserved" "Reserved"
    ∷ entry 0x22E (tens 0) "Reserved" "Reserved"
    ∷ entry 0x22F (tens 0) "Reserved" "Reserved"
    ∷ entry 0x230 (tens 8) "J" "Power"
    ∷ entry 0x231 (tens 9) "J" "Power"
    ∷ []

-- Reserved.
unfoldable pub reserved_fb_vifs : List VariableVif
reserved_fb_vifs =
    entry 0x232 (tens 0) "Reserved" "Reserved"
    ∷ entry 0x233 (tens 0) "Reserved" "Reserved"
    ∷ entry 0x234 (tens 0) "Reserved" "Reserved"
    ∷ entry 0x235 (tens 0) "Reserved" "Reserved"
    ∷ entry 0x236 (tens 0) "Reserved" "Reserved"
    ∷ entry 0x237 (tens 0) "Reserved" "Reserved"
    ∷ entry 0x238 (tens 0) "Reserved" "Reserved"
    ∷ entry 0x239 (tens 0) "Reserved" "Reserved"
    ∷ entry 0x23A (tens 0) "Reserved" "Reserved"
    ∷ entry 0x23B (tens 0) "Reserved" "Reserved"
    ∷ entry 0x23C (tens 0) "Reserved" "Reserved"
    ∷ entry 0x23D (tens 0) "Reserved" "Reserved"
    ∷ entry 0x23E (tens 0) "Reserved" "Reserved"
    ∷ entry 0x23F (tens 0) "Reserved" "Reserved"
    ∷ entry 0x240 (tens 0) "Reserved" "Reserved"
    ∷ entry 0x241 (tens 0) "Reserved" "Reserved"
    ∷ entry 0x242 (tens 0) "Reserved" "Reserved"
    ∷ entry 0x243 (tens 0) "Reserved" "Reserved"
    ∷ entry 0x244 (tens 0) "Reserved" "Reserved"
    ∷ entry 0x245 (tens 0) "Reserved" "Reserved"
    ∷ entry 0x246 (tens 0) "Reserved" "Reserved"
    ∷ entry 0x247 (tens 0) "Reserved" "Reserved"
    ∷ entry 0x248 (tens 0) "Reserved" "Reserved"
    ∷ entry 0x249 (tens 0) "Reserved" "Reserved"
    ∷ entry 0x24A (tens 0) "Reserved" "Reserved"
    ∷ entry 0x24B (tens 0) "Reserved" "Reserved"
    ∷ entry 0x24C (tens 0) "Reserved" "Reserved"
    ∷ entry 0x24D (tens 0) "Reserved" "Reserved"
    ∷ entry 0x24E (tens 0) "Reserved" "Reserved"
    ∷ entry 0x24F (tens 0) "Reserved" "Reserved"
    ∷ entry 0x250 (tens 0) "Reserved" "Reserved"
    ∷ entry 0x251 (tens 0) "Reserved" "Reserved"
    ∷ entry 0x252 (tens 0) "Reserved" "Reserved"
    ∷ entry 0x253 (tens 0) "Reserved" "Reserved"
    ∷ entry 0x254 (tens 0) "Reserved" "Reserved"
    ∷ entry 0x255 (tens 0) "Reserved" "Reserved"
    ∷ entry 0x256 (tens 0) "Reserved" "Reserved"
    ∷ entry 0x257 (tens 0) "Reserved" "Reserved"
    ∷ []

-- Temperatures and powers.
unfoldable pub more_fb_vifs : List VariableVif
more_fb_vifs =
    entry 0x258 (tenths 3) "°F" "Flow temperature"
    ∷ entry 0x259 (tenths 2) "°F" "Flow temperature"
    ∷ entry 0x25A (tenths 1) "°F" "Flow temperature"
    ∷ entry 0x25B (tens 0) "°F" "Flow temperature"
    ∷ entry 0x25C (tenths 3) "°F" "Return temperature"
    ∷ entry 0x25D (tenths 2) "°F" "Return temperature"
    ∷ entry 0x25E (tenths 1) "°F" "Return temperature"
    ∷ entry 0x25F (tens 0) "°F" "Return temperature"
    ∷ entry 0x260 (tenths 3) "°F" "Temperature difference"
    ∷ entry 0x261 (tenths 2) "°F" "Temperature difference"
    ∷ entry 0x262 (tenths 1) "°F" "Temperature difference"
    ∷ entry 0x263 (tens 0) "°F" "Temperature difference"
    ∷ entry 0x264 (tenths 3) "°F" "External temperature"
    ∷ entry 0x265 (tenths 2) "°F" "External temperature"
    ∷ entry 0x266 (tenths 1) "°F" "External temperature"
    ∷ entry 0x267 (tens 0) "°F" "External temperature"
    ∷ entry 0x268 (tens 0) "Reserved" "Reserved"
    ∷ entry 0x269 (tens 0) "Reserved" "Reserved"
    ∷ entry 0x26A (tens 0) "Reserved" "Reserved"
    ∷ entry 0x26B (tens 0) "Reserved" "Reserved"
    ∷ entry 0x26C (tens 0) "Reserved" "Reserved"
    ∷ entry 0x26D (tens 0) "Reserved" "Reserved"
    ∷ entry 0x26E (tens 0) "Reserved" "Reserved"
    ∷ entry 0x26F (tens 0) "Reserved" "Reserved"
    ∷ entry 0x270 (tenths 3) "°F" "Cold / Warm Temperature Limit"
    ∷ entry 0x271 (tenths 2) "°F" "Cold / Warm Temperature Limit"
    ∷ entry 0x272 (tenths 1) "°F" "Cold / Warm Temperature Limit"
    ∷ entry 0x273 (tens 0) "°F" "Cold / Warm Temperature Limit"
    ∷ entry 0x274 (tenths 3) "°C" "Cold / Warm Temperature Limit"
    ∷ entry 0x275 (tenths 2) "°C" "Cold / Warm Temperature Limit"
    ∷ entry 0x276 (tenths 1) "°C" "Cold / Warm Temperature Limit"
    ∷ entry 0x277 (tens 0) "°C" "Cold / Warm Temperature Limit"
    ∷ entry 0x278 (tenths 3) "W" "Cumul count max power"
    ∷ entry 0x279 (tenths 3) "W" "Cumul count max power"
    ∷ entry 0x27A (tenths 1) "W" "Cumul count max power"
    ∷ entry 0x27B (tens 0) "W" "Cumul count max power"
    ∷ entry 0x27C (tens 1) "W" "Cumul count max power"
    ∷ entry 0x27D (tens 2) "W" "Cumul count max power"
    ∷ entry 0x27E (tens 3) "W" "Cumul count max power"
    ∷ entry 0x27F (tens 4) "W" "Cumul count max power"
    ∷ []

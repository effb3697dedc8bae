-- ===== src/Address.antt =====
-- Addresses of slaves: `mbus_frame_get_secondary_address`, `mbus_frame_select_secondary_pack`,
-- `mbus_is_primary_address` and `mbus_is_secondary_address` of mbus/mbus-protocol.c.
pub mod Laws
use libmbus.Base.{
  ℕ, ◌+◌, ◌-◌, ◌*◌, ◌/◌, ◌%◌, ◌==◌, Bool, true, false, not, ◌&&◌, ◌||◌, List, [], ◌∷◌, ◌++◌, ℤ, pos,
  negsuc, minus_one, if◌then◌else◌, leb, length, take, drop, byte_at, overlay, bit_and, bit_or, u8,
  ◌<<<◌, ◌>>>◌, Option, none, some,
}
use libmbus.Frame.{Frame}
use libmbus.Frame.Control
use libmbus.Codec.Text.{digit_value, hex_byte}
use libmbus.Codec.Bcd.{bcd_decode_hex}
use libmbus.Data.Outcome.{Outcome, done, refused, ◌>>=◌}
use libmbus.Data.Variable.{VariableHeader}
use libmbus.Data.Fixed.{FrameData, error, fixed, variable, frame_data_parse, resp_variable}

-- `mbus_is_primary_address`
unfoldable pub is_primary_address : ℤ → Bool
is_primary_address (pos n) = leb n 0xFF
is_primary_address (negsuc n) = false

-- `isxdigit`
unfoldable pub isxdigit : ℕ → Bool
isxdigit c = elim (digit_value c) [ none ↦ false | some v ↦ true ]

unfoldable pub all_xdigits : List ℕ → Bool
all_xdigits [] = true
all_xdigits (c ∷ s) = isxdigit c && all_xdigits s

-- `mbus_is_secondary_address`
unfoldable pub is_secondary_address : List ℕ → Bool
is_secondary_address s = length s == 16 && all_xdigits s

-- `strtol(tmp, NULL, 16)` on hexadecimal digits, `v` being the value of those before.
unfoldable pub hex_value : ℕ → List ℕ → ℕ
hex_value v [] = v
hex_value v (c ∷ s) = elim (digit_value c) [ none ↦ v | some d ↦ hex_value (v * 16 + d) s ]

-- The half byte for one character of the identification, where `F` is a wildcard.
unfoldable pub id_nibble : ℕ → ℕ
id_nibble c = if c == b'F' || c == b'f' then 0x0F else bit_and (c - b'0') 0x0F

-- The byte for two characters from `i` on.
unfoldable pub id_byte : List ℕ → ℕ → ℕ
id_byte s i = bit_or (id_nibble (byte_at s i) <<< 4) (id_nibble (byte_at s (i + 1)))

-- The eight bytes that are stored in the frame's data.
unfoldable pub address_bytes : List ℕ → List ℕ
address_bytes s =
    let val = hex_value 0 (take 4 (drop 8 s)) in
    id_byte s 6
    ∷ id_byte s 4
    ∷ id_byte s 2
    ∷ id_byte s 0
    ∷ u8 (val >>> 8)
    ∷ u8 val
    ∷ u8 (hex_value 0 (take 2 (drop 12 s)))
    ∷ u8 (hex_value 0 (take 2 (drop 14 s)))
    ∷ []

abbrev pub network_layer : ℕ
network_layer = 0xFD

abbrev pub select_slave : ℕ
select_slave = 0x52

-- `mbus_frame_select_secondary_pack`
unfoldable pub select_secondary_pack : Frame → List ℕ → ℤ × Frame
select_secondary_pack f s = if not (is_secondary_address s) then (minus_one, f) else (
  pos 0,
  record f {
    control = bit_or (bit_or Control.snd_ud Control.dir) Control.fcb;
    address = network_layer;
    control_information = select_slave;
    data_size = 8;
    content = overlay (address_bytes s) f.content;
  },
)

-- `%08lX`, of a number of four bytes.
unfoldable pub hex_long : ℕ → List ℕ
hex_long id =
    hex_byte (id / 16777216 % 256)
    ++ hex_byte (id / 65536 % 256)
    ++ hex_byte (id / 256 % 256)
    ++ hex_byte (id % 256)

-- The text that is printed for a header.
unfoldable pub header_address : VariableHeader → List ℕ
header_address h =
    hex_long (bcd_decode_hex h.id_bcd)
    ++ hex_byte (byte_at h.manufacturer 0)
    ++ hex_byte (byte_at h.manufacturer 1)
    ++ hex_byte h.version
    ++ hex_byte h.medium

-- `mbus_frame_get_secondary_address`; `refused` is NULL.
unfoldable pub get_secondary_address : Frame → Outcome (List ℕ)
get_secondary_address f =
    if not (f.control_information == resp_variable)
    then refused
    else (frame_data_parse f >>= λ d. elim d [
      | variable v ↦ done (header_address v.header)
      | error e ↦ refused
      | fixed d ↦ refused
    ])

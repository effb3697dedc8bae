-- ===== src/Address/Laws.antt =====
-- The address that a slave shows selects it.
use libmbus.Base.{
  ℕ, ◌+◌, ◌*◌, ◌/◌, ◌%◌, ◌^◌, ◌<◌, ◌≡◌, refl, ap, ◌∙◌, true, List, [], ◌∷◌, ◌++◌, pos, length,
  take-overlay, arith, AreBytes, All, bit_or, ◌<<<◌, u8,
}
use libmbus.Base.Bits.{and_0f, or_nibbles}
use libmbus.Codec.Text.{hex_byte, hex_digit}
use libmbus.Codec.Text.Laws.{digit_value-hex_digit}
use libmbus.Codec.Bytes.{little_endian}
use libmbus.Codec.Bcd.{bcd_decode_hex}
use libmbus.Codec.Bcd.Laws.{bcd_decode_hex-little_endian}
use libmbus.Frame.{Frame, payload, frame_data_length}
use libmbus.Data.Variable.{VariableHeader}
use libmbus.Address.{
  select_secondary_pack, isxdigit, all_xdigits, is_secondary_address, hex_value, id_nibble, id_byte,
  address_bytes, hex_long, header_address,
}

-- The characters of eight bytes.
abbrev pub hex_eight : ℕ → ℕ → ℕ → ℕ → ℕ → ℕ → ℕ → ℕ → List ℕ
hex_eight a b c d m n v w =
    hex_byte d
    ++ hex_byte c
    ++ hex_byte b
    ++ hex_byte a
    ++ hex_byte m
    ++ hex_byte n
    ++ hex_byte v
    ++ hex_byte w

isxdigit-hex_digit : (x : ℕ) → x < 16 → isxdigit (hex_digit x) ≡ true
unfolding isxdigit
isxdigit-hex_digit x h = rw (digit_value-hex_digit x h, isxdigit) refl

id_nibble-hex_digit : (x : ℕ) → x < 10 → id_nibble (hex_digit x) ≡ x
unfolding id_nibble
id_nibble-hex_digit x h = ground (arith, and_0f x (omega arith))

-- Two digits in decimal.
abbrev pub IsDecimal : ℕ → Type 0
IsDecimal b = (b / 16 < 10) × (b % 16 < 10)

id_two :
    (b : ℕ)
    → IsDecimal b
    → bit_or (id_nibble (hex_digit (b / 16)) <<< 4) (id_nibble (hex_digit (b % 16))) ≡ b
id_two b h =
    rw (id_nibble-hex_digit (b / 16) h.0, id_nibble-hex_digit (b % 16) h.1)
      (omega (arith, or_nibbles (b / 16) (b % 16) (omega arith) (omega arith)))

hex_value-byte :
    (v b : ℕ) (s : List ℕ) → b < 256 → hex_value v (hex_byte b ++ s) ≡ hex_value (v * 256 + b) s
unfolding hex_value
hex_value-byte v b s h =
    rw
      (
        digit_value-hex_digit (b / 16) (omega arith),
        digit_value-hex_digit (b % 16) (omega arith),
        hex_value,
      )
      (ap (λ t. hex_value t s) (omega arith))

address_bytes-hex_eight :
    (a b c d m n v w : ℕ)
    → IsDecimal a
    → IsDecimal b
    → IsDecimal c
    → IsDecimal d
    → m < 256
    → n < 256
    → v < 256
    → w < 256
    → address_bytes (hex_eight a b c d m n v w) ≡ a ∷ b ∷ c ∷ d ∷ m ∷ n ∷ v ∷ w ∷ []
unfolding address_bytes id_byte hex_value
address_bytes-hex_eight a b c d m n v w ha hb hc hd hm hn hv hw =
    let four : hex_value 0 (hex_byte m ++ hex_byte n) ≡ (0 * 256 + m) * 256 + n =
      hex_value-byte 0 m (hex_byte n) hm ∙ hex_value-byte (0 * 256 + m) n [] hn in
    let high : u8 (((0 * 256 + m) * 256 + n) / 2 ^ 8) ≡ m = omega arith in
    let low : u8 ((0 * 256 + m) * 256 + n) ≡ n = omega arith in
    let version : hex_value 0 (hex_byte v) ≡ 0 * 256 + v = hex_value-byte 0 v [] hv in
    let medium : hex_value 0 (hex_byte w) ≡ 0 * 256 + w = hex_value-byte 0 w [] hw in
    let v8 : u8 (0 * 256 + v) ≡ v = omega arith in
    let w8 : u8 (0 * 256 + w) ≡ w = omega arith in
    rw
      (
        address_bytes,
        id_two a ha,
        id_two b hb,
        id_two c hc,
        id_two d hd,
        four,
        high,
        low,
        version,
        medium,
        v8,
        w8,
      )
      refl

all_xdigits-hex_byte :
    (b : ℕ) (s : List ℕ)
    → b < 256
    → all_xdigits (hex_digit (b / 16) ∷ hex_digit (b % 16) ∷ s) ≡ all_xdigits s
unfolding all_xdigits
all_xdigits-hex_byte b s h =
    rw (isxdigit-hex_digit (b / 16) (omega arith), isxdigit-hex_digit (b % 16) (omega arith)) refl

is_secondary_address-hex_eight :
    (a b c d m n v w : ℕ)
    → a < 256
    → b < 256
    → c < 256
    → d < 256
    → m < 256
    → n < 256
    → v < 256
    → w < 256
    → is_secondary_address (hex_eight a b c d m n v w) ≡ true
unfolding is_secondary_address
is_secondary_address-hex_eight a b c d m n v w ha hb hc hd hm hn hv hw =
    all_xdigits-hex_byte d _ hd
    ∙ all_xdigits-hex_byte c _ hc
    ∙ all_xdigits-hex_byte b _ hb
    ∙ all_xdigits-hex_byte a _ ha
    ∙ all_xdigits-hex_byte m _ hm
    ∙ all_xdigits-hex_byte n _ hn
    ∙ all_xdigits-hex_byte v _ hv
    ∙ all_xdigits-hex_byte w [] hw
    ∙ (unfold all_xdigits in refl)

header_address-hex_eight :
    (h : VariableHeader) (a b c d m n : ℕ)
    → h.id_bcd ≡ a ∷ b ∷ c ∷ d ∷ []
    → h.manufacturer ≡ m ∷ n ∷ []
    → a < 256
    → b < 256
    → c < 256
    → d < 256
    → header_address h ≡ hex_eight a b c d m n h.version h.medium
unfolding header_address hex_long little_endian
header_address-hex_eight h a b c d m n id man ha hb hc hd =
    let value : bcd_decode_hex (a ∷ b ∷ c ∷ d ∷ []) ≡ little_endian (a ∷ b ∷ c ∷ d ∷ []) =
      bcd_decode_hex-little_endian (a ∷ b ∷ c ∷ d ∷ []) (ha, (hb, (hc, (hd, tt)))) (omega arith) in
    let x = bcd_decode_hex (a ∷ b ∷ c ∷ d ∷ []) in
    let e3 : x / 16777216 % 256 ≡ d = omega arith in
    let e2 : x / 65536 % 256 ≡ c = omega arith in
    let e1 : x / 256 % 256 ≡ b = omega arith in
    let e0 : x % 256 ≡ a = omega arith in simp (id, man, e3, e2, e1, e0) refl

-- A slave whose identification has decimal digits alone is selected by the address that it shows:
-- `mbus_frame_select_secondary_pack` accepts the text that `mbus_frame_get_secondary_address`
-- prints for its header, and stores as data of the frame exactly the identification, manufacturer,
-- version and medium of the header.
pub select_secondary_pack-header_address :
    (f : Frame) (h : VariableHeader) (a b c d m n : ℕ)
    → length f.content ≡ frame_data_length
    → h.id_bcd ≡ a ∷ b ∷ c ∷ d ∷ []
    → h.manufacturer ≡ m ∷ n ∷ []
    → All IsDecimal (a ∷ b ∷ c ∷ d ∷ [])
    → AreBytes (m ∷ n ∷ h.version ∷ h.medium ∷ [])
    → ((select_secondary_pack f (header_address h)).0 ≡ pos 0)
      × (payload (select_secondary_pack f (header_address h)).1
          ≡ h.id_bcd ++ (h.manufacturer ++ (h.version ∷ h.medium ∷ [])))
unfolding select_secondary_pack
select_secondary_pack-header_address f h a b c d m n whole id man (ka, (kb, (kc, (kd, _))))
      (hm, (hn, (hv, (hw, _)))) =
    let ha : a < 256 = omega (arith, ka) in
    let hb : b < 256 = omega (arith, kb) in
    let hc : c < 256 = omega (arith, kc) in
    let hd : d < 256 = omega (arith, kd) in
    let text = header_address-hex_eight h a b c d m n id man ha hb hc hd in
    let valid =
      is_secondary_address-hex_eight a b c d m n h.version h.medium ha hb hc hd hm hn hv hw in
    let stored = address_bytes-hex_eight a b c d m n h.version h.medium ka kb kc kd hm hn hv hw in
    simp (text, valid, stored, id, man)
      (
        refl,
        take-overlay (a ∷ b ∷ c ∷ d ∷ m ∷ n ∷ h.version ∷ h.medium ∷ []) f.content 8 refl
            (omega (arith, whole)),
      )

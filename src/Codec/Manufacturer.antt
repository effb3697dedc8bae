-- ===== src/Codec/Manufacturer.antt =====
-- `mbus_manufacturer_id`, `mbus_data_manufacturer_encode` and `mbus_decode_manufacturer` of
-- mbus/mbus-protocol.c. A string is the list of its characters, without the NUL behind them.
pub mod Laws
use libmbus.Base.{
  ℕ, ◌+◌, ◌-◌, ◌*◌, ◌/◌, ◌%◌, ◌^◌, ◌<◌, ◌≤◌, ◌≡◌, ◌⊎◌, refl, ap, ◌∙◌, Bool, not, ◌&&◌, ◌||◌, List,
  [], ◌∷◌, ℤ, pos, negsuc, arith, length, map, if◌then◌else◌, ltb, leb, byte_at, bit_and, ◌<<<◌,
  ◌>>>◌, Option, none, some, AreBytes, IsByte,
}
use libmbus.Base.Bits.{and_1f, and_1f_letter}
use libmbus.Codec.Bytes.{little_endian, to_bytes}
use libmbus.Codec.Integer.{int_decode, int_encode}
use libmbus.Codec.Integer.Laws.{int_encode_pos, int_decode-encode}

-- `isalpha` and `toupper` in the C locale.
unfoldable pub isalpha : ℕ → Bool
isalpha c = (leb b'A' c && leb c b'Z') || (leb b'a' c && leb c b'z')

unfoldable pub toupper : ℕ → ℕ
toupper c = if leb b'a' c && leb c b'z' then c - 32 else c

-- `mbus_manufacturer_id`
unfoldable pub manufacturer_id : List ℕ → ℕ
manufacturer_id s =
    let c0 = byte_at s 0 in
    let c1 = byte_at s 1 in
    let c2 = byte_at s 2 in
    let id = (toupper c0 - 64) * 32 * 32 + (toupper c1 - 64) * 32 + (toupper c2 - 64) in
    if ltb (length s) 3
    then 0
    else (if not (isalpha c0) || not (isalpha c1) || not (isalpha c2)
        then 0
        else (if leb 0x0421 id && leb id 0x6b5a then id else 0))

-- `((int)c - 64) & 0x001F`
abbrev pub low5 : ℕ → ℕ
low5 c = bit_and (c + 2 ^ 32 - 64) 0x1F

-- `mbus_data_manufacturer_encode`
unfoldable pub manufacturer_encode : List ℕ → Option (List ℕ)
manufacturer_encode m_code = int_encode 2 (
    pos (
      (low5 (byte_at m_code 0) <<< 10) + (low5 (byte_at m_code 1) <<< 5) + low5 (byte_at m_code 2)))

-- `(m_id >> k) & 0x001F`, where the shift of a negative number is arithmetic.
unfoldable pub shifted_low5 : ℤ → ℕ → ℕ
shifted_low5 (pos n) k = bit_and (n >>> k) 0x1F
shifted_low5 (negsuc n) k = 31 - bit_and (n >>> k) 0x1F

unfoldable pub letters_of : ℤ → List ℕ
letters_of m_id =
    (shifted_low5 m_id 10 + 64) ∷ (shifted_low5 m_id 5 + 64) ∷ (shifted_low5 m_id 0 + 64) ∷ []

-- `mbus_decode_manufacturer`. The decoding of two bytes does not fail.
unfoldable pub decode_manufacturer : ℕ → ℕ → List ℕ
decode_manufacturer byte1 byte2 = elim (int_decode (byte1 ∷ byte2 ∷ [])) [
  | none ↦ letters_of (pos 0)
  | some m_id ↦ letters_of m_id
]

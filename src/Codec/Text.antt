-- ===== src/Codec/Text.antt =====
-- `mbus_data_str_decode` and `mbus_data_bin_decode` of mbus/mbus-protocol.c, and `mbus_hex2bin` of
-- mbus/mbus-protocol-aux.c. A text is the list of its characters; the NUL behind it is left out.
pub mod Laws
use libmbus.Base.{
  ℕ, zero, suc, ◌+◌, ◌-◌, ◌*◌, ◌/◌, ◌%◌, Bool, true, false, not, ◌&&◌, ◌||◌, List, [], ◌∷◌, ◌++◌,
  if◌then◌else◌, ltb, leb, ◌==◌, length, byte_at, Option, none, some, u8, take,
}

-- What C reads of a text: the characters in front of its first NUL.
unfoldable pub c_string : List ℕ → List ℕ
c_string [] = []
c_string (c ∷ cs) = let rest = c_string cs in if c == 0 then [] else c ∷ rest

-- `while (len > 0) dst[i++] = src[--len];`
unfoldable pub str_loop : List ℕ → ℕ → List ℕ
str_loop src zero = []
str_loop src (suc len) = byte_at src len ∷ str_loop src len

-- `mbus_data_str_decode` of `length src` bytes.
unfoldable pub str_decode : List ℕ → List ℕ
str_decode src = str_loop src (length src)

-- `%.2X`
abbrev pub hex_digit : ℕ → ℕ
hex_digit d = if ltb d 10 then b'0' + d else b'A' + d - 10

abbrev pub hex_byte : ℕ → List ℕ
hex_byte b = hex_digit (b / 16) ∷ hex_digit (b % 16) ∷ []

-- The loop of `mbus_data_bin_decode`, with `pos` characters written.
unfoldable pub bin_loop : ℕ → ℕ → List ℕ → List ℕ
bin_loop max_len pos [] = []
bin_loop max_len pos (b ∷ src) =
    let rest = bin_loop max_len (pos + 3) src in
    if ltb (pos + 3) max_len then hex_byte b ++ (b' ' ∷ rest) else []

-- The last blank is cut off.
unfoldable pub bin_decode : List ℕ → ℕ → List ℕ
bin_decode src max_len =
    let out = bin_loop max_len 0 src in
    if ltb 0 (length out) then take (length out - 1) out else out

-- `isspace` in the C locale.
unfoldable pub isspace : ℕ → Bool
isspace c = c == b' ' || (leb 9 c && leb c 13)

-- The value of a hexadecimal digit.
unfoldable pub digit_value : ℕ → Option ℕ
digit_value c =
    if leb b'0' c && leb c b'9'
    then some (c - b'0')
    else (if leb b'A' c && leb c b'F'
        then some (c - b'A' + 10)
        else (if leb b'a' c && leb c b'f' then some (c - b'a' + 10) else none))

-- `strtoul(buf, &end, 16)` on two characters of which the first is no blank: `none` if nothing was
-- converted. A sign may stand before one digit, and of a digit before another character the digit
-- is taken; `-d` is 2^64 - d, of which the caller keeps the low byte.
unfoldable pub strtoul2 : ℕ → ℕ → Option ℕ
strtoul2 a b = elim (digit_value a) [
  | some x ↦ elim (digit_value b) [ some y ↦ some (16 * x + y) | none ↦ some x ]
  | none ↦
      if a == b'+'
      then digit_value b
      else (if a == b'-'
          then elim (digit_value b) [ some y ↦ some ((256 - y) % 256) | none ↦ none ]
          else none)
]

-- The loop of `mbus_hex2bin`, with room for `room` more bytes; what it returns was stored.
unfoldable pub hex2bin : ℕ → List ℕ → List ℕ
hex2bin room [] = []
hex2bin room (c ∷ []) = []
hex2bin room (c ∷ d ∷ src) = elim (isspace c) [
  | true ↦ hex2bin room (d ∷ src)
  | false ↦ elim (strtoul2 c d) [
    | none ↦ []
    | some val ↦ elim room [ zero ↦ [] | suc left ↦ u8 val ∷ hex2bin left src ]
  ]
]

-- ===== src/Codec/Text/Laws.antt =====
-- Binary data as text and back.
use libmbus.Base.{
  ℕ, zero, suc, ◌+◌, ◌*◌, ◌/◌, ◌%◌, ◌<◌, ◌≤◌, ◌≡◌, refl, ap, sym, ◌∙◌, false, List, [], ◌∷◌, ◌++◌,
  arith, length, byte_at, reverse, some, AreBytes, length-append, lt→ltb, take-length-append,
}
use mathlib.Core.List.{reverse-cons}
use libmbus.Codec.Text.{
  str_loop, str_decode, hex_digit, hex_byte, bin_loop, bin_decode, isspace, digit_value, strtoul2,
  hex2bin,
}

str_loop-cons :
    (x : ℕ) (xs : List ℕ) (n : ℕ) → str_loop (x ∷ xs) (suc n) ≡ str_loop xs n ++ (x ∷ [])
unfolding str_loop
str_loop-cons x xs zero = refl
str_loop-cons x xs (suc n) = ap (λ t. byte_at xs n ∷ t) (str_loop-cons x xs n)

-- `mbus_data_str_decode` stores the bytes in the reverse order.
pub str_decode-reverse : (src : List ℕ) → str_decode src ≡ reverse src
unfolding str_decode
str_decode-reverse [] = unfold str_loop in refl
str_decode-reverse (x ∷ xs) =
    str_loop-cons x xs (length xs)
    ∙ ap (λ t. t ++ (x ∷ [])) (str_decode-reverse xs)
    ∙ sym (reverse-cons x xs)

pub digit_value-hex_digit : (x : ℕ) → x < 16 → digit_value (hex_digit x) ≡ some x
unfolding digit_value
digit_value-hex_digit x h = ground arith

isspace-hex_digit : (x : ℕ) → x < 16 → isspace (hex_digit x) ≡ false
unfolding isspace
isspace-hex_digit x h = ground arith

strtoul2-hex_byte : (b : ℕ) → b < 256 → strtoul2 (hex_digit (b / 16)) (hex_digit (b % 16)) ≡ some b
unfolding strtoul2
strtoul2-hex_byte b h = ground (
  arith,
  digit_value-hex_digit (b / 16) (omega arith),
  digit_value-hex_digit (b % 16) (omega arith),
)

hex2bin-digits :
    (room c d b : ℕ) (rest : List ℕ)
    → isspace c ≡ false
    → strtoul2 c d ≡ some b
    → b < 256
    → hex2bin (suc room) (c ∷ d ∷ rest) ≡ b ∷ hex2bin room rest
unfolding hex2bin
hex2bin-digits room c d b rest plain value h =
    rw (plain, value, hex2bin) (ap (λ t. t ∷ hex2bin room rest) (omega arith))

hex2bin-byte :
    (room b : ℕ) (rest : List ℕ)
    → b < 256
    → hex2bin (suc room) (hex_byte b ++ rest) ≡ b ∷ hex2bin room rest
hex2bin-byte room b rest h =
    hex2bin-digits room _ _ b rest (isspace-hex_digit (b / 16) (omega arith))
      (strtoul2-hex_byte b h) h

hex2bin-blank :
    (room d : ℕ) (rest : List ℕ) → hex2bin room (b' ' ∷ d ∷ rest) ≡ hex2bin room (d ∷ rest)
unfolding hex2bin isspace
hex2bin-blank room d rest = refl

-- The bytes in hexadecimal, a blank between two of them.
pub hex_text : List ℕ → List ℕ
hex_text [] = []
hex_text (b ∷ []) = hex_byte b
hex_text (b ∷ c ∷ bs) = hex_byte b ++ (b' ' ∷ hex_text (c ∷ bs))

-- With a blank behind each of them.
spaced : List ℕ → List ℕ
spaced [] = []
spaced (b ∷ bs) = hex_byte b ++ (b' ' ∷ spaced bs)

bin_loop-spaced :
    (max_len pos : ℕ) (src : List ℕ)
    → pos + 3 * length src < max_len
    → bin_loop max_len pos src ≡ spaced src
unfolding bin_loop spaced
bin_loop-spaced max_len pos [] h = refl
bin_loop-spaced max_len pos (b ∷ src) h =
    rw (bin_loop-spaced max_len (pos + 3) src (omega arith), lt→ltb (pos + 3) max_len (omega arith))

spaced-hex_text : (b : ℕ) (bs : List ℕ) → spaced (b ∷ bs) ≡ hex_text (b ∷ bs) ++ (b' ' ∷ [])
unfolding spaced hex_text
spaced-hex_text b [] = refl
spaced-hex_text b (c ∷ bs) = ap (λ t. hex_byte b ++ (b' ' ∷ t)) (spaced-hex_text c bs)

-- With more than three characters a byte of room, `mbus_data_bin_decode` writes all the bytes.
pub bin_decode-hex_text :
    (src : List ℕ) (max_len : ℕ) → 3 * length src < max_len → bin_decode src max_len ≡ hex_text src
unfolding bin_decode
bin_decode-hex_text [] max_len h = unfold bin_loop hex_text in refl
bin_decode-hex_text (b ∷ bs) max_len h =
    let t = hex_text (b ∷ bs) in
    let out : bin_loop max_len 0 (b ∷ bs) ≡ t ++ (b' ' ∷ []) =
      bin_loop-spaced max_len 0 (b ∷ bs) (omega arith) ∙ spaced-hex_text b bs in
    rw (out, lt→ltb 0 (length (t ++ (b' ' ∷ []))) (omega (arith, length-append t (b' ' ∷ []))))
      (take-length-append t (b' ' ∷ []) _ (omega (arith, length-append t (b' ' ∷ []))))

hex2bin-hex_text_blank :
    (room c : ℕ) (bs : List ℕ)
    → hex2bin room (b' ' ∷ hex_text (c ∷ bs)) ≡ hex2bin room (hex_text (c ∷ bs))
unfolding hex_text
hex2bin-hex_text_blank room c [] = hex2bin-blank room _ _
hex2bin-hex_text_blank room c (d ∷ bs) = hex2bin-blank room _ _

hex2bin-hex_text :
    (src : List ℕ) (room : ℕ) → AreBytes src → length src ≤ room → hex2bin room (hex_text src) ≡ src
unfolding hex_text
hex2bin-hex_text [] room h enough = unfold hex2bin in refl
hex2bin-hex_text (b ∷ bs) zero h enough = absurd (omega arith)
hex2bin-hex_text (b ∷ []) (suc room) h enough =
    hex2bin-byte room b [] h.0 ∙ ap (λ t. b ∷ t) (unfold hex2bin in refl)
hex2bin-hex_text (b ∷ c ∷ bs) (suc room) h enough =
    hex2bin-byte room b (b' ' ∷ hex_text (c ∷ bs)) h.0
    ∙ ap (λ t. b ∷ t)
        (hex2bin-hex_text_blank room c bs ∙ hex2bin-hex_text (c ∷ bs) room h.1 (omega arith))

-- `mbus_hex2bin` reads back what `mbus_data_bin_decode` wrote, for any bytes and with room for
-- them on both sides.
pub hex2bin-bin_decode :
    (src : List ℕ) (max_len room : ℕ)
    → AreBytes src
    → 3 * length src < max_len
    → length src ≤ room
    → hex2bin room (bin_decode src max_len) ≡ src
hex2bin-bin_decode src max_len room h fits enough =
    rw (bin_decode-hex_text src max_len fits) (hex2bin-hex_text src room h enough)

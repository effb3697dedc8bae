-- ===== src/Codec/Xml.antt =====
-- `mbus_str_xml_encode` of mbus/mbus-protocol.c. A text is the list of the characters in its
-- array; the NUL behind them is left out.
pub mod Laws
use libmbus.Base.{ℕ, ◌+◌, Bool, ◌||◌, List, [], ◌∷◌, ◌++◌, if◌then◌else◌, ltb, ◌==◌, length}

-- `iscntrl` in the C locale.
unfoldable pub iscntrl : ℕ → Bool
iscntrl c = ltb c 32 || c == 127

-- What is written for a character. There is room for it, so that `snprintf` cuts nothing off.
unfoldable pub xml_char : ℕ → List ℕ
xml_char c =
    if iscntrl c
    then b' ' ∷ []
    else (if c == b'&'
        then b'&' ∷ b'a' ∷ b'm' ∷ b'p' ∷ b';' ∷ []
        else (if c == b'<'
            then b'&' ∷ b'l' ∷ b't' ∷ b';' ∷ []
            else (if c == b'>'
                then b'&' ∷ b'g' ∷ b't' ∷ b';' ∷ []
                else (if c == b'"' then b'&' ∷ b'q' ∷ b'u' ∷ b'o' ∷ b't' ∷ b';' ∷ [] else c ∷ []))))

-- The loop, with `len` characters written. At a NUL it breaks.
unfoldable pub xml_loop : ℕ → ℕ → List ℕ → List ℕ
xml_loop max_len len [] = []
xml_loop max_len len (c ∷ src) =
    let rest = xml_loop max_len (len + length (xml_char c)) src in
    if ltb (len + 6) max_len then (if c == 0 then [] else xml_char c ++ rest) else []

-- `mbus_str_xml_encode`
unfoldable pub str_xml_encode : List ℕ → ℕ → List ℕ
str_xml_encode src max_len = xml_loop max_len 0 src

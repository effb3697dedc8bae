-- ===== src/Units/Text.antt =====
-- The texts that the functions of the library return, as lists of their bytes without the NUL
-- behind them; and C's `switch` as a table.
use Prim.Native.Char.{code}
use Prim.Native.String.{String}
use libmbus.Base.{
  ℕ, zero, suc, ◌+◌, ◌-◌, ◌/◌, ◌%◌, Bool, false, ◌||◌, List, [], ◌∷◌, ◌++◌, if◌then◌else◌, ltb,
  ◌==◌, take,
}

-- A character in UTF-8, as the sources of the library are coded. They have no character that takes
-- more than two bytes.
abbrev pub utf8 : ℕ → List ℕ
utf8 c = if ltb c 0x80 then c ∷ [] else (0xC0 + c / 64) ∷ (0x80 + c % 64) ∷ []

abbrev pub text : String → List ℕ
text String.[] = []
text (String.◌∷◌ c s) = utf8 (code c) ++ text s

-- `snprintf(buff, size, ...)`, `s` being what the format gives: what does not fit is cut off.
abbrev pub snprintf : ℕ → List ℕ → List ℕ
snprintf size s = take (size - 1) s

unfoldable pub is_among : ℕ → List ℕ → Bool
is_among n [] = false
is_among n (l ∷ ls) = n == l || is_among n ls

-- `switch (n)` with the labels and the value of each case, and the value of `default`.
unfoldable pub switch {ℓ} : {A : Type ℓ} → ℕ → List (List ℕ × A) → A → A
switch n [] otherwise = otherwise
switch n ((cases_of, value) ∷ cases) otherwise =
    let rest = switch n cases otherwise in if is_among n cases_of then value else rest

-- The labels `case a:`, `case a + 1:` and so on, `n` of them.
abbrev pub labels : ℕ → ℕ → List ℕ
labels a zero = []
labels a (suc n) = a ∷ labels (a + 1) n

-- `%.2x`
abbrev pub small_hex_digit : ℕ → ℕ
small_hex_digit d = if ltb d 10 then b'0' + d else b'a' + d - 10

abbrev pub small_hex_byte : ℕ → List ℕ
small_hex_byte b = small_hex_digit (b / 16) ∷ small_hex_digit (b % 16) ∷ []

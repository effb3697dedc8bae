-- ===== src/Units/Prefix.antt =====
-- `mbus_unit_prefix`, `mbus_unit_duration_nn` and `mbus_unit_duration_pp` of
-- mbus/mbus-protocol.c, and how C prints an `int`.
use Prim.Native.String.{String}
use libmbus.Base.{
  sub_ℕ, ℕ, zero, suc, ◌+◌, ◌/◌, ◌%◌, List, [], ◌∷◌, ◌++◌, ℤ, pos, negsuc, if◌then◌else◌, ltb,
}
use libmbus.Units.Text.{text, snprintf, switch}

-- The digits of a number that has at most `places` of them.
unfoldable pub decimal_digits : ℕ → ℕ → List ℕ
decimal_digits zero n = []
decimal_digits (suc places) n =
    let front = decimal_digits places (n / 10) in
    if ltb n 10 then (b'0' + n) ∷ [] else front ++ ((b'0' + n % 10) ∷ [])

-- `%lld` and `%d`: no number of 64 bits has more than twenty digits.
unfoldable pub print_int : ℤ → List ℕ
print_int (pos n) = decimal_digits 20 n
print_int (negsuc n) = b'-' ∷ decimal_digits 20 (suc n)

-- The switch of `mbus_unit_prefix`, on an exponent from 0 on and on a negative one.
unfoldable pub prefix_of : ℤ → List ℕ
prefix_of (pos n) =
    switch n
      ((0 ∷ [], [])
        ∷ (1 ∷ [], text "10 ")
        ∷ (2 ∷ [], text "100 ")
        ∷ (3 ∷ [], text "k")
        ∷ (4 ∷ [], text "10 k")
        ∷ (5 ∷ [], text "100 k")
        ∷ (6 ∷ [], text "M")
        ∷ (9 ∷ [], text "G")
        ∷ [])
      (text "1e" ++ print_int (pos n) ++ text " ")
prefix_of (negsuc n) =
    switch (suc n) ((3 ∷ [], text "m") ∷ (6 ∷ [], text "my") ∷ [])
      (text "1e" ++ print_int (negsuc n) ++ text " ")

-- `mbus_unit_prefix`
unfoldable pub unit_prefix : ℤ → List ℕ
unit_prefix exp = snprintf 30 (prefix_of exp)

-- `mbus_unit_duration_nn`
unfoldable pub unit_duration_nn : ℕ → List ℕ
unit_duration_nn nn =
    switch nn
      ((0 ∷ [], text "second(s)")
        ∷ (1 ∷ [], text "minute(s)")
        ∷ (2 ∷ [], text "hour(s)")
        ∷ (3 ∷ [], text "day(s)")
        ∷ [])
      (text "error: out-of-range")

-- `mbus_unit_duration_pp`
unfoldable pub unit_duration_pp : ℕ → List ℕ
unit_duration_pp pp =
    switch pp
      ((0 ∷ [], text "hour(s)")
        ∷ (1 ∷ [], text "day(s)")
        ∷ (2 ∷ [], text "month(s)")
        ∷ (3 ∷ [], text "year(s)")
        ∷ [])
      (text "error: out-of-range")

-- `"<head>%s<tail>"` with `mbus_unit_prefix(n - k)`.
abbrev pub scaled : String → ℕ → ℕ → String → List ℕ
scaled head n k tail = text head ++ unit_prefix (sub_ℕ n k) ++ text tail

-- ===== src/Codec/Manufacturer/Laws.antt =====
-- The three forms of a manufacturer: letters, number, bytes.
use libmbus.Base.{
  ℕ, ◌+◌, ◌-◌, ◌*◌, ◌/◌, ◌^◌, ◌≤◌, ◌≡◌, ◌⊎◌, ap, ◌∙◌, true, [], ◌∷◌, pos, arith, byte_at, some,
}
use libmbus.Base.Bits.{and_1f_letter}
use libmbus.Base.Bits.And.{low_five}
use libmbus.Codec.Bytes.{to_bytes}
use libmbus.Codec.Integer.{int_decode, int_encode}
use libmbus.Codec.Integer.Laws.{int_encode_pos, int_decode-complement}
use libmbus.Codec.Manufacturer.{
  isalpha, toupper, manufacturer_id, low5, manufacturer_encode, shifted_low5, letters_of,
  decode_manufacturer,
}

-- A letter of either case.
abbrev pub IsLetter : ℕ → Type 0
IsLetter c = ((b'A' ≤ c) × (c ≤ b'Z')) ⊎ ((b'a' ≤ c) × (c ≤ b'z'))

-- The number of three upper-case letters.
abbrev pub code_of : ℕ → ℕ → ℕ → ℕ
code_of u0 u1 u2 = (u0 - 64) * 1024 + (u1 - 64) * 32 + (u2 - 64)

abbrev pub IsUpper : ℕ → Type 0
IsUpper u = (65 ≤ u) × (u ≤ 90)

isalpha-IsLetter : (c : ℕ) → IsLetter c → isalpha c ≡ true
unfolding isalpha
isalpha-IsLetter c h = ground arith

toupper-IsUpper : (c : ℕ) → IsLetter c → IsUpper (toupper c)
unfolding toupper
toupper-IsUpper c h = ground arith

-- Three letters of either case have the number of their upper-case forms, so that the last test
-- of `mbus_manufacturer_id` does not reject them.
pub manufacturer_id-code_of :
    (c0 c1 c2 : ℕ)
    → IsLetter c0
    → IsLetter c1
    → IsLetter c2
    → manufacturer_id (c0 ∷ c1 ∷ c2 ∷ []) ≡ code_of (toupper c0) (toupper c1) (toupper c2)
unfolding manufacturer_id
manufacturer_id-code_of c0 c1 c2 h0 h1 h2 =
    rw (isalpha-IsLetter c0 h0, isalpha-IsLetter c1 h1, isalpha-IsLetter c2 h2)
      (ground (arith, toupper-IsUpper c0 h0, toupper-IsUpper c1 h1, toupper-IsUpper c2 h2))

low5-IsUpper : (u : ℕ) → IsUpper u → low5 u ≡ u - 64
low5-IsUpper u h = omega (arith, and_1f_letter u (omega arith))

manufacturer_encode-code_of :
    (u0 u1 u2 : ℕ)
    → IsUpper u0
    → IsUpper u1
    → IsUpper u2
    → manufacturer_encode (u0 ∷ u1 ∷ u2 ∷ []) ≡ int_encode 2 (pos (code_of u0 u1 u2))
unfolding manufacturer_encode
manufacturer_encode-code_of u0 u1 u2 h0 h1 h2 =
    ap (λ t. int_encode 2 (pos t))
      (omega (arith, low5-IsUpper u0 h0, low5-IsUpper u1 h1, low5-IsUpper u2 h2))

letters_of-code_of :
    (u0 u1 u2 : ℕ)
    → IsUpper u0
    → IsUpper u1
    → IsUpper u2
    → letters_of (pos (code_of u0 u1 u2)) ≡ u0 ∷ u1 ∷ u2 ∷ []
unfolding letters_of shifted_low5
letters_of-code_of u0 u1 u2 h0 h1 h2 =
    let v : ℕ = code_of u0 u1 u2 in
    ground (arith, low_five (v / 2 ^ 10), low_five (v / 2 ^ 5), low_five (v / 2 ^ 0))

decode_code_of :
    (u0 u1 u2 : ℕ)
    → IsUpper u0
    → IsUpper u1
    → IsUpper u2
    → let d = to_bytes 2 (code_of u0 u1 u2) in
      decode_manufacturer (byte_at d 0) (byte_at d 1) ≡ u0 ∷ u1 ∷ u2 ∷ []
unfolding decode_manufacturer to_bytes
decode_code_of u0 u1 u2 h0 h1 h2 =
    let v : ℕ = code_of u0 u1 u2 in
    let read : int_decode (to_bytes 2 v) ≡ some (pos v) =
      int_decode-complement 2 (pos v) (omega arith) (omega arith) in
    rw (read, decode_manufacturer) (letters_of-code_of u0 u1 u2 h0 h1 h2)

-- The bytes that `mbus_data_manufacturer_encode` stores for three letters of either case, in upper
-- case, are those of the number that `mbus_manufacturer_id` gives them, and
-- `mbus_decode_manufacturer` reads the upper-case letters from these bytes.
pub decode_manufacturer-encode :
    (c0 c1 c2 : ℕ)
    → IsLetter c0
    → IsLetter c1
    → IsLetter c2
    → let s = toupper c0 ∷ toupper c1 ∷ toupper c2 ∷ [] in
      let d = to_bytes 2 (manufacturer_id (c0 ∷ c1 ∷ c2 ∷ [])) in
      (manufacturer_encode s ≡ some d) × (decode_manufacturer (byte_at d 0) (byte_at d 1) ≡ s)
unfolding to_bytes
decode_manufacturer-encode c0 c1 c2 h0 h1 h2 =
    let u0 = toupper-IsUpper c0 h0 in
    let u1 = toupper-IsUpper c1 h1 in
    let u2 = toupper-IsUpper c2 h2 in
    rw (manufacturer_id-code_of c0 c1 c2 h0 h1 h2) (
      manufacturer_encode-code_of _ _ _ u0 u1 u2
          ∙ int_encode_pos 2 (code_of (toupper c0) (toupper c1) (toupper c2)) (omega arith),
      decode_code_of _ _ _ u0 u1 u2,
    )

-- Three letters of either case have in `mbus_manufacturer_id` the number of their upper-case forms in
-- base 32, which its last test does not reject; `mbus_data_manufacturer_encode` stores the bytes of
-- this number for the upper-case letters, and `mbus_decode_manufacturer` reads these letters from
-- the bytes.
pub manufacturer_id-encode-decode :
    (c0 c1 c2 : ℕ)
    → IsLetter c0
    → IsLetter c1
    → IsLetter c2
    → let s = toupper c0 ∷ toupper c1 ∷ toupper c2 ∷ [] in
      let id = code_of (toupper c0) (toupper c1) (toupper c2) in
      let d = to_bytes 2 id in
      (manufacturer_id (c0 ∷ c1 ∷ c2 ∷ []) ≡ id)
      × (manufacturer_encode s ≡ some d)
      × (decode_manufacturer (byte_at d 0) (byte_at d 1) ≡ s)
manufacturer_id-encode-decode c0 c1 c2 h0 h1 h2 =
    let id = manufacturer_id-code_of c0 c1 c2 h0 h1 h2 in
    let both = decode_manufacturer-encode c0 c1 c2 h0 h1 h2 in (id, rw⁻¹ id both.0, rw⁻¹ id both.1)

-- ===== src/Codec/Integer/Laws.antt =====
-- The integer codecs are two's complement.
use native.Mathlib.Nat.{pow-suc, pow-le-pow_right, div-div-eq-div-mul}
use native.Mathlib.Numerals.{towards_suc}
use libmbus.Base.{
  ℕ, zero, suc, ◌+◌, ◌-◌, ◌*◌, ◌/◌, ◌^◌, ◌<◌, ◌≤◌, le→leb, ◌≡◌, ◌↔◌, refl, sym, ap, ◌∙◌, true,
  false, not, List, [], ◌∷◌, ℤ, pos, negsuc, arith, length, map, byte_at, AreBytes, some, of_some,
  if◌then◌else◌, ltb, u8,
}
use libmbus.Base.Bits.{xor_ff, and_80}
use libmbus.Codec.Bytes.{
  little_endian, little_endian-lt, to_bytes, little_endian-to_bytes, length-to_bytes,
  to_bytes-AreBytes,
}
use libmbus.Codec.Bcd.{bcd_decode_hex, long_long}
use libmbus.Codec.Bcd.Laws.{bcd_decode_hex-little_endian}
use libmbus.Codec.Integer.{int_loop, is_neg, int_decode, shifted_byte, int_encode_loop, int_encode}

int_loop-false : (d : List ℕ) → int_loop false d ≡ little_endian d
unfolding int_loop little_endian
int_loop-false [] = refl
int_loop-false (b ∷ bs) = omega (arith, int_loop-false bs)

int_loop-true : (d : List ℕ) → AreBytes d → int_loop true d + little_endian d + 1 ≡ 256 ^ length d
unfolding int_loop little_endian
int_loop-true [] h = omega arith
int_loop-true (b ∷ bs) h =
    omega (arith, xor_ff b h.0, int_loop-true bs h.1, pow-suc 256 (length bs))

last_byte : (d : List ℕ) → AreBytes d → byte_at d (length d - 1) < 256
last_byte [] h = omega arith
last_byte (b ∷ []) h = h.0
last_byte (b ∷ c ∷ d) h =
    let i : suc (suc (length d)) - 1 ≡ suc (suc (length d) - 1) = omega arith in
    rw i (last_byte (c ∷ d) h.1)

-- The top bit says in which half of the range the number lies.
top_half :
    (d : List ℕ)
    → 0 < length d
    → AreBytes d
    → (byte_at d (length d - 1) < 128) ↔ (2 * little_endian d < 256 ^ length d)
unfolding little_endian
top_half [] n h = absurd (omega arith)
top_half (b ∷ []) n h = ground arith
top_half (b ∷ c ∷ d) n h =
    let i : suc (suc (length d)) - 1 ≡ suc (suc (length d) - 1) = omega arith in
    rw i (ground (arith, top_half (c ∷ d) (omega arith) h.1, h.0, pow-suc 256 (length (c ∷ d))))

is_neg-top :
    (d : List ℕ)
    → 0 < length d
    → AreBytes d
    → is_neg d ≡ not (ltb (2 * little_endian d) (256 ^ length d))
is_neg-top d n h =
    ground (arith, and_80 (byte_at d (length d - 1)) (last_byte d h), last_byte d h, top_half d n h)

-- Two's complement: numbers in the upper half of the range stand for negative ones.
abbrev pub twos_complement : ℕ → ℕ → ℤ
twos_complement range v = if ltb (2 * v) range then pos v else negsuc (range - 1 - v)

-- `mbus_data_int_decode` and its kin read an array of bytes as a number in two's complement, the
-- low bytes first.
pub int_decode-twos_complement :
    (d : List ℕ)
    → 0 < length d
    → AreBytes d
    → int_decode d ≡ some (twos_complement (256 ^ length d) (little_endian d))
unfolding int_decode
int_decode-twos_complement d n h =
    rw (is_neg-top d n h)
      (ground (arith, int_loop-false d, int_loop-true d h, little_endian-lt d h))

shift_eight : (i : ℕ) → 2 ^ ((i + 1) * 8) ≡ 2 ^ (i * 8) * 256
shift_eight i =
    let e : (i + 1) * 8 ≡ i * 8 + 8 = omega arith in rw e (simp towards_suc (omega arith))

next_byte : (m i : ℕ) → m / 2 ^ ((i + 1) * 8) ≡ m / 2 ^ (i * 8) / 256
next_byte m i = ap (λ t. m / t) (shift_eight i) ∙ sym (div-div-eq-div-mul m (2 ^ (i * 8)) 256)

encode-pos : (m left i : ℕ) → int_encode_loop (pos m) left i ≡ to_bytes left (m / 2 ^ (i * 8))
unfolding int_encode_loop shifted_byte to_bytes
encode-pos m zero i = refl
encode-pos m (suc left) i =
    ap (λ t. u8 (m / 2 ^ (i * 8)) ∷ t)
      (encode-pos m left (i + 1) ∙ ap (to_bytes left) (next_byte m i))

abbrev flip : ℕ → ℕ
flip b = 255 - b

encode-negsuc :
    (m left i : ℕ) → int_encode_loop (negsuc m) left i ≡ map flip (to_bytes left (m / 2 ^ (i * 8)))
unfolding int_encode_loop shifted_byte to_bytes
encode-negsuc m zero i = refl
encode-negsuc m (suc left) i =
    ap (λ t. (255 - u8 (m / 2 ^ (i * 8))) ∷ t)
      (encode-negsuc m left (i + 1) ∙ ap (λ t. map flip (to_bytes left t)) (next_byte m i))

little_endian-flip :
    (d : List ℕ) → AreBytes d → little_endian (map flip d) + little_endian d + 1 ≡ 256 ^ length d
unfolding little_endian
little_endian-flip [] h = omega arith
little_endian-flip (b ∷ bs) h =
    omega (arith, little_endian-flip bs h.1, h.0, pow-suc 256 (length bs))

flip-AreBytes : (d : List ℕ) → AreBytes (map flip d) × (length (map flip d) ≡ length d)
flip-AreBytes [] = (tt, refl)
flip-AreBytes (b ∷ bs) = let (h, e) = flip-AreBytes bs in ((omega arith, h), ap suc e)

-- A number fits `n` bytes in two's complement.
abbrev pub FitsBytes : ℕ → ℤ → Type 0
FitsBytes n (pos m) = 2 * m < 256 ^ n
FitsBytes n (negsuc m) = 2 * m < 256 ^ n

pub int_encode_pos : (n m : ℕ) → n ≤ 4 → int_encode n (pos m) ≡ some (to_bytes n m)
unfolding int_encode
int_encode_pos n m few =
    rw (le→leb n 4 few) (ap some (encode-pos m n 0 ∙ ap (to_bytes n) (omega arith)))

int_encode_negsuc : (n m : ℕ) → n ≤ 4 → int_encode n (negsuc m) ≡ some (map flip (to_bytes n m))
unfolding int_encode
int_encode_negsuc n m few =
    rw (le→leb n 4 few)
      (ap some (encode-negsuc m n 0 ∙ ap (λ t. map flip (to_bytes n t)) (omega arith)))

-- The bytes of a number in two's complement.
abbrev pub complement_bytes : ℕ → ℤ → List ℕ
complement_bytes n (pos m) = to_bytes n m
complement_bytes n (negsuc m) = map flip (to_bytes n m)

pub int_decode-complement :
    (n : ℕ) (v : ℤ) → 0 < n → FitsBytes n v → int_decode (complement_bytes n v) ≡ some v
int_decode-complement n (pos m) some_bytes h =
    let d = to_bytes n m in
    rw
      (
        int_decode-twos_complement d (omega (arith, length-to_bytes n m)) (to_bytes-AreBytes n m),
        length-to_bytes n m,
        little_endian-to_bytes n m (omega arith),
      )
      (ground arith)
int_decode-complement zero (negsuc m) some_bytes h = absurd (omega arith)
int_decode-complement (suc k) (negsuc m) some_bytes h =
    let n = suc k in
    let d = map flip (to_bytes n m) in
    let size : length d ≡ n = (flip-AreBytes (to_bytes n m)).1 ∙ length-to_bytes n m in
    let value : little_endian d ≡ 256 ^ n - 1 - m = omega (
      arith,
      little_endian-flip (to_bytes n m) (to_bytes-AreBytes n m),
      ap (λ (t : ℕ). 256 ^ t) (length-to_bytes n m),
      little_endian-to_bytes n m (omega arith),
    ) in
    rw (int_decode-twos_complement d (omega arith) (flip-AreBytes (to_bytes n m)).0, size, value)
      (ground (arith, pow-suc 256 k))

-- Every `int` that fits one to four bytes, negative ones included, is stored by
-- `mbus_data_int_encode` in as many bytes, from which it is decoded.
pub int_decode-encode :
    (n : ℕ) (v : ℤ)
    → 0 < n
    → n ≤ 4
    → FitsBytes n v
    → (d : List ℕ) × (int_encode n v ≡ some d) × (length d ≡ n) × (int_decode d ≡ some v)
int_decode-encode n (pos m) some_bytes few h = (
  to_bytes n m,
  int_encode_pos n m few,
  length-to_bytes n m,
  int_decode-complement n (pos m) some_bytes h,
)
int_decode-encode n (negsuc m) some_bytes few h = (
  map flip (to_bytes n m),
  int_encode_negsuc n m few,
  (flip-AreBytes (to_bytes n m)).1 ∙ length-to_bytes n m,
  int_decode-complement n (negsuc m) some_bytes h,
)

twos_complement-Fits :
    (n : ℕ) (x : ℕ) (v : ℤ) → 0 < n → x < 256 ^ n → twos_complement (256 ^ n) x ≡ v → FitsBytes n v
twos_complement-Fits zero x v p h e = absurd (omega arith)
twos_complement-Fits (suc n) x (pos m) p h e = ground (arith, pow-suc 256 n)
twos_complement-Fits (suc n) x (negsuc m) p h e = ground (arith, pow-suc 256 n)

int_decode-nil : (v : ℤ) → int_decode [] ≡ some v → ⊥
unfolding int_decode
int_decode-nil v e = cc

-- The number decoded from n bytes fits n bytes: nothing wraps in an `int` up to four bytes, or in a
-- `long long` up to eight.
pub int_decode-FitsBytes :
    (d : List ℕ) (v : ℤ) → AreBytes d → int_decode d ≡ some v → FitsBytes (length d) v
int_decode-FitsBytes [] v h e = absurd (int_decode-nil v e)
int_decode-FitsBytes (b ∷ bs) v h e =
    let d : List ℕ = b ∷ bs in
    twos_complement-Fits (length d) (little_endian d) v (omega arith) (little_endian-lt d h)
      (of_some _ _ (sym (int_decode-twos_complement d (omega arith) h) ∙ e))

-- From one to eight bytes `mbus_data_int_decode` and its kin read a number in two's complement, the low
-- bytes first, which fits as many bytes, so that nothing wraps in an `int` up to four bytes or in a
-- `long long` up to eight. The 64 bits that `mbus_data_bcd_decode_hex` returns in a `long long` are
-- those of the number without sign; of eight bytes with the top bit set the `long long` is negative.
pub int_decode-bytes :
    (d : List ℕ)
    → 0 < length d
    → length d ≤ 8
    → AreBytes d
    → let v = twos_complement (256 ^ length d) (little_endian d) in
      (int_decode d ≡ some v)
      × FitsBytes (length d) v
      × (bcd_decode_hex d ≡ little_endian d)
      × (long_long (bcd_decode_hex d) ≡ twos_complement (256 ^ 8) (little_endian d))
int_decode-bytes d n few h =
    let e = int_decode-twos_complement d n h in
    let hex = bcd_decode_hex-little_endian d h few in
    let bound : 256 ^ length d ≤ 256 ^ 8 = pow-le-pow_right (omega arith) {j = 8} few in
    (e, int_decode-FitsBytes d _ h e, hex, rw hex (ground (arith, little_endian-lt d h, bound)))

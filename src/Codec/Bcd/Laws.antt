-- ===== src/Codec/Bcd/Laws.antt =====
-- What the BCD functions compute.
use libmbus.Base.{
  All-append, ℕ, zero, suc, ◌+◌, ◌-◌, ◌*◌, ◌/◌, ◌%◌, ◌^◌, ◌<◌, ◌≤◌, ◌≡◌, refl, ap, ◌∙◌, List, [],
  ◌∷◌, ◌<<<◌, ℤ, negsuc, u64, if◌then◌else◌, ◌==◌, ◌++◌, pos, arith, length, byte_at, reverse, All,
  AreBytes, some, get_or-append_next, length-append,
}
use native.Mathlib.Nat.{pow-suc, pow-le-pow_right}
use mathlib.Core.List.{reverse-reverse, reverse_aux}
use libmbus.Base.Bits.{and_0f, or_nibbles}
use libmbus.Base.Bits.Or.{or_shifted}
use libmbus.Codec.Bytes.{little_endian, little_endian-lt}
use libmbus.Codec.Bcd.{
  bcd_step, bcd_loop, long_long, negate_bits, bcd_decode, bcd_decode_hex, bcd_byte, bcd_encode_loop,
  bcd_encode, mark_negative,
}

-- A byte of two decimal digits.
abbrev pub IsDigits : ℕ → Type 0
IsDigits b = (b / 16 < 10) × (b % 16 < 10)

-- The number that such bytes write, the low digits first.
unfoldable pub decimal : List ℕ → ℕ
decimal [] = 0
decimal (b ∷ bs) = decimal bs * 100 + b / 16 * 10 + b % 16

-- `-n`
abbrev pub negate : ℕ → ℤ
negate zero = pos 0
negate (suc n) = negsuc n

bcd_step-digits : (v b : ℕ) → IsDigits b → bcd_step v b ≡ u64 (v * 100 + b / 16 * 10 + b % 16)
unfolding bcd_step
bcd_step-digits v b h = ground (arith, and_0f b (omega arith), and_0f (b / 16) (omega arith))

pub bcd_loop-decimal : (d : List ℕ) → All IsDigits d → bcd_loop d ≡ u64 (decimal d)
unfolding bcd_loop decimal
bcd_loop-decimal [] h = refl
bcd_loop-decimal (b ∷ bs) h =
    omega (arith, bcd_step-digits (bcd_loop bs) b h.0, bcd_loop-decimal bs h.1)

All-last {κ} : (P : ℕ → Type κ) (d : List ℕ) → 0 < length d → All P d → P (byte_at d (length d - 1))
All-last P [] h a = absurd (omega arith)
All-last P (b ∷ []) h a = a.0
All-last P (b ∷ c ∷ d) h a =
    let i : suc (suc (length d)) - 1 ≡ suc (suc (length d) - 1) = omega arith in
    rw i (All-last P (c ∷ d) (omega arith) a.1)

-- Bytes of decimal digits are read as the number that they write, low digits first, if a `long long`
-- holds it.
pub bcd_decode-decimal :
    (d : List ℕ)
    → 0 < length d
    → All IsDigits d
    → decimal d < 2 ^ 63
    → bcd_decode d ≡ pos (decimal d)
unfolding bcd_decode
bcd_decode-decimal d h a small = ground (arith, All-last IsDigits d h a, bcd_loop-decimal d a)

bcd_loop-sign :
    (d : List ℕ) (x : ℕ)
    → All IsDigits d
    → x < 10
    → bcd_loop (d ++ ((0xF0 + x) ∷ [])) ≡ u64 (decimal (d ++ (x ∷ [])))
unfolding bcd_loop decimal bcd_step
bcd_loop-sign [] x a h = ground (arith, and_0f (0xF0 + x) (omega arith))
bcd_loop-sign (b ∷ d) x a h =
    omega
      (arith, bcd_step-digits (bcd_loop (d ++ ((0xF0 + x) ∷ []))) b a.0, bcd_loop-sign d x a.1 h)

negated :
    (n y : ℕ)
    → n < 2 ^ 63
    → y / 16 ≡ 15
    → (if y / 2 ^ 4 == 0xF then long_long (negate_bits (u64 n)) else long_long (u64 n)) ≡ negate n
negated zero y h e = ground arith
negated (suc n) y h e = ground arith

decimal-lt : (d : List ℕ) → All IsDigits d → decimal d < 100 ^ length d
unfolding decimal
decimal-lt [] h = omega arith
decimal-lt (b ∷ bs) h = omega (arith, decimal-lt bs h.1, h.0, pow-suc 100 (length bs))

-- Up to nine bytes of digits are a number that a `long long` holds.
nine_bytes :
    (d : List ℕ) (c : ℕ)
    → All IsDigits d
    → IsDigits c
    → length d ≤ 8
    → decimal (d ++ (c ∷ [])) < 2 ^ 63
nine_bytes d c h k few =
    let all = d ++ (c ∷ []) in
    let size : length all ≤ 9 = omega (arith, length-append d (c ∷ [])) in
    let bound : 100 ^ length all ≤ 100 ^ 9 = pow-le-pow_right (omega arith) size in
    omega (arith, decimal-lt all (All-append IsDigits d (c ∷ []) h (k, tt)), bound)

-- With the hexadecimal digit F in front of the digits, the number is negative.
pub bcd_decode-sign :
    (d : List ℕ) (x : ℕ)
    → All IsDigits d
    → x < 10
    → decimal (d ++ (x ∷ [])) < 2 ^ 63
    → bcd_decode (d ++ ((0xF0 + x) ∷ [])) ≡ negate (decimal (d ++ (x ∷ [])))
unfolding bcd_decode
bcd_decode-sign d x a h small =
    let y : ℕ = 0xF0 + x in
    let last : byte_at (d ++ (y ∷ [])) (length d) ≡ y = get_or-append_next d y [] 0 in
    let size : length (d ++ (y ∷ [])) - 1 ≡ length d = omega (arith, length-append d (y ∷ [])) in
    rw (size, last, bcd_loop-sign d x a h)
      (negated (decimal (d ++ (x ∷ []))) (0xF0 + x) small (omega arith))

-- At most nine bytes of decimal digits, the last one `b`, are read as the number that they write, low
-- digits first; with the hexadecimal digit F in front of a digit `x` in place of `b` the number is
-- negative. The code computes in a `long long`, which holds the digits of nine bytes and not those
-- of ten.
pub bcd_decode-digits :
    (d : List ℕ) (b x : ℕ)
    → All IsDigits d
    → IsDigits b
    → x < 10
    → length d ≤ 8
    → (bcd_decode (d ++ (b ∷ [])) ≡ pos (decimal (d ++ (b ∷ []))))
      × (bcd_decode (d ++ ((0xF0 + x) ∷ [])) ≡ negate (decimal (d ++ (x ∷ []))))
bcd_decode-digits d b x h k small few = (
  bcd_decode-decimal (d ++ (b ∷ [])) (omega (arith, length-append d (b ∷ [])))
      (All-append IsDigits d (b ∷ []) h (k, tt)) (nine_bytes d b h k few),
  bcd_decode-sign d x h small (nine_bytes d x h (omega arith) few),
)

-- The bytes of a number, low digits first.
pub digits : ℕ → ℕ → List ℕ
digits zero v = []
digits (suc n) v = bcd_byte v ∷ digits n (v / 10 / 10)

bcd_byte-digits : (v : ℕ) → bcd_byte v ≡ v / 10 % 10 * 16 + v % 10
unfolding bcd_byte
bcd_byte-digits v =
    or_nibbles (v / 10 - v / 10 / 10 * 10) (v - v / 10 * 10) (omega arith) (omega arith)
    ∙ omega arith

bcd_byte-IsDigits : (v : ℕ) → IsDigits (bcd_byte v)
bcd_byte-IsDigits v = omega (arith, bcd_byte-digits v)

digits-IsDigits : (n v : ℕ) → All IsDigits (digits n v)
unfolding digits
digits-IsDigits zero v = tt
digits-IsDigits (suc n) v = (bcd_byte-IsDigits v, digits-IsDigits n (v / 10 / 10))

decimal-digits : (n v : ℕ) → v < 100 ^ n → decimal (digits n v) ≡ v
unfolding digits decimal
decimal-digits zero v h = omega arith
decimal-digits (suc n) v h =
    omega (arith, bcd_byte-digits v, decimal-digits n (v / 10 / 10) (omega (arith, pow-suc 100 n)))

length-digits : (n v : ℕ) → length (digits n v) ≡ n
unfolding digits
length-digits zero v = refl
length-digits (suc n) v = ap suc (length-digits n (v / 10 / 10))

bcd_encode_loop-digits :
    (n v : ℕ) (out : List ℕ) → bcd_encode_loop n v out ≡ reverse_aux (digits n v) out
unfolding bcd_encode_loop digits
bcd_encode_loop-digits zero v out = refl
bcd_encode_loop-digits (suc n) v out = bcd_encode_loop-digits n (v / 10 / 10) (bcd_byte v ∷ out)

encoded :
    (size v : ℕ) (d : List ℕ)
    → bcd_encode size (pos v) ≡ some d
    → (0 < size) × (d ≡ reverse (digits size v))
unfolding bcd_encode mark_negative
encoded size v d e = ground (arith, bcd_encode_loop-digits size v [])

-- What `bcd_encode` stores for a number of an `int` from 0 on (and of a `long long`) that has at most two
-- digits a byte, read from its last byte on, is that number.
pub bcd_decode-encode :
    (size v : ℕ) (d : List ℕ)
    → v < 100 ^ size
    → v < 2 ^ 63
    → bcd_encode size (pos v) ≡ some d
    → bcd_decode (reverse d) ≡ pos v
bcd_decode-encode size v d h int e =
    let (some_size, shape) = encoded size v d e in
    rw (shape, reverse-reverse (digits size v))
      (bcd_decode-decimal (digits size v) (omega (arith, length-digits size v))
          (digits-IsDigits size v) (omega (arith, decimal-digits size v h))
        ∙ ap pos (decimal-digits size v h))

-- `bcd_decode` reads the bytes of `bcd_encode` in the wrong order: of a number of four digits it
-- gives back the one with the two halves changed over.
pub bcd_decode-encode_swaps :
    (v : ℕ) (d : List ℕ)
    → v < 10000
    → bcd_encode 2 (pos v) ≡ some d
    → bcd_decode d ≡ pos (v % 100 * 100 + v / 100)
unfolding digits decimal
bcd_decode-encode_swaps v d h e =
    let lo = bcd_byte v in
    let hi = bcd_byte (v / 10 / 10) in
    rw ((encoded 2 v d e).1) (
      bcd_decode-decimal (hi ∷ lo ∷ []) (omega arith)
        (bcd_byte-IsDigits (v / 10 / 10), (bcd_byte-IsDigits v, tt))
        (omega (arith, bcd_byte-digits v, bcd_byte-digits (v / 10 / 10)))
      ∙ ap pos (omega (arith, bcd_byte-digits v, bcd_byte-digits (v / 10 / 10))))

-- The hexadecimal form reads up to eight bytes as a number in base 256, low bytes first.
pub bcd_decode_hex-little_endian :
    (d : List ℕ) → AreBytes d → length d ≤ 8 → bcd_decode_hex d ≡ little_endian d
unfolding bcd_decode_hex little_endian
bcd_decode_hex-little_endian [] h few = refl
bcd_decode_hex-little_endian (b ∷ bs) h few =
    let rest = bcd_decode_hex-little_endian bs h.1 (omega arith) in
    let bound : 256 ^ length bs ≤ 256 ^ 7 = pow-le-pow_right (omega arith) {j = 7} (omega arith) in
    let whole : u64 (bcd_decode_hex bs <<< 8) ≡ bcd_decode_hex bs <<< 8 =
      omega (arith, rest, little_endian-lt bs h.1, bound) in
    rw whole (omega (arith, or_shifted 8 (bcd_decode_hex bs) b h.0, rest))

-- ===== src/Units/Laws/Decimal.antt =====
-- The decimal numbers that C prints read back.
use native.Mathlib.Nat.{pow-suc}
use libmbus.Base.{
  ℕ, zero, suc, ◌+◌, ◌-◌, ◌*◌, ◌/◌, ◌%◌, ◌^◌, ◌<◌, ◌≤◌, ◌≡◌, refl, ap, ◌∙◌, List, [], ◌∷◌, ◌++◌,
  arith, ℤ, pos, negsuc, if◌then◌else◌, ltb, ◌==◌, length, Bool-cases, length-append, All,
  All-append, inl, inr,
}
use libmbus.Units.Prefix.{decimal_digits, print_int}

-- An integer whose absolute value is less than a bound.
unfoldable pub Below : ℕ → ℤ → Type 0
Below bound (pos n) = n < bound
Below bound (negsuc n) = suc n < bound

-- A sequence of decimal digits behind the number `n`.
read_digits : ℕ → List ℕ → ℕ
read_digits n [] = n
read_digits n (c ∷ s) = read_digits (n * 10 + (c - b'0')) s

-- A decimal number, as C reads one.
pub read_int : List ℕ → ℤ
read_int [] = pos 0
read_int (c ∷ s) = if c == b'-' then negsuc (read_digits 0 s - 1) else pos (read_digits 0 (c ∷ s))

read_digits-snoc :
    (s : List ℕ) (n c : ℕ) → read_digits n (s ++ (c ∷ [])) ≡ read_digits n s * 10 + (c - b'0')
unfolding read_digits
read_digits-snoc [] n c = refl
read_digits-snoc (x ∷ s) n c = read_digits-snoc s (n * 10 + (x - b'0')) c

read-decimal :
    (places n : ℕ) → n < 10 ^ suc places → read_digits 0 (decimal_digits (suc places) n) ≡ n
unfolding read_digits decimal_digits
read-decimal zero n h = ground arith
read-decimal (suc places) n h = elim (Bool-cases (ltb n 10)) [
  | inl y ↦ rw y (omega arith)
  | inr y ↦
      rw
        (
          y,
          read_digits-snoc (decimal_digits (suc places) (n / 10)) 0 (b'0' + n % 10),
          read-decimal places (n / 10) (omega (arith, pow-suc 10 (suc places))),
        )
        (omega arith)
]

pub length-decimal : (places n : ℕ) → length (decimal_digits places n) ≤ places
unfolding decimal_digits
length-decimal zero n = omega arith
length-decimal (suc places) n = elim (Bool-cases (ltb n 10)) [
  | inl y ↦ rw y (omega arith)
  | inr y ↦
      rw (y, length-append (decimal_digits places (n / 10)) ((b'0' + n % 10) ∷ []))
        (omega (arith, length-decimal places (n / 10)))
]

-- No digit is a sign.
IsDigit : ℕ → Type 0
IsDigit c = b'0' ≤ c

decimal-IsDigit : (places n : ℕ) → All IsDigit (decimal_digits places n)
unfolding decimal_digits IsDigit
decimal-IsDigit zero n = tt
decimal-IsDigit (suc places) n = elim (Bool-cases (ltb n 10)) [
  | inl y ↦ rw y (omega arith, tt)
  | inr y ↦ rw y (All-append IsDigit _ _ (decimal-IsDigit places (n / 10)) (omega arith, tt))
]

read_int-digits : (s : List ℕ) → All IsDigit s → read_int s ≡ pos (read_digits 0 s)
unfolding read_int read_digits IsDigit
read_int-digits [] h = refl
read_int-digits (c ∷ s) h = ground (arith, h.0)

-- What `%lld` prints of a number of at most twenty digits reads back, and has 21 characters at most.
pub read_int-print_int :
    (i : ℤ) → Below (10 ^ 20) i → (read_int (print_int i) ≡ i) × (length (print_int i) ≤ 21)
unfolding print_int read_int Below
read_int-print_int (pos n) h = (
  read_int-digits _ (decimal-IsDigit 20 n) ∙ ap pos (read-decimal 19 n h),
  omega (arith, length-decimal 20 n),
)
read_int-print_int (negsuc n) h = (
  ap (λ t. negsuc (t - 1)) (read-decimal 19 (suc n) h) ∙ ap negsuc (omega arith),
  omega (arith, length-decimal 20 (suc n)),
)

-- ===== src/Master/Scan/Digits.antt =====
-- Putting each digit in the place of a wildcard divides the slaves that match.
use libmbus.Base.{
  ℕ, zero, suc, ◌+◌, ◌≡◌, refl, ap₂, ◌∙◌, arith, Bool, true, false, ◌&&◌, List, [], ◌∷◌, All, ◌==◌,
  byte_at, set,
}
use libmbus.Address.{isxdigit}
use libmbus.Codec.Text.{digit_value}
use libmbus.Master.Scan.{is_wildcard, ten_digits}
use libmbus.Master.Scan.Slaves.{matches, bit, tally, IsDigit}

abbrev pub sum {ℓ} : {A : Type ℓ} → (A → ℕ) → List A → ℕ
sum f [] = 0
sum f (x ∷ xs) = f x + sum f xs

no_wildcard : is_wildcard 0 ≡ true → ⊥
unfolding is_wildcard
no_wildcard w = ground arith

-- A digit in the place of a wildcard.
matches-set :
    (n c : ℕ) (m a : List ℕ)
    → is_wildcard (byte_at m n) ≡ true
    → is_wildcard c ≡ false
    → matches (set m n c) a ≡ (c == byte_at a n && matches m a)
matches-set n c [] a w d = absurd (no_wildcard w)
matches-set zero c (x ∷ m) [] w d = ground arith
matches-set (suc n) c (x ∷ m) [] w d = ground arith
matches-set zero c (x ∷ m) (y ∷ a) w d = ground arith
matches-set (suc n) c (x ∷ m) (y ∷ a) w d = ground (arith, matches-set n c m a w d)

digit_sum : (y : ℕ) (b : Bool) → IsDigit y → sum (λ c. bit (c == y && b)) ten_digits ≡ bit b
digit_sum y b h = ground arith

module _ {ℓ} {A : Type ℓ} where
  sum-add : (f g : A → ℕ) (xs : List A) → sum (λ x. f x + g x) xs ≡ sum f xs + sum g xs
  sum-add f g [] = omega arith
  sum-add f g (x ∷ xs) = omega (arith, sum-add f g xs)

  sum-zero : (xs : List A) → sum (λ x. 0) xs ≡ 0
  sum-zero [] = refl
  sum-zero (x ∷ xs) = omega (arith, sum-zero xs)

  sum-ap :
      {P : A → Type 0} (f g : A → ℕ)
      → ((x : A) → P x → f x ≡ g x)
      → (xs : List A) → All P xs
      → sum f xs ≡ sum g xs
  sum-ap f g e [] h = refl
  sum-ap f g e (x ∷ xs) h = omega (arith, e x h.0, sum-ap f g e xs h.1)

-- Characters that a mask may have and that are no wildcards.
abbrev pub IsFixed : ℕ → Type 0
IsFixed c = (is_wildcard c ≡ false) × (isxdigit c ≡ true)

pub ten_digits-Fixed : All IsFixed ten_digits
unfolding is_wildcard isxdigit digit_value
ten_digits-Fixed = (
  (refl, refl),
  (
    (refl, refl),
    (
      (refl, refl),
      (
        (refl, refl),
        (
          (refl, refl),
          ((refl, refl), ((refl, refl), ((refl, refl), ((refl, refl), ((refl, refl), tt))))),
        ),
      ),
    ),
  ),
)

one_slave :
    (p : List ℕ → Bool) (n : ℕ) (m a : List ℕ)
    → is_wildcard (byte_at m n) ≡ true
    → IsDigit (byte_at a n)
    → sum (λ c. bit (p a && matches (set m n c) a)) ten_digits ≡ bit (p a && matches m a)
one_slave p n m a w d =
    sum-ap (λ c. bit (p a && matches (set m n c) a))
      (λ c. bit (c == byte_at a n && (p a && matches m a)))
      (λ c (f : IsFixed c). rw (matches-set n c m a w f.0) (ground arith)) ten_digits
      ten_digits-Fixed
    ∙ digit_sum (byte_at a n) (p a && matches m a) d

-- Over the ten masks with a digit for the wildcard, each slave that matches is counted once.
pub ten_digits-tally :
    (p : List ℕ → Bool) (n : ℕ) (m : List ℕ) (slaves : List (List ℕ))
    → is_wildcard (byte_at m n) ≡ true
    → All (λ a. IsDigit (byte_at a n)) slaves
    → sum (λ c. tally (λ a. p a && matches (set m n c) a) slaves) ten_digits
      ≡ tally (λ a. p a && matches m a) slaves
ten_digits-tally p n m [] w d = sum-zero ten_digits
ten_digits-tally p n m (a ∷ slaves) w d =
    sum-add (λ c. bit (p a && matches (set m n c) a))
      (λ c. tally (λ a. p a && matches (set m n c) a) slaves) ten_digits
    ∙ ap₂ (λ x y. x + y) (one_slave p n m a w d.0) (ten_digits-tally p n m slaves w d.1)

-- ===== src/Units/Laws/Check.antt =====
-- How an entry of a table and a printed unit are compared with what a code means, by evaluation.
use package.text.Mathlib.Text.{◌==◌ as same_string}
use package.text.Mathlib.TextEquality.{eq_iff}
use libmbus.Base.{
  ℕ, zero, suc, ◌<◌, ◌≡◌, refl, ap, ap₂, Bool, true, false, ◌&&◌, List, [], ◌∷◌, ℤ, pos, negsuc,
  arith, Option, none, some, of_some, subst, ◌==◌,
}
use libmbus.Units.Text.{text}
use libmbus.Units.Table.Entry.{VariableVif, decimal}
use libmbus.Units.Laws.Standard.{Meaning}

unfoldable pub same_list : List ℕ → List ℕ → Bool
same_list [] [] = true
same_list [] (y ∷ ys) = false
same_list (x ∷ xs) [] = false
same_list (x ∷ xs) (y ∷ ys) = x == y && same_list xs ys

same_list→eq : (xs ys : List ℕ) → same_list xs ys ≡ true → xs ≡ ys
unfolding same_list
same_list→eq [] [] e = refl
same_list→eq [] (y ∷ ys) e = absurd (ground arith)
same_list→eq (x ∷ xs) [] e = absurd (ground arith)
same_list→eq (x ∷ xs) (y ∷ ys) e = ap₂ ◌∷◌ (ground arith) (same_list→eq xs ys (ground arith))

unfoldable pub same_int : ℤ → ℤ → Bool
same_int (pos m) (pos n) = m == n
same_int (negsuc m) (negsuc n) = m == n
same_int (pos m) (negsuc n) = false
same_int (negsuc m) (pos n) = false

same_int→eq : (i j : ℤ) → same_int i j ≡ true → i ≡ j
unfolding same_int
same_int→eq (pos m) (pos n) e = ap pos (ground arith)
same_int→eq (negsuc m) (negsuc n) e = ap negsuc (ground arith)
same_int→eq (pos m) (negsuc n) e = absurd (ground arith)
same_int→eq (negsuc m) (pos n) e = absurd (ground arith)

unfoldable pub agrees : Meaning → Option VariableVif → List ℕ → Bool
agrees m none t = false
agrees m (some e) t =
    (e.exponent.mantissa == 1)
    && same_int e.exponent.power m.power
    && same_string e.unit m.unit
    && same_string e.quantity m.quantity
    && same_list t m.shown

-- The entry that was found has the unit, the quantity and the power of ten; the text has them too.
unfoldable pub Agrees : Meaning → Option VariableVif → List ℕ → Type 0
Agrees m o t =
    (e : VariableVif) × (o ≡ some e)
    × (e.exponent ≡ decimal 1 m.power)
    × (e.unit ≡ m.unit)
    × (e.quantity ≡ m.quantity)
    × (t ≡ m.shown)

pub agrees→Agrees :
    (m : Meaning) (o : Option VariableVif) (t : List ℕ) → agrees m o t ≡ true → Agrees m o t
unfolding agrees Agrees
agrees→Agrees m none t h = absurd (ground arith)
agrees→Agrees m (some e) t h =
    let one : e.exponent.mantissa ≡ 1 = ground arith in
    let power : same_int e.exponent.power m.power ≡ true = ground arith in
    let unit : same_string e.unit m.unit ≡ true = ground arith in
    let quantity : same_string e.quantity m.quantity ≡ true = ground arith in
    let out : same_list t m.shown ≡ true = ground arith in
    (
      e,
      refl,
      ap₂ decimal one (same_int→eq _ _ power),
      (eq_iff _ _).0 unit,
      (eq_iff _ _).0 quantity,
      same_list→eq _ _ out,
    )

-- A code that has a meaning agrees with it.
unfoldable pub check : Option Meaning → Option VariableVif → List ℕ → Bool
check none o t = true
check (some m) o t = agrees m o t

pub check→Agrees :
    (w : Option Meaning) (o : Option VariableVif) (t : List ℕ)
    → check w o t ≡ true
    → (m : Meaning) → w ≡ some m
    → Agrees m o t
unfolding check
check→Agrees none o t h m e = absurd (ground arith)
check→Agrees (some w) o t h m e = subst (λ x. Agrees x o t) (of_some w m e) (agrees→Agrees w o t h)

unfoldable pub all_below : (ℕ → Bool) → ℕ → Bool
all_below f zero = true
all_below f (suc n) = f n && all_below f n

pub all_below→true : (f : ℕ → Bool) (n : ℕ) → all_below f n ≡ true → (k : ℕ) → k < n → f k ≡ true
unfolding all_below
all_below→true f zero e k h = absurd (omega arith)
all_below→true f (suc n) e k h = ground (arith, all_below→true f n (ground arith) k)

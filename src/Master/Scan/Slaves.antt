-- ===== src/Master/Scan/Slaves.antt =====
-- The slaves of a bus by their secondary addresses, and what a probe of a mask ought to find.
use libmbus.Base.{
  ℕ, zero, suc, ◌+◌, ◌≤◌, ◌<◌, ◌≡◌, ◌≢◌, refl, sym, ap₂, ◌∙◌, arith, Bool, true, false, ◌&&◌, ◌||◌,
  List, [], ◌∷◌, ◌++◌, All, if◌then◌else◌, ◌==◌, length, Bool-cases, inl, inr, byte_at, set,
}
use libmbus.Master.Select.{Finding, nothing, single, collision}
use libmbus.Master.Scan.{is_wildcard}

-- Does the address match the mask?
abbrev pub matches : List ℕ → List ℕ → Bool
matches [] [] = true
matches [] (y ∷ ys) = false
matches (c ∷ m) [] = false
matches (c ∷ m) (y ∷ ys) = (is_wildcard c || c == y) && matches m ys

abbrev pub bit : Bool → ℕ
bit b = if b then 1 else 0

module _ {ℓ} {A : Type ℓ} where
  -- The number of elements with a property.
  abbrev pub tally : (A → Bool) → List A → ℕ
  tally p [] = 0
  tally p (x ∷ xs) = bit (p x) + tally p xs

  abbrev pub those : (A → Bool) → List A → List A
  those q [] = []
  those q (x ∷ xs) = if q x then x ∷ those q xs else those q xs

  pub tally-append : (p : A → Bool) (xs ys : List A) → tally p (xs ++ ys) ≡ tally p xs + tally p ys
  tally-append p [] ys = omega arith
  tally-append p (x ∷ xs) ys = omega (arith, tally-append p xs ys)

  pub tally-those :
      (p q : A → Bool) (xs : List A) → tally p (those q xs) ≡ tally (λ x. p x && q x) xs
  tally-those p q [] = refl
  tally-those p q (x ∷ xs) = elim (Bool-cases (q x)) [
    | inl e ↦ rw e (ground (arith, tally-those p q xs))
    | inr e ↦ rw e (ground (arith, tally-those p q xs))
  ]

  pub length-those : (q : A → Bool) (xs : List A) → length (those q xs) ≡ tally q xs
  length-those q [] = refl
  length-those q (x ∷ xs) = elim (Bool-cases (q x)) [
    | inl e ↦ rw e (omega (arith, length-those q xs))
    | inr e ↦ rw e (omega (arith, length-those q xs))
  ]

-- What a probe ought to find: no slave, the address of the only one, or that there are several.
abbrev pub only : List (List ℕ) → Finding
only [] = (nothing, [])
only (a ∷ []) = (single, a)
only (a ∷ b ∷ bs) = (collision, [])

-- A character that the scan puts in the place of a wildcard.
abbrev pub IsDigit : ℕ → Type 0
IsDigit c = (48 ≤ c) × (c < 58)

abbrev pub Distinct : List (List ℕ) → Type 0
Distinct [] = Unit {0}
Distinct (a ∷ bs) = All (λ b. a ≢ b) bs × Distinct bs

-- The first characters of the mask are no wildcards.
abbrev pub Determined : ℕ → List ℕ → Type 0
Determined zero m = Unit {0}
Determined (suc n) [] = Unit {0}
Determined (suc n) (c ∷ m) = (is_wildcard c ≡ false) × Determined n m

pub Determined-step :
    (n : ℕ) (m : List ℕ) → Determined n m → is_wildcard (byte_at m n) ≡ false → Determined (suc n) m
Determined-step zero [] d w = tt
Determined-step zero (c ∷ m) d w = (w, tt)
Determined-step (suc n) [] d w = tt
Determined-step (suc n) (c ∷ m) d w = (d.0, Determined-step n m d.1 w)

pub set-Determined :
    (n c : ℕ) (m : List ℕ) → Determined n m → is_wildcard c ≡ false → Determined (suc n) (set m n c)
set-Determined zero c [] d w = tt
set-Determined zero c (x ∷ m) d w = (w, tt)
set-Determined (suc n) c [] d w = tt
set-Determined (suc n) c (x ∷ m) d w = (d.0, set-Determined n c m d.1 w)

-- A mask without wildcards matches itself only.
Determined-matches :
    (n : ℕ) (m a : List ℕ) → length m ≤ n → Determined n m → matches m a ≡ true → m ≡ a
Determined-matches n [] [] l d h = refl
Determined-matches n [] (y ∷ ys) l d h = absurd (cc)
Determined-matches n (c ∷ m) [] l d h = absurd (cc)
Determined-matches zero (c ∷ m) (y ∷ ys) l d h = absurd (omega arith)
Determined-matches (suc n) (c ∷ m) (y ∷ ys) l d h =
    let f : (c ≡ y) × (matches m ys ≡ true) = both d.0 h in
    ap₂ (λ x l. x ∷ l) f.0 (Determined-matches n m ys (omega arith) d.1 f.1)
  where
    both :
        is_wildcard c ≡ false
        → ((is_wildcard c || c == y) && matches m ys) ≡ true
        → (c ≡ y) × (matches m ys ≡ true)
    both d h = ground arith

-- Of distinct slaves at most one matches it.
pub Determined-tally :
    (n : ℕ) (m : List ℕ) (slaves : List (List ℕ))
    → length m ≤ n
    → Determined n m
    → Distinct slaves
    → tally (matches m) slaves ≤ 1
Determined-tally n m [] l d distinct = omega arith
Determined-tally n m (a ∷ bs) l d distinct = elim (Bool-cases (matches m a)) [
  | inr e ↦ rw e (omega (arith, Determined-tally n m bs l d distinct.1))
  | inl e ↦ rw e (omega (arith, others_miss bs (Determined-matches n m a l d e) distinct.0))
]
  where
    others_miss : (bs : List (List ℕ)) → m ≡ a → All (λ b. a ≢ b) bs → tally (matches m) bs ≡ 0
    others_miss [] e h = refl
    others_miss (b ∷ bs) e h = elim (Bool-cases (matches m b)) [
      | inl f ↦ absurd (h.0 (sym e ∙ Determined-matches n m b l d f))
      | inr f ↦ rw f (omega (arith, others_miss bs e h.1))
    ]

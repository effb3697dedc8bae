-- ===== src/Data/Outcome.antt =====
-- How a C function that reads and writes arrays can end.
use libmbus.Base.{
  ℕ, zero, suc, ◌+◌, ◌≡◌, ◌≢◌, refl, subst, ◌⊎◌, inl, inr, [], ◌∷◌, Bool, true, false, List, none,
  some, get_elem?, arith, if◌then◌else◌,
}

-- `refused` is the return code -1. A `fault` is a read or a write outside an array, of which C does
-- not say what happens. `exhausted` says that the fuel of a loop was used up.
pub data Outcome {ℓ} (A : Type ℓ) : Type ℓ where
  done : A → Outcome A
  refused fault exhausted : Outcome A

infixl 5 ◌>>=◌ ◌>>◌
abbrev pub ◌>>=◌ {ℓ κ} : {A : Type ℓ} {B : Type κ} → Outcome A → (A → Outcome B) → Outcome B
done a >>= f = f a
refused >>= f = refused
fault >>= f = fault
exhausted >>= f = exhausted

abbrev pub ◌>>◌ {ℓ} : {B : Type ℓ} → Outcome (Unit {0}) → Outcome B → Outcome B
m >> k = m >>= λ _. k

-- `frame->data[i]`
unfoldable pub read : List ℕ → ℕ → Outcome ℕ
read d i = elim (get_elem? d i) [ some b ↦ done b | none ↦ fault ]

-- `return -1` unless the test holds.
unfoldable pub check : Bool → Outcome (Unit {0})
check true = done tt
check false = refused

-- A write that is in bounds only if the test holds.
unfoldable pub in_bounds : Bool → Outcome (Unit {0})
in_bounds true = done tt
in_bounds false = fault

-- `for (j = 0; j < n; j++) dst[j] = frame->data[i++]`, with room for all of them in `dst`.
unfoldable pub read_all : List ℕ → ℕ → ℕ → Outcome (List ℕ)
read_all d i zero = done []
read_all d i (suc n) = do b ← read d i; bs ← read_all d (i + 1) n; done (b ∷ bs)

-- What holds of the result, where there is one; `F` is what is allowed as a reason for a fault.
abbrev pub Ends {ℓ} : {A : Type ℓ} → Type 0 → (A → Type 0) → Outcome A → Type 0
Ends F P (done a) = P a
Ends F P refused = Unit
Ends F P fault = F
Ends F P exhausted = ⊥

pub record Meets {ℓ} {A : Type ℓ} (F : Type 0) (P : A → Type 0) (m : Outcome A) : Type 0 where
  pub ends : Ends F P m

Ends-bind {ℓ κ} :
    {A : Type ℓ} {B : Type κ} (F : Type 0) (P : A → Type 0) (Q : B → Type 0) (m : Outcome A)
    (f : A → Outcome B)
    → Ends F P m
    → ((a : A) → P a → Ends F Q (f a))
    → Ends F Q (m >>= f)
Ends-bind F P Q (done a) f h k = k a h
Ends-bind F P Q refused f h k = tt
Ends-bind F P Q fault f h k = h
Ends-bind F P Q exhausted f h k = absurd h

pub Meets-bind {ℓ κ} :
    {A : Type ℓ} {B : Type κ} {F : Type 0} {P : A → Type 0} {Q : B → Type 0} {m : Outcome A}
    {f : A → Outcome B}
    → Meets F P m
    → ((a : A) → P a → Meets F Q (f a))
    → Meets F Q (m >>= f)
Meets-bind {F = F} {P = P} {Q = Q} {m = m} {f = f} h k = record {
  ends = Ends-bind F P Q m f h.ends (λ a p. (k a p).ends);
}

pub check-Meets : {F : Type 0} (b : Bool) → Meets F (λ _. b ≡ true) (check b)
unfolding check
check-Meets true = record { ends = refl }
check-Meets false = record { ends = tt }

pub in_bounds-Meets :
    {F : Type 0} (b : Bool) → F ⊎ (b ≡ true) → Meets F (λ _. b ≡ true) (in_bounds b)
unfolding in_bounds
in_bounds-Meets true h = record { ends = refl }
in_bounds-Meets false (inl f) = record { ends = f }
in_bounds-Meets false (inr h) = ground arith

pub Meets-if {ℓ} :
    {A : Type ℓ} {F : Type 0} {P : A → Type 0} (b : Bool) {m n : Outcome A}
    → (b ≡ true → Meets F P m)
    → (b ≡ false → Meets F P n)
    → Meets F P (if b then m else n)
Meets-if true h k = h refl
Meets-if false h k = k refl

pub Meets-done {ℓ} : {A : Type ℓ} {F : Type 0} {P : A → Type 0} {a : A} → P a → Meets F P (done a)
Meets-done h = record { ends = h }

pub Meets-refused {ℓ} : {A : Type ℓ} {F : Type 0} {P : A → Type 0} → Meets F P refused
Meets-refused = record { ends = tt }

Ends-not_exhausted {ℓ} :
    {A : Type ℓ} (F : Type 0) (P : A → Type 0) (m : Outcome A) → Ends F P m → m ≢ exhausted
Ends-not_exhausted F P m h e = subst (Ends F P) e h

pub not_exhausted {ℓ} :
    {A : Type ℓ} {F : Type 0} {P : A → Type 0} {m : Outcome A} → Meets F P m → m ≢ exhausted
not_exhausted {F = F} {P = P} {m = m} h = Ends-not_exhausted F P m h.ends

Ends-settled {ℓ} :
    {A : Type ℓ} (P : A → Type 0) (m : Outcome A)
    → Ends ⊥ P m
    → ((a : A) × (m ≡ done a)) ⊎ (m ≡ refused)
Ends-settled P (done a) h = inl (a, refl)
Ends-settled P refused h = inr refl
Ends-settled P fault h = absurd h
Ends-settled P exhausted h = absurd h

pub settled {ℓ} :
    {A : Type ℓ} {P : A → Type 0} {m : Outcome A}
    → Meets ⊥ P m
    → ((a : A) × (m ≡ done a)) ⊎ (m ≡ refused)
settled {P = P} {m = m} h = Ends-settled P m h.ends

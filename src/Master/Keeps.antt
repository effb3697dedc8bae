-- ===== src/Master/Keeps.antt =====
-- What a computation on the state of a transport keeps: an invariant `I` of the state and a property
-- of the result; `F` is what is allowed as a reason for having no result.
use libmbus.Base.{Bool, true, false, ◌≡◌, refl, Option, none, some, if◌then◌else◌}
use libmbus.Master.Handle.{Run, ◌>>=◌, after}

abbrev pub Holds {ℓ} :
    {S : Type 0} {A : Type ℓ} → Type 0 → (S → Type 0) → (A → Type 0) → Option (A × S) → Type 0
Holds F I P none = F
Holds F I P (some (a, s)) = P a × I s

pub record Keeps {ℓ} {S : Type 0} {A : Type ℓ} (F : Type 0) (I : S → Type 0) (P : A → Type 0)
    (m : Run S A) : Type 0 where
  pub keeps : (s : S) → I s → Holds F I P (m s)

Holds-after {ℓ κ} :
    {S : Type 0} {A : Type ℓ} {B : Type κ} (F : Type 0) (I : S → Type 0) (P : A → Type 0)
    (Q : B → Type 0) (o : Option (A × S)) (k : A → Run S B)
    → Holds F I P o
    → ((a : A) → P a → Keeps F I Q (k a))
    → Holds F I Q (after o k)
Holds-after F I P Q none k h g = h
Holds-after F I P Q (some (a, s)) k h g = (g a h.0).keeps s h.1

pub Keeps-bind {ℓ κ} :
    {S : Type 0} {A : Type ℓ} {B : Type κ} {F : Type 0} {I : S → Type 0} {P : A → Type 0}
    {Q : B → Type 0} {m : Run S A} {k : A → Run S B}
    → Keeps F I P m
    → ((a : A) → P a → Keeps F I Q (k a))
    → Keeps F I Q (m >>= k)
Keeps-bind {F = F} {I = I} {P = P} {Q = Q} {m = m} {k = k} h g = record {
  keeps = λ s i. Holds-after F I P Q (m s) k (h.keeps s i) g;
}

pub Keeps-ret {ℓ} :
    {S : Type 0} {A : Type ℓ} {F : Type 0} {I : S → Type 0} {P : A → Type 0} (a : A)
    → P a
    → Keeps F I P (λ s. some (a, s))
Keeps-ret a h = record { keeps = λ s i. (h, i) }

pub Keeps-weaken {ℓ} :
    {S : Type 0} {A : Type ℓ} {F : Type 0} {I : S → Type 0} {P Q : A → Type 0} {m : Run S A}
    → Keeps F I P m
    → ((a : A) → P a → Q a)
    → Keeps F I Q m
Keeps-weaken {F = F} {I = I} {P = P} {Q = Q} {m = m} k h = record {
  keeps = λ s i. go (m s) (k.keeps s i);
}
  where
    go : (o : _) → Holds F I P o → Holds F I Q o
    go none x = x
    go (some (a, s)) x = (h a x.0, x.1)

pub Keeps-if {ℓ} :
    {S : Type 0} {A : Type ℓ} {F : Type 0} {I : S → Type 0} {P : A → Type 0} (b : Bool)
    {m n : Run S A}
    → (b ≡ true → Keeps F I P m)
    → (b ≡ false → Keeps F I P n)
    → Keeps F I P (if b then m else n)
Keeps-if true h g = h refl
Keeps-if false h g = g refl

-- Where nothing is allowed as a reason for having no result, there is one.
pub Keeps-total {ℓ} :
    {S : Type 0} {A : Type ℓ} {I : S → Type 0} {P : A → Type 0} {m : Run S A}
    → Keeps ⊥ I P m
    → (s : S) → I s
    → (x : A × S) × (m s ≡ some x) × P x.0 × I x.1
Keeps-total {I = I} {P = P} {m = m} k s i = go (m s) refl (k.keeps s i)
  where
    go : (o : _) → m s ≡ o → Holds ⊥ I P o → (x : _) × (m s ≡ some x) × P x.0 × I x.1
    go (some x) e h = (x, e, h.0, h.1)
    go none e h = absurd h

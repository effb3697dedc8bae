-- ===== src/Master/Leads.antt =====
-- What a computation on the state of a transport leads to: it has a result, and the result and the
-- state are related.
use libmbus.Base.{Option, none, some}
use libmbus.Master.Handle.{Run, ◌>>=◌, after}
use libmbus.Master.Keeps.{Keeps, Holds}

abbrev pub Yields {ℓ} : {S : Type 0} {A : Type ℓ} → (A → S → Type 0) → Option (A × S) → Type 0
Yields Q none = ⊥
Yields Q (some (a, s)) = Q a s

pub record Leads {ℓ} {S : Type 0} {A : Type ℓ} (I : S → Type 0) (Q : A → S → Type 0) (m : Run S A)
    : Type 0 where
  pub leads : (s : S) → I s → Yields Q (m s)

Yields-after {ℓ κ} :
    {S : Type 0} {A : Type ℓ} {B : Type κ} (Q : A → S → Type 0) (R : B → S → Type 0)
    (o : Option (A × S)) (k : A → Run S B)
    → Yields Q o
    → ((a : A) → Leads (Q a) R (k a))
    → Yields R (after o k)
Yields-after Q R none k h g = h
Yields-after Q R (some (a, s)) k h g = (g a).leads s h

pub Leads-bind {ℓ κ} :
    {S : Type 0} {A : Type ℓ} {B : Type κ} {I : S → Type 0} {Q : A → S → Type 0}
    {R : B → S → Type 0} {m : Run S A} {k : A → Run S B}
    → Leads I Q m
    → ((a : A) → Leads (Q a) R (k a))
    → Leads I R (m >>= k)
Leads-bind {Q = Q} {R = R} {m = m} {k = k} h g = record {
  leads = λ s i. Yields-after Q R (m s) k (h.leads s i) g;
}

pub Leads-ret {ℓ} :
    {S : Type 0} {A : Type ℓ} {I : S → Type 0} {Q : A → S → Type 0} (a : A)
    → ((s : S) → I s → Q a s)
    → Leads I Q (λ s. some (a, s))
Leads-ret a h = record { leads = h }

-- A fact that does not depend on the state.
pub Leads-given {ℓ} :
    {S : Type 0} {A : Type ℓ} {P : Type 0} {I : S → Type 0} {Q : A → S → Type 0} {m : Run S A}
    → (P → Leads I Q m)
    → Leads (λ s. P × I s) Q m
Leads-given h = record { leads = λ s i. (h i.0).leads s i.1 }

-- A state of which one of several things holds.
pub Leads-some {ℓ} :
    {S X : Type 0} {A : Type ℓ} {P : X → Type 0} {J : X → S → Type 0} {Q : A → S → Type 0}
    {m : Run S A}
    → ((x : X) → P x → Leads (J x) Q m)
    → Leads (λ s. (x : X) × P x × J x s) Q m
Leads-some h = record { leads = λ s i. (h i.0 i.1).leads s i.2 }

pub Leads-Keeps {ℓ} :
    {S : Type 0} {A : Type ℓ} {I : S → Type 0} {P : A → Type 0} {m : Run S A}
    → Leads I (λ a s. P a × I s) m
    → Keeps ⊥ I P m
Leads-Keeps {I = I} {P = P} {m = m} h = record { keeps = λ s i. go (m s) (h.leads s i) }
  where
    go : (o : _) → Yields (λ a s. P a × I s) o → Holds ⊥ I P o
    go none x = x
    go (some (a, s)) x = x

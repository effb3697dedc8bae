-- ===== src/Master/Scan/Complete.antt =====
-- What the scan reports, if each probe tells whether no slave, one slave or more match its mask.
use libmbus.Base.{
  ℕ, zero, suc, ◌+◌, ◌≤◌, ◌<◌, ◌≡◌, refl, sym, ap, ap₂, subst, ◌∙◌, arith, pos, Bool, true, false,
  not, ◌&&◌, List, [], ◌∷◌, ◌++◌, All, ◌==◌, leb, ltb, length, byte_at, set, none,
}
use libmbus.Address.{all_xdigits, isxdigit}
use libmbus.Master.Handle.{Run}
use libmbus.Master.Select.{Finding}
use libmbus.Master.Scan.{
  is_wildcard, ten_digits, Event, progress, called, printed, print_callback, call, Scanned,
  on_probe, try_mask, try_all, scan_position, range, probe_secondary_range,
}
use libmbus.Master.Scan.Slaves.{
  matches, tally, tally-append, tally-those, length-those, those, only, IsDigit, Distinct,
  Determined, Determined-step, set-Determined, Determined-tally,
}
use libmbus.Master.Scan.Digits.{sum, IsFixed, ten_digits-tally, ten_digits-Fixed}
use libmbus.Master.Keeps.{Keeps, Keeps-bind, Keeps-ret, Keeps-if, Keeps-weaken}

-- The addresses that are reported, in their order.
abbrev pub reported : List Event → List (List ℕ)
reported [] = []
reported (progress mask ∷ es) = reported es
reported (called addr mask ∷ es) = addr ∷ reported es
reported (printed addr mask ∷ es) = addr ∷ reported es

reported-append : (xs ys : List Event) → reported (xs ++ ys) ≡ reported xs ++ reported ys
reported-append [] ys = refl
reported-append (progress mask ∷ xs) ys = reported-append xs ys
reported-append (called addr mask ∷ xs) ys = ap (λ l. addr ∷ l) (reported-append xs ys)
reported-append (printed addr mask ∷ xs) ys = ap (λ l. addr ∷ l) (reported-append xs ys)

-- The addresses of the slaves: 16 characters, all digits, and no two of them the same.
pub record Bus (slaves : List (List ℕ)) : Type 0 where
  pub digits : All (λ a. (length a ≡ 16) × All IsDigit a) slaves
  pub distinct : Distinct slaves

-- Whatever one looks for, it is as often among the reported addresses as among the slaves that match.
abbrev pub Reports : List (List ℕ) → List ℕ → List Event → Type 0
Reports slaves mask events =
    (p : List ℕ → Bool) → tally p (reported events) ≡ tally (λ a. p a && matches mask a) slaves

abbrev pub Complete : List (List ℕ) → List ℕ → Scanned → Type 0
Complete slaves mask (result, events) = (result ≡ pos 0) × Reports slaves mask events

digit-at : (a : List ℕ) (n : ℕ) → All IsDigit a → n < length a → IsDigit (byte_at a n)
digit-at [] n h l = absurd (omega arith)
digit-at (x ∷ a) zero h l = h.0
digit-at (x ∷ a) (suc n) h l = digit-at a n h.1 (omega arith)

length-set : (m : List ℕ) (n c : ℕ) → length (set m n c) ≡ length m
length-set [] n c = refl
length-set (x ∷ m) zero c = refl
length-set (x ∷ m) (suc n) c = ap suc (length-set m n c)

-- A mask that can be sent.
abbrev pub IsMask : List ℕ → Type 0
IsMask mask = (length mask ≡ 16) × (all_xdigits mask ≡ true)

set-xdigits :
    (m : List ℕ) (n c : ℕ)
    → all_xdigits m ≡ true
    → isxdigit c ≡ true
    → all_xdigits (set m n c) ≡ true
unfolding all_xdigits
set-xdigits [] n c h d = refl
set-xdigits (x ∷ m) zero c h d = ground arith
set-xdigits (x ∷ m) (suc n) c h d =
    let f : (isxdigit x ≡ true) × (all_xdigits m ≡ true) = ground arith in
    ground (arith, f.0, set-xdigits m n c f.1 d)

set-IsMask : (m : List ℕ) (n c : ℕ) → IsMask m → isxdigit c ≡ true → IsMask (set m n c)
set-IsMask m n c h d = (length-set m n c ∙ h.0, set-xdigits m n c h.1 d)

set-byte_at : (m : List ℕ) (n : ℕ) → set m n (byte_at m n) ≡ m
set-byte_at [] n = refl
set-byte_at (x ∷ m) zero = refl
set-byte_at (x ∷ m) (suc n) = ap (λ l. x ∷ l) (set-byte_at m n)

All-map {ℓ κ μ} :
    {A : Type ℓ} {P : A → Type κ} {Q : A → Type μ}
    → ((a : A) → P a → Q a)
    → (xs : List A) → All P xs
    → All Q xs
All-map f [] h = tt
All-map f (x ∷ xs) h = (f x h.0, All-map f xs h.1)

module _ {S : Type 0} {I : S → Type 0} {probe : List ℕ → Run S Finding} (slaves : List (List ℕ))
    (finds : (mask : List ℕ)
      → IsMask mask
      → Keeps ⊥ I (λ x. x ≡ only (those (matches mask) slaves)) (probe mask)) where
  -- A mask is tried that, on a collision, is searched further.
  on_probe-Reports :
      (deeper : List ℕ → Run S Scanned) (mask : List ℕ) (found : Finding)
      → found ≡ only (those (matches mask) slaves)
      → (2 ≤ tally (matches mask) slaves → Keeps ⊥ I (Complete slaves mask) (deeper mask))
      → Keeps ⊥ I
          (λ r. (r.0 ≡ none) × Reports slaves mask r.1)
          (on_probe probe false deeper print_callback mask found)
  unfolding on_probe call
  on_probe-Reports deeper mask found e d = go (those (matches mask) slaves) refl
    where
      go :
          (matching : List (List ℕ))
          → those (matches mask) slaves ≡ matching
          → Keeps ⊥ I
              (λ r. (r.0 ≡ none) × Reports slaves mask r.1)
              (on_probe probe false deeper print_callback mask found)
      go [] f =
          rw (e ∙ ap only f)
            (Keeps-ret _ (refl, (λ p. ap (tally p) (sym f) ∙ tally-those p (matches mask) slaves)))
      go (a ∷ []) f =
          rw (e ∙ ap only f)
            (Keeps-ret _ (refl, (λ p. ap (tally p) (sym f) ∙ tally-those p (matches mask) slaves)))
      go (a ∷ b ∷ bs) f = rw (e ∙ ap only f) (
          Keeps-bind (d (omega (arith, ap length f, length-those (matches mask) slaves)))
            (λ x c. Keeps-ret _ (refl, c.1)))

  try_mask-Reports :
      (deeper : List ℕ → Run S Scanned) (mask : List ℕ)
      → IsMask mask
      → (2 ≤ tally (matches mask) slaves → Keeps ⊥ I (Complete slaves mask) (deeper mask))
      → Keeps ⊥ I
          (λ r. (r.0 ≡ none) × Reports slaves mask r.1)
          (try_mask probe false deeper print_callback mask)
  unfolding try_mask
  try_mask-Reports deeper mask l d =
      Keeps-bind (finds mask l)
        (λ found e. Keeps-bind (on_probe-Reports deeper mask found e d) (λ r h. Keeps-ret _ h))

  -- The masks with one of the characters at the position, one after the other.
  try_all-Reports :
      (deeper : List ℕ → Run S Scanned) (at : ℕ) (mask cs : List ℕ)
      → All
          (λ c.
            IsMask (set mask at c)
            × (2 ≤ tally (matches (set mask at c)) slaves
                → Keeps ⊥ I (Complete slaves (set mask at c)) (deeper (set mask at c))))
          cs
      → Keeps ⊥ I
          (λ (r : Scanned).
            (r.0 ≡ pos 0)
            × ((p : List ℕ → Bool)
                → tally p (reported r.1)
                  ≡ sum (λ c. tally (λ a. p a && matches (set mask at c) a) slaves) cs))
          (try_all probe false deeper print_callback at mask cs)
  unfolding try_all
  try_all-Reports deeper at mask [] d = Keeps-ret _ (refl, (λ p. refl))
  try_all-Reports deeper at mask (c ∷ cs) d =
      Keeps-bind (try_mask-Reports deeper (set mask at c) d.0.0 d.0.1) (λ tried h. rw h.0 (
        Keeps-bind (try_all-Reports deeper at mask cs d.1) (λ r more. Keeps-ret _ (
          more.0,
          (λ p.
              ap (tally p) (reported-append tried.1 r.1)
              ∙ tally-append p (reported tried.1) (reported r.1)
              ∙ ap₂ (λ x y. x + y) (h.1 p) (more.1 p)),
        ))))

  scan_position-Complete :
      (deeper : List ℕ → Run S Scanned) (at : ℕ) (mask : List ℕ)
      → Bus slaves
      → at < 16
      → IsMask mask
      → Determined at mask
      → ((mask : List ℕ)
          → IsMask mask
          → Determined (suc at) mask
          → (at ≡ 15 → 2 ≤ tally (matches mask) slaves)
          → Keeps ⊥ I (Complete slaves mask) (deeper mask))
      → Keeps ⊥ I (Complete slaves mask) (scan_position probe false deeper print_callback at mask)
  unfolding scan_position
  scan_position-Complete deeper at mask bus inside l d next =
      Keeps-if (is_wildcard (byte_at mask at))
        (λ w.
          Keeps-weaken
            (try_all-Reports deeper at mask ten_digits (
              All-map (λ c (f : IsFixed c). deepens c f.0 (set-IsMask mask at c l f.1)) ten_digits
                ten_digits-Fixed))
            (λ r h. (
              h.0,
              (λ p.
                  h.1 p
                  ∙ ten_digits-tally p at mask slaves w (
                      All-map
                        (λ a (f : (length a ≡ 16) × All IsDigit a).
                          digit-at a at f.1 (omega (arith, f.0)))
                        slaves bus.digits)),
            )))
        (λ w.
          Keeps-if (ltb at 15)
            (λ inner.
              Keeps-bind (next mask l (Determined-step at mask d w) (λ e. absurd (ground arith)))
                (λ x c. Keeps-ret _ (refl, c.1)))
            (λ last.
              Keeps-weaken
                (try_all-Reports deeper at mask (byte_at mask at ∷ [])
                  (deepens (byte_at mask at) w (subst IsMask (sym (set-byte_at mask at)) l), tt))
                (λ r h. (h.0, (λ p. h.1 p ∙ unchanged p)))))
    where
      deepens :
          (c : ℕ)
          → is_wildcard c ≡ false
          → IsMask (set mask at c)
          → IsMask (set mask at c)
            × (2 ≤ tally (matches (set mask at c)) slaves
                → Keeps ⊥ I (Complete slaves (set mask at c)) (deeper (set mask at c)))
      deepens c f v = (v, (λ two. next (set mask at c) v (set-Determined at c mask d f) (λ e. two)))

      unchanged :
          (p : List ℕ → Bool)
          → tally (λ a. p a && matches (set mask at (byte_at mask at)) a) slaves + 0
            ≡ tally (λ a. p a && matches mask a) slaves
      unchanged p =
          omega (arith, ap (λ m. tally (λ a. p a && matches m a) slaves) (set-byte_at mask at))

  range-Complete :
      (left at : ℕ) (mask : List ℕ)
      → Bus slaves
      → 17 ≤ left + at
      → at ≤ 16
      → IsMask mask
      → Determined at mask
      → (at ≡ 16 → 2 ≤ tally (matches mask) slaves)
      → Keeps ⊥ I (Complete slaves mask) (range probe false left at print_callback mask)
  unfolding range
  range-Complete zero at mask bus e inside l d two = absurd (omega arith)
  range-Complete (suc left) at mask bus e inside l d two =
      Keeps-if (not (length mask == 16)) (λ t. absurd (ground (arith, l.0)))
        (λ _.
          Keeps-if (leb 16 at)
            (λ t.
              let last : at ≡ 16 = ground arith in
              absurd (
                omega (
                  arith,
                  two last,
                  Determined-tally at mask slaves (omega (arith, l.0)) d bus.distinct,
                )))
            (λ more.
              scan_position-Complete (range probe false left (at + 1) print_callback) at mask bus
                (ground arith) l d
                (λ mask' l' d' two'.
                  range-Complete left (at + 1) mask' bus (omega arith) (ground arith) l'
                    (subst (λ n. Determined n mask') {x = suc at} (omega arith) d')
                    (λ z. two' (omega arith)))))

  -- The scan from a position of a mask without wildcards before it, over a probe that tells whether no
  -- slave, one slave, or more match: each slave that matches is reported once, and nothing else, and
  -- the result is 0. The addresses of the slaves have digits only, and are distinct.
  pub probe_secondary_range-Complete :
      (at : ℕ) (mask : List ℕ)
      → Bus slaves
      → at < 16
      → IsMask mask
      → Determined at mask
      → Keeps ⊥ I
          (Complete slaves mask)
          (probe_secondary_range probe false (pos at) mask print_callback)
  unfolding probe_secondary_range
  probe_secondary_range-Complete at mask bus inside l d =
      range-Complete 17 at mask bus (omega arith) (omega arith) l d (λ e. absurd (omega arith))

-- ===== src/Master/Guarded/Scanning.antt =====
-- The scan keeps what its probes keep.
use libmbus.Base.{
  ℕ, zero, suc, ◌+◌, ◌≤◌, arith, ℤ, pos, negsuc, Bool, not, List, [], ◌∷◌, ◌==◌, length, leb, ltb,
  set, byte_at, Option, some, none,
}
use libmbus.Master.Handle.{Run}
use libmbus.Master.Select.{nothing, single, collision, failed, Finding}
use libmbus.Master.Scan.{
  Callback, print_callback, is_wildcard, ten_digits, Scanned, on_probe, try_mask, try_all,
  scan_position, range, probe_secondary_range,
}
use libmbus.Master.Keeps.{Keeps, Keeps-bind, Keeps-ret, Keeps-if}
use libmbus.Master.Guarded.{Any}

Keeps-option {ℓ κ} :
    {S : Type 0} {A : Type ℓ} {B : Type κ} {F : Type 0} {I : S → Type 0} {P : A → Type 0}
    (o : Option B) {m : B → Run S A} {n : Run S A}
    → ((b : B) → Keeps F I P (m b))
    → Keeps F I P n
    → Keeps F I P (elim o [ some b ↦ m b | none ↦ n ])
Keeps-option (some b) h g = h b
Keeps-option none h g = g

module _ {S : Type 0} {F : Type 0} {I : S → Type 0} {probe : List ℕ → Run S Finding}
    (has_found_event : Bool) (keeps : (mask : List ℕ) → Keeps F I Any (probe mask)) where
  on_probe-Keeps :
      (deeper : List ℕ → Run S Scanned) (cb : Callback) (mask : List ℕ) (found : Finding)
      → ((mask : List ℕ) → Keeps F I Any (deeper mask))
      → Keeps F I Any (on_probe probe has_found_event deeper cb mask found)
  unfolding on_probe
  on_probe-Keeps deeper cb mask (single, addr) d =
      Keeps-if has_found_event (λ _. Keeps-ret _ tt) (λ _. Keeps-ret _ tt)
  on_probe-Keeps deeper cb mask (collision, addr) d = Keeps-bind (d mask) (λ _ _. Keeps-ret _ tt)
  on_probe-Keeps deeper cb mask (nothing, addr) d = Keeps-ret _ tt
  on_probe-Keeps deeper cb mask (failed, addr) d = Keeps-ret _ tt

  try_mask-Keeps :
      (deeper : List ℕ → Run S Scanned) (cb : Callback) (mask : List ℕ)
      → ((mask : List ℕ) → Keeps F I Any (deeper mask))
      → Keeps F I Any (try_mask probe has_found_event deeper cb mask)
  unfolding try_mask
  try_mask-Keeps deeper cb mask d =
      Keeps-bind (keeps mask)
        (λ found _. Keeps-bind (on_probe-Keeps deeper cb mask found d) (λ _ _. Keeps-ret _ tt))

  try_all-Keeps :
      (deeper : List ℕ → Run S Scanned) (cb : Callback) (at : ℕ) (mask cs : List ℕ)
      → ((mask : List ℕ) → Keeps F I Any (deeper mask))
      → Keeps F I Any (try_all probe has_found_event deeper cb at mask cs)
  unfolding try_all
  try_all-Keeps deeper cb at mask [] d = Keeps-ret _ tt
  try_all-Keeps deeper cb at mask (c ∷ cs) d =
      Keeps-bind (try_mask-Keeps deeper cb (set mask at c) d) (λ tried _.
        Keeps-option tried.0 (λ result. Keeps-ret _ tt)
          (Keeps-bind (try_all-Keeps deeper cb at mask cs d) (λ _ _. Keeps-ret _ tt)))

  scan_position-Keeps :
      (deeper : List ℕ → Run S Scanned) (cb : Callback) (at : ℕ) (mask : List ℕ)
      → ((mask : List ℕ) → Keeps F I Any (deeper mask))
      → Keeps F I Any (scan_position probe has_found_event deeper cb at mask)
  unfolding scan_position
  scan_position-Keeps deeper cb at mask d =
      Keeps-if (is_wildcard (byte_at mask at)) (λ _. try_all-Keeps deeper cb at mask ten_digits d)
        (λ _.
          Keeps-if (ltb at 15) (λ _. Keeps-bind (d mask) (λ _ _. Keeps-ret _ tt))
            (λ _. try_all-Keeps deeper cb at mask (byte_at mask at ∷ []) d))

  -- The position grows from call to call, and from 16 on there is no call.
  range-Keeps :
      (left at : ℕ) (cb : Callback) (mask : List ℕ)
      → 1 ≤ left
      → 17 ≤ left + at
      → Keeps F I Any (range probe has_found_event left at cb mask)
  unfolding range
  range-Keeps zero at cb mask left_one enough = absurd (omega arith)
  range-Keeps (suc left) at cb mask left_one enough =
      Keeps-if (not (length mask == 16)) (λ _. Keeps-ret _ tt)
        (λ _.
          Keeps-if (leb 16 at) (λ _. Keeps-ret _ tt)
            (λ inside.
              scan_position-Keeps (range probe has_found_event left (at + 1) print_callback) cb at
                mask
                (λ mask.
                  range-Keeps left (at + 1) print_callback mask (ground arith) (omega arith))))

  pub probe_secondary_range-Keeps :
      (at : ℤ) (mask : List ℕ) (cb : Callback)
      → Keeps F I Any (probe_secondary_range probe has_found_event at mask cb)
  unfolding probe_secondary_range
  probe_secondary_range-Keeps (negsuc n) mask cb =
      Keeps-if (not (length mask == 16)) (λ _. Keeps-ret _ tt) (λ _. Keeps-ret _ tt)
  probe_secondary_range-Keeps (pos at) mask cb =
      range-Keeps 17 at cb mask (omega arith) (omega arith)

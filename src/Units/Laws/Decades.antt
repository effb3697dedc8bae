-- ===== src/Units/Laws/Decades.antt =====
-- A record whose unit is a power of ten of a unit of the standard: what `mbus_vib_unit_normalize` makes
-- of its value, and what `mbus_vib_unit_lookup` prints.
use libmbus.Base.{
  ℕ, ◌+◌, ◌%◌, ◌<◌, ◌≡◌, ◌⊎◌, inl, inr, refl, subst, false, List, [], ◌∷◌, arith, some, ltb, ◌==◌,
  length, byte_at, bit_and, AreBytes, Bool-cases, ◌≢◌, ==_iff, ltb→lt,
}
use libmbus.Base.Bits.{and_80}
use libmbus.Data.Record.{DataRecord}
use libmbus.Units.Text.{text}
use libmbus.Units.Table.{vif_table, find}
use libmbus.Units.Table.Entry.{VariableVif, decimal}
use libmbus.Units.Double.{Double}
use libmbus.Units.Normalize.{
  Normalized, normalized, of_entry, vif_unit_normalize, vib_lookup, is_corrected,
  vib_unit_normalize,
}
use libmbus.Units.Lookup.{vib_unit_lookup}
use libmbus.Units.Laws.Standard.{
  Meaning, decades, meaning_in, meaning, is_misread, right_meaning, code_of,
}
use libmbus.Units.Laws.Check.{Agrees}
use libmbus.Units.Laws.Agree.{primary_entry, extension_entry, primary-Agrees, fd-Agrees, fb-Agrees}

module _ {ℓ} {W : Type ℓ} ⦃d : Double W⦄ where
  -- What the meaning of a code makes of a value.
  abbrev pub in_unit : Meaning → W → Normalized W
  in_unit m x =
      normalized (text m.unit) (d.times x (d.literal (decimal 1 m.power))) (text m.quantity)

  pub of_entry-in_unit :
      (m : Meaning) (e : VariableVif) (x : W)
      → e.exponent ≡ decimal 1 m.power
      → e.unit ≡ m.unit
      → e.quantity ≡ m.quantity
      → of_entry e x ≡ in_unit m x
  of_entry-in_unit m e x p u q i =
      normalized (text (u i)) (d.times x (d.literal (p i))) (text (q i))

  vif_unit_normalize-in_unit :
      (code : ℕ) (m : Meaning) (t : List ℕ) (x : W)
      → Agrees m (find vif_table (bit_and code 0xF7F)) t
      → vif_unit_normalize code x ≡ in_unit m x
  unfolding vif_unit_normalize Agrees
  vif_unit_normalize-in_unit code m t x (e, found, p, u, q, out) =
      rw (vif_unit_normalize, found) (of_entry-in_unit m e x p u q)

  -- Where the first part gives a unit, there is nothing to correct behind 0xFD and 0xFB and at a VIF
  -- without extension.
  uncorrected :
      (r : DataRecord) (m : Meaning) (x : W)
      → is_corrected r.vif ≡ false
      → vib_lookup r x ≡ in_unit m x
      → vib_unit_normalize r x ≡ in_unit m x
  unfolding vib_unit_normalize
  uncorrected r m x out e = rw (e, out) refl

-- The codes that are tested before the table have no meaning.
not_custom : (m : Meaning) → right_meaning 0x7C ≢ some m
unfolding right_meaning is_misread meaning meaning_in decades
not_custom m e = ground arith

is_corrected-plain : (vif : ℕ) → vif < 128 → is_corrected vif ≡ false
unfolding is_corrected
is_corrected-plain vif h = ground (arith, and_80 vif (omega arith))

module _ {ℓ} {W : Type ℓ} ⦃d : Double W⦄ where
  of_primary :
      (r : DataRecord) (m : Meaning) (x : W)
      → r.vif < 128
      → right_meaning r.vif ≡ some m
      → (vib_unit_normalize r x ≡ in_unit m x) × (vib_unit_lookup r ≡ m.shown)
  unfolding vib_lookup vib_unit_lookup Agrees primary_entry
  of_primary r m x h e =
      let a = primary-Agrees r.vif m h e in
      let custom : (r.vif == 0x7C) ≡ false = elim (Bool-cases (r.vif == 0x7C)) [
        | inl y ↦ absurd (not_custom m (subst (λ v. right_meaning v ≡ some m) ((==_iff _ _).0 y) e))
        | inr n ↦ n
      ] in
      let fd : (r.vif == 0xFD) ≡ false = ground arith in
      let fb : (r.vif == 0xFB) ≡ false = ground arith in
      let fc : (r.vif == 0xFC) ≡ false = ground arith in
      (
        uncorrected r m x (is_corrected-plain r.vif h)
            (rw (fd, fb, custom, fc) (vif_unit_normalize-in_unit _ m _ x a)),
        rw (fd, fb, custom, fc) a.5,
      )

  of_extension :
      (r : DataRecord) (m : Meaning) (x : W) (kind : ℕ)
      → (r.vif ≡ 0xFD) × (kind ≡ 0x100) ⊎ (r.vif ≡ 0xFB) × (kind ≡ 0x200)
      → byte_at r.vife 0 < 256
      → 0 < length r.vife
      → right_meaning (kind + byte_at r.vife 0 % 128) ≡ some m
      → (vib_unit_normalize r x ≡ in_unit m x) × (vib_unit_lookup r ≡ m.shown)
  unfolding vib_lookup vib_unit_lookup Agrees extension_entry is_corrected
  of_extension r m x kind (inl (v, k)) b n e =
      let a =
        fd-Agrees (byte_at r.vife 0) m b
          (subst (λ t. right_meaning (t + byte_at r.vife 0 % 128) ≡ some m) k e) in
      let some_vife : (length r.vife == 0) ≡ false = ground arith in
      (
        uncorrected r m x (rw v refl) (rw (v, some_vife) (vif_unit_normalize-in_unit _ m _ x a)),
        rw (v, some_vife) a.5,
      )
  of_extension r m x kind (inr (v, k)) b n e =
      let a =
        fb-Agrees (byte_at r.vife 0) m b
          (subst (λ t. right_meaning (t + byte_at r.vife 0 % 128) ≡ some m) k e) in
      let some_vife : (length r.vife == 0) ≡ false = ground arith in
      (
        uncorrected r m x (rw v refl) (rw (v, some_vife) (vif_unit_normalize-in_unit _ m _ x a)),
        rw (v, some_vife) a.5,
      )

-- The ways in which a record has a code.
code_of-cases :
    (r : DataRecord) (code : ℕ)
    → code_of r ≡ some code
    → (r.vif < 128) × (code ≡ r.vif)
      ⊎ (kind : ℕ) × ((r.vif ≡ 0xFD) × (kind ≡ 0x100) ⊎ (r.vif ≡ 0xFB) × (kind ≡ 0x200))
        × (0 < length r.vife)
        × (code ≡ kind + byte_at r.vife 0 % 128)
unfolding code_of
code_of-cases r code e = elim (Bool-cases (ltb r.vif 0x80)) [
  | inl y ↦ inl (ltb→lt _ _ y, ground arith)
  | inr n ↦ elim (Bool-cases (ltb 0 (length r.vife))) [
    | inr z ↦ absurd (ground arith)
    | inl z ↦ elim (Bool-cases (r.vif == 0xFD)) [
      | inl fd ↦ inr (0x100, inl ((==_iff _ _).0 fd, refl), ltb→lt _ _ z, ground arith)
      | inr other ↦ elim (Bool-cases (r.vif == 0xFB)) [
        | inl fb ↦ inr (0x200, inr ((==_iff _ _).0 fb, refl), ltb→lt _ _ z, ground arith)
        | inr none_left ↦ absurd (ground arith)
      ]
    ]
  ]
]

pub first_byte : (bs : List ℕ) → AreBytes bs → byte_at bs 0 < 256
first_byte [] h = omega arith
first_byte (b ∷ bs) h = h.0

read_right :
    (code : ℕ) (m : Meaning)
    → meaning code ≡ some m
    → is_misread code ≡ false
    → right_meaning code ≡ some m
unfolding right_meaning
read_right code m e right = rw (right, e) refl

-- A record whose code stands for a power of ten of a unit in the standard, and is not one of 0x208,
-- 0x209, 0x230, 0x231 (behind 0xFB: energy in GJ, power in GJ/h) and 0x279 (a power), which
-- `vif_table` has wrong: `mbus_vib_unit_normalize` returns 0 with the unit and the quantity of the
-- standard and with the value times the power of ten that the code stands for, and
-- `mbus_vib_unit_lookup` prints the words for the code, with the prefix of its power.
pub vib_unit_normalize-lookup {ℓ} :
    {W : Type ℓ} ⦃d : Double W⦄ (r : DataRecord) (x : W) (code : ℕ) (m : Meaning)
    → AreBytes r.vife
    → code_of r ≡ some code
    → meaning code ≡ some m
    → is_misread code ≡ false
    → (vib_unit_normalize r x ≡ in_unit m x) × (vib_unit_lookup r ≡ m.shown)
vib_unit_normalize-lookup r x code m bs at e right =
    let known = read_right code m e right in
    elim (code_of-cases r code at) [
      | inl (h, c) ↦ of_primary r m x h (subst (λ t. right_meaning t ≡ some m) c known)
      | inr (kind, k, n, c) ↦
          of_extension r m x kind k (first_byte r.vife bs) n
            (subst (λ t. right_meaning t ≡ some m) c known)
    ]

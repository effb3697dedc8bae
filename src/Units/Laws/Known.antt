-- ===== src/Units/Laws/Known.antt =====
-- The VIFs that `mbus_vib_unit_normalize` knows.
use libmbus.Base.{
  ℕ, ◌%◌, ◌<◌, ◌≡◌, ◌⊎◌, inl, inr, refl, sym, ap, ◌∙◌, subst, Bool, true, false, not, ◌&&◌, ◌||◌,
  arith, pos, minus_one, Option, none, some, ltb, ◌==◌, length, byte_at, bit_and, AreBytes,
  Option-cases, Bool-cases, if◌then◌else◌, is_zero,
}
use libmbus.Data.Record.{DataRecord}
use libmbus.Units.Table.{vif_table, find}
use libmbus.Units.Table.Entry.{VariableVif}
use libmbus.Units.Table.Primary.{primary_vifs, more_primary_vifs}
use libmbus.Units.Table.Fd.{fd_vifs, electrical_vifs, more_fd_vifs}
use libmbus.Units.Table.Fb.{fb_vifs, reserved_fb_vifs, more_fb_vifs}
use libmbus.Units.Double.{Double}
use libmbus.Units.Normalize.{
  Normalized, correct, vif_unit_normalize, vib_lookup, is_corrected, vib_unit_normalize,
}
use libmbus.Units.Laws.Decades.{first_byte}
use libmbus.Units.Laws.Check.{all_below, all_below→true}
use libmbus.Units.Laws.Agree.{primary_entry, extension_entry}

is_some : Option VariableVif → Bool
is_some none = false
is_some (some e) = true

-- The three VIFs of seven bits that are not in the table.
pub is_absent : ℕ → Bool
is_absent vif = vif % 128 == 0x7B || vif % 128 == 0x7C || vif % 128 == 0x7D

same_bool : Bool → Bool → Bool
same_bool true b = b
same_bool false b = not b

same_bool→eq : (a b : Bool) → same_bool a b ≡ true → a ≡ b
unfolding same_bool
same_bool→eq true b h = sym h
same_bool→eq false b h = ground arith

primary-is_some : (vif : ℕ) → vif < 256 → is_some (primary_entry vif) ≡ not (is_absent vif)
unfolding is_some is_absent same_bool all_below primary_entry find vif_table primary_vifs
    more_primary_vifs fd_vifs electrical_vifs more_fd_vifs fb_vifs reserved_fb_vifs more_fb_vifs
primary-is_some vif h =
    same_bool→eq _ _ (
      all_below→true (λ v. same_bool (is_some (primary_entry v)) (not (is_absent v))) 256 refl vif
        h)

fd-is_some : (vife : ℕ) → vife < 256 → is_some (extension_entry 0x100 vife) ≡ true
unfolding is_some all_below extension_entry find vif_table primary_vifs more_primary_vifs fd_vifs
    electrical_vifs more_fd_vifs fb_vifs reserved_fb_vifs more_fb_vifs
fd-is_some vife h = all_below→true (λ v. is_some (extension_entry 0x100 v)) 256 refl vife h

fb-is_some : (vife : ℕ) → vife < 256 → is_some (extension_entry 0x200 vife) ≡ true
unfolding is_some all_below extension_entry find vif_table primary_vifs more_primary_vifs fd_vifs
    electrical_vifs more_fd_vifs fb_vifs reserved_fb_vifs more_fb_vifs
fb-is_some vife h = all_below→true (λ v. is_some (extension_entry 0x200 v)) 256 refl vife h

pub is_extended : DataRecord → Bool
is_extended r = r.vif == 0xFD || r.vif == 0xFB

-- A VIF that is extended has its extension; another is custom or stands in the table.
pub is_known : DataRecord → Bool
is_known r =
    if is_extended r
    then ltb 0 (length r.vife)
    else not (r.vif % 128 == 0x7B) && not (r.vif % 128 == 0x7D)

module _ {ℓ} {W : Type ℓ} ⦃d : Double W⦄ where
  -- All three places were written.
  pub stores_all : Normalized W → Bool
  stores_all n = elim n.unit_out [
    | some u ↦ elim n.value_out [
      | some x ↦ elim n.quantity_out [ some q ↦ true | none ↦ false ]
      | none ↦ false
    ]
    | none ↦ false
  ]

  abbrev Returns : Normalized W → Bool → Bool → Type 0
  Returns n known stored =
      (n.result ≡ (if known then pos 0 else minus_one)) × (stores_all n ≡ stored)

  vif_unit_normalize-Returns :
      (code : ℕ) (x : W)
      → Returns (vif_unit_normalize code x) (is_some (find vif_table (bit_and code 0xF7F))) true
  unfolding vif_unit_normalize stores_all is_some
  vif_unit_normalize-Returns code x = elim (Option-cases (find vif_table (bit_and code 0xF7F))) [
    | inl e ↦ rw (vif_unit_normalize, e) (refl, refl)
    | inr (v, e) ↦ rw (vif_unit_normalize, e) (refl, refl)
  ]

  vib_lookup-extended :
      (r : DataRecord) (x : W)
      → (r.vif ≡ 0xFD) ⊎ (r.vif ≡ 0xFB)
      → byte_at r.vife 0 < 256
      → Returns (vib_lookup r x) (ltb 0 (length r.vife)) (ltb 0 (length r.vife))
  unfolding vib_lookup extension_entry stores_all
  vib_lookup-extended r x v b = elim (Bool-cases (length r.vife == 0)) [
    | inl y ↦
        let n : ltb 0 (length r.vife) ≡ false = ground arith in
        elim v [ inl e ↦ rw (e, y, n) (refl, refl) | inr e ↦ rw (e, y, n) (refl, refl) ]
    | inr y ↦
        let n : ltb 0 (length r.vife) ≡ true = ground arith in
        elim v [
          | inl e ↦
              let found = fd-is_some (byte_at r.vife 0) b in
              let (code, all) = vif_unit_normalize-Returns _ x in
              rw (e, y, n) (code ∙ ap (λ t. if t then pos 0 else minus_one) found, all)
          | inr e ↦
              let found = fb-is_some (byte_at r.vife 0) b in
              let (code, all) = vif_unit_normalize-Returns _ x in
              rw (e, y, n) (code ∙ ap (λ t. if t then pos 0 else minus_one) found, all)
        ]
  ]

  vib_lookup-plain :
      (r : DataRecord) (x : W)
      → r.vif < 256
      → (r.vif == 0xFD) ≡ false
      → (r.vif == 0xFB) ≡ false
      → Returns (vib_lookup r x) (not (r.vif % 128 == 0x7B) && not (r.vif % 128 == 0x7D)) true
  unfolding vib_lookup primary_entry is_absent stores_all
  vib_lookup-plain r x h fd fb = elim (Bool-cases (r.vif == 0x7C || r.vif == 0xFC)) [
    | inl y ↦
        let in_table : (not (r.vif % 128 == 0x7B) && not (r.vif % 128 == 0x7D)) ≡ true =
          ground arith in
        rw (fd, fb, y, in_table) (refl, refl)
    | inr y ↦
        let in_table : not (is_absent r.vif)
            ≡ (not (r.vif % 128 == 0x7B) && not (r.vif % 128 == 0x7D)) =
          ground arith in
        let (code, all) = vif_unit_normalize-Returns _ x in
        rw (fd, fb, y)
          (
            code ∙ ap (λ t. if t then pos 0 else minus_one) (primary-is_some r.vif h ∙ in_table),
            all,
          )
  ]

  correct-stores_all : (vife : ℕ) (n : Normalized W) → stores_all (correct vife n) ≡ stores_all n
  unfolding stores_all
  correct-stores_all vife n = elim (Option-cases n.value_out) [
    | inl e ↦ rw e refl
    | inr (v, e) ↦ rw e refl
  ]

  -- What is corrected afterwards does not change either.
  vib_unit_normalize-Returns :
      (r : DataRecord) (x : W) (known stored : Bool)
      → Returns (vib_lookup r x) known stored
      → Returns (vib_unit_normalize r x) known stored
  unfolding vib_unit_normalize
  vib_unit_normalize-Returns r x known stored (code, all) =
      elim (Bool-cases (is_zero (vib_lookup r x).result)) [
        | inr z ↦ rw z (code, all)
        | inl z ↦ elim (Bool-cases (is_corrected r.vif)) [
          | inl y ↦ rw (z, y) (code, correct-stores_all _ _ ∙ all)
          | inr y ↦ rw (z, y) (code, all)
        ]
      ]

-- For a VIF and VIFEs that are bytes, `mbus_vib_unit_normalize` returns 0 where the VIF is known: one that
-- is extended has an extension, and another is not 0x7B or 0x7D, with or without the extension
-- bit; else it returns -1. The unit, the value and the quantity are all stored, whatever is
-- returned, unless the VIF is extended and has no extension.
pub vib_unit_normalize-is_known {ℓ} :
    {W : Type ℓ} ⦃d : Double W⦄ (r : DataRecord) (x : W)
    → r.vif < 256
    → AreBytes r.vife
    → ((vib_unit_normalize r x).result ≡ (if is_known r then pos 0 else minus_one))
      × (stores_all (vib_unit_normalize r x) ≡ not (is_extended r && (length r.vife == 0)))
unfolding is_known is_extended
vib_unit_normalize-is_known r x h bs = elim (Bool-cases (r.vif == 0xFD || r.vif == 0xFB)) [
  | inl y ↦
      let stored : ltb 0 (length r.vife) ≡ not (length r.vife == 0) = ground arith in
      rw y (
        vib_unit_normalize-Returns r x _ _ (
          subst (λ t. Returns (vib_lookup r x) (ltb 0 (length r.vife)) t) stored
            (vib_lookup-extended r x (ground arith) (first_byte r.vife bs))))
  | inr y ↦
      rw y
        (vib_unit_normalize-Returns r x _ _ (vib_lookup-plain r x h (ground arith) (ground arith)))
]

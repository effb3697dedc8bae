-- ===== src/Units/Laws/Narrow.antt =====
-- `mbus_variable_value_decode_32` stores the value of `mbus_variable_value_decode` modulo 2^32.
use libmbus.Base.{
  ℕ, ◌≡◌, inl, inr, refl, sym, ap, ◌∙◌, ◌≢◌, Bool, false, arith, ℤ, pos, minus_one, Option, some,
  of_some, Option-cases,
}
use libmbus.Codec.Integer.{int_decode}
use libmbus.Codec.Bcd.{bcd_decode}
use libmbus.Data.Record.{DataRecord}
use libmbus.Units.Double.{Double}
use libmbus.Units.Value.{
  Coding, no_data, int_8, int_16, int_24, int_32, real_32, int_48, int_64, selection, bcd_2, bcd_4,
  bcd_6, bcd_8, variable_length, bcd_12, special, coding, first, is_date, is_date_time, Decoded,
  decoded_real, decoded_int, decoded_bcd, decode_as, variable_value_decode,
}
use libmbus.Units.Value32.{
  u32, Decoded32, stored_int, stored_bcd, decode_32_as, variable_value_decode_32,
}

-- A record whose bytes are a date, so that `mbus_variable_value_decode` gives a text.
unfoldable pub is_point_as : Coding → DataRecord → Bool
is_point_as int_16 r = is_date r
is_point_as int_32 r = is_date_time r
is_point_as int_48 r = is_date_time r
is_point_as _ r = false

unfoldable pub is_point : DataRecord → Bool
is_point r = is_point_as (coding r) r

abbrev snd : Decoded32 → Option ℕ
snd x = x.1

not_stored : (v w : ℕ) → ◌≢◌ {A = Decoded32} (pos 0, some v) (minus_one, some w)
not_stored v w e = ground arith

module _ {ℓ} {W : Type ℓ} ⦃d : Double W⦄ where
  -- One integer is the value of both results.
  abbrev Same : Decoded W → ℕ → Type ℓ
  Same w v = (i : ℤ) × (w ≡ decoded_real (d.of_int i)) × (v ≡ u32 i)

  stored_int-Same :
      (n : ℕ) (r : DataRecord) (v : ℕ) → stored_int n r ≡ (pos 0, some v) → Same (decoded_int n r) v
  unfolding stored_int decoded_int
  stored_int-Same n r v h = elim (Option-cases (int_decode (first n r.content))) [
    | inl e ↦
        let out : stored_int n r ≡ (minus_one, some 0) = rw (stored_int, e) refl in
        absurd (not_stored v 0 (sym h ∙ out))
    | inr (i, e) ↦
        let out : stored_int n r ≡ (pos 0, some (u32 i)) = rw (stored_int, e) refl in
        (i, rw (decoded_int, e) refl, of_some v (u32 i) (ap snd (sym h ∙ out)))
  ]

  stored_bcd-Same :
      (n : ℕ) (r : DataRecord) (v : ℕ) → stored_bcd n r ≡ (pos 0, some v) → Same (decoded_bcd n r) v
  unfolding stored_bcd decoded_bcd
  stored_bcd-Same n r v h = (bcd_decode (first n r.content), refl, of_some v _ (ap snd (sym h)))

  decode_as-Same :
      (c : Coding) (r : DataRecord) (v : ℕ)
      → is_point_as c r ≡ false
      → decode_32_as c r ≡ (pos 0, some v)
      → Same (decode_as c r) v
  unfolding decode_as decode_32_as is_point_as
  decode_as-Same int_8 r v p h = stored_int-Same 1 r v h
  decode_as-Same int_16 r v p h = rw p (stored_int-Same 2 r v h)
  decode_as-Same int_24 r v p h = stored_int-Same 3 r v h
  decode_as-Same int_32 r v p h = rw p (stored_int-Same 4 r v h)
  decode_as-Same bcd_2 r v p h = stored_bcd-Same 1 r v h
  decode_as-Same bcd_4 r v p h = stored_bcd-Same 2 r v h
  decode_as-Same bcd_6 r v p h = stored_bcd-Same 3 r v h
  decode_as-Same bcd_8 r v p h = stored_bcd-Same 4 r v h
  decode_as-Same bcd_12 r v p h = stored_bcd-Same 6 r v h
  decode_as-Same no_data r v p h = absurd (ground arith)
  decode_as-Same real_32 r v p h = absurd (ground arith)
  decode_as-Same int_48 r v p h = absurd (ground arith)
  decode_as-Same int_64 r v p h = absurd (ground arith)
  decode_as-Same selection r v p h = absurd (ground arith)
  decode_as-Same variable_length r v p h = absurd (ground arith)
  decode_as-Same special r v p h = absurd (ground arith)

-- Where `mbus_variable_value_decode_32` returns 0 for a record that is no date, it stored the value
-- modulo 2^32 of the integer that `mbus_variable_value_decode` returns as a `double`, also with 0.
pub variable_value_decode_32-decode {ℓ} :
    {W : Type ℓ} ⦃d : Double W⦄ (r : DataRecord) (v : ℕ)
    → is_point r ≡ false
    → variable_value_decode_32 r ≡ (pos 0, some v)
    → (i : ℤ) × (variable_value_decode r ≡ decoded_real (d.of_int i)) × (v ≡ u32 i)
unfolding variable_value_decode variable_value_decode_32 is_point
variable_value_decode_32-decode r v p h = decode_as-Same (coding r) r v p h

-- ===== src/Units/Laws/Printed.antt =====
-- The integers that `mbus_data_record_decode` prints read back as what was decoded, and those of
-- `mbus_variable_value_decode` are the same.
use native.Mathlib.Nat.{pow-le-pow_right}
use libmbus.Base.{
  ℕ, zero, suc, ◌^◌, ◌<◌, ◌≤◌, ◌≡◌, refl, subst, ap, ◌∙◌, List, [], ◌∷◌, arith, ℤ, pos, negsuc,
  if◌then◌else◌, length, Bool-cases, take_all, AreBytes, Option, none, some, of_some, inl, inr,
}
use libmbus.Codec.Bytes.{little_endian}
use libmbus.Codec.Integer.{int_decode}
use libmbus.Codec.Integer.Laws.{
  twos_complement, FitsBytes, int_decode-FitsBytes, int_decode-twos_complement,
}
use libmbus.Data.Record.{DataRecord}
use libmbus.Units.Double.{Double}
use libmbus.Units.Value.{
  Coding, no_data, int_8, int_16, int_24, int_32, real_32, int_48, int_64, selection, bcd_2, bcd_4,
  bcd_6, bcd_8, variable_length, bcd_12, special, coding, first, is_date, is_date_time, Decoded,
  decoded_real, decoded_int, decode_as, variable_value_decode,
}
use libmbus.Units.Print.{print_decoded, print_as, record_decode, record_value}
use libmbus.Units.Prefix.{print_int}
use libmbus.Units.Text.{snprintf}
use libmbus.Units.Laws.Decimal.{Below, read_int, read_int-print_int}

-- The bytes of the integer that a record holds, if it holds one and is no date.
unfoldable pub int_width_as : Coding → DataRecord → Option ℕ
int_width_as int_8 r = some 1
int_width_as int_16 r = if is_date r then none else some 2
int_width_as int_24 r = some 3
int_width_as int_32 r = if is_date_time r then none else some 4
int_width_as int_48 r = if is_date_time r then none else some 6
int_width_as int_64 r = some 8
int_width_as _ r = none

unfoldable pub int_width : DataRecord → Option ℕ
int_width r = int_width_as (coding r) r

length-first : (n : ℕ) (d : List ℕ) → length (first n d) ≡ n
unfolding first
length-first zero d = refl
length-first (suc n) [] = ap suc (length-first n [])
length-first (suc n) (b ∷ d) = ap suc (length-first n d)

first-AreBytes : (n : ℕ) (d : List ℕ) → AreBytes d → AreBytes (first n d)
unfolding first
first-AreBytes zero d h = tt
first-AreBytes (suc n) [] h = (omega arith, first-AreBytes n [] h)
first-AreBytes (suc n) (b ∷ d) h = (h.0, first-AreBytes n d h.1)

eight_bytes : (n : ℕ) → n ≤ 8 → 256 ^ n ≤ 256 ^ 8
eight_bytes n h = pow-le-pow_right (omega arith) h

fits-Below : (n : ℕ) (i : ℤ) → n ≤ 8 → FitsBytes n i → Below (10 ^ 20) i
unfolding Below
fits-Below n (pos m) h f = omega (arith, eight_bytes n h)
fits-Below n (negsuc m) h f = omega (arith, eight_bytes n h)

-- The first `n` bytes of a record in two's complement, the low bytes first.
abbrev pub int_at : ℕ → DataRecord → ℤ
int_at n r = twos_complement (256 ^ n) (little_endian (first n r.content))

module _ {ℓ} {W : Type ℓ} ⦃d : Double W⦄ where
  -- The integer of the first `n` bytes is printed, and given as a value.
  abbrev Shows : ℕ → DataRecord → List ℕ → Decoded W → Type ℓ
  Shows n r s w = (read_int s ≡ int_at n r) × (w ≡ decoded_real (d.of_int (int_at n r)))

  int-Shows :
      (n : ℕ) (r : DataRecord)
      → 0 < n
      → n ≤ 8
      → AreBytes r.content
      → Shows n r (snprintf 768 (print_decoded n r)) (decoded_int n r)
  unfolding print_decoded decoded_int
  int-Shows n r some_bytes h bs =
      let bytes = first n r.content in
      let are = first-AreBytes n r.content bs in
      let count = length-first n r.content in
      let e : int_decode bytes ≡ some (int_at n r) =
        int_decode-twos_complement bytes (omega (arith, count)) are
        ∙ ap (λ k. some (twos_complement (256 ^ k) (little_endian bytes))) count in
      let fits = int_decode-FitsBytes bytes (int_at n r) are e in
      let (back, short) =
        read_int-print_int (int_at n r) (fits-Below (length bytes) _ (omega (arith, count)) fits) in
      let whole = take_all 767 (print_int (int_at n r)) (omega arith) in
      (rw (print_decoded, e, whole, whole) back, rw (decoded_int, e) refl)

  width-Shows :
      (m n : ℕ) (r : DataRecord)
      → 0 < m
      → m ≤ 8
      → AreBytes r.content
      → some m ≡ some n
      → Shows n r (snprintf 768 (print_decoded m r)) (decoded_int m r)
  width-Shows m n r some_bytes h bs e =
      subst (λ k. Shows k r (snprintf 768 (print_decoded m r)) (decoded_int m r)) (of_some m n e)
        (int-Shows m r some_bytes h bs)

  as-Shows :
      (c : Coding) (r : DataRecord) (n : ℕ)
      → AreBytes r.content
      → int_width_as c r ≡ some n
      → Shows n r (snprintf 768 (print_as d c r)) (decode_as c r)
  unfolding int_width_as print_as decode_as
  as-Shows int_8 r n bs e = width-Shows 1 n r (omega arith) (omega arith) bs e
  as-Shows int_16 r n bs e = elim (Bool-cases (is_date r)) [
    | inl y ↦ absurd (ground arith)
    | inr y ↦ rw y (width-Shows 2 n r (omega arith) (omega arith) bs (ground arith))
  ]
  as-Shows int_24 r n bs e = width-Shows 3 n r (omega arith) (omega arith) bs e
  as-Shows int_32 r n bs e = elim (Bool-cases (is_date_time r)) [
    | inl y ↦ absurd (ground arith)
    | inr y ↦ rw y (width-Shows 4 n r (omega arith) (omega arith) bs (ground arith))
  ]
  as-Shows int_48 r n bs e = elim (Bool-cases (is_date_time r)) [
    | inl y ↦ absurd (ground arith)
    | inr y ↦ rw y (width-Shows 6 n r (omega arith) (omega arith) bs (ground arith))
  ]
  as-Shows int_64 r n bs e = width-Shows 8 n r (omega arith) (omega arith) bs e
  as-Shows no_data r n bs e = absurd (ground arith)
  as-Shows real_32 r n bs e = absurd (ground arith)
  as-Shows selection r n bs e = absurd (ground arith)
  as-Shows bcd_2 r n bs e = absurd (ground arith)
  as-Shows bcd_4 r n bs e = absurd (ground arith)
  as-Shows bcd_6 r n bs e = absurd (ground arith)
  as-Shows bcd_8 r n bs e = absurd (ground arith)
  as-Shows bcd_12 r n bs e = absurd (ground arith)
  as-Shows variable_length r n bs e = absurd (ground arith)
  as-Shows special r n bs e = absurd (ground arith)

-- For a record that holds an integer of `n` bytes and no date, the text of `mbus_data_record_value`
-- reads back as the integer in two's complement that the bytes stand for, and
-- `mbus_variable_value_decode` returns 0 and the same integer as a `double`.
pub record_value-int {ℓ} :
    {W : Type ℓ} ⦃d : Double W⦄ (r : DataRecord) (n : ℕ)
    → AreBytes r.content
    → int_width r ≡ some n
    → (read_int (record_value d r) ≡ int_at n r)
      × (variable_value_decode r ≡ decoded_real (d.of_int (int_at n r)))
unfolding record_value record_decode variable_value_decode int_width
record_value-int ⦃d⦄ r n bs e = as-Shows (coding r) r n bs e

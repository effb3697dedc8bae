-- ===== src/Data/Storage.antt =====
-- `mbus_data_record_storage_number`, `mbus_data_record_tariff`, `mbus_data_record_device` and
-- `mbus_data_record_function` of mbus/mbus-protocol.c.
use libmbus.Base.{
  ℕ, zero, suc, ◌+◌, ◌*◌, ◌/◌, ◌%◌, ◌^◌, ◌<◌, ◌≤◌, ◌<<<◌, ◌>>>◌, ◌≡◌, refl, ap, ap₂, ◌∙◌, ◌&&◌, ltb,
  lt→ltb, List, [], ◌∷◌, length, AreBytes, IsByte, if◌then◌else◌, arith, bit_and, bit_or, Option,
  none, some,
}
use libmbus.Base.Bits.{and_0f, and_40, and_30}
use libmbus.Base.Bits.Or.{or_shifted}
use native.Mathlib.Nat.{pow-suc, pow-le-pow_right, mul-lt-mul_of_pos_right, mul-le-mul_right}
use libmbus.Data.Outcome.{Outcome, done, ◌>>=◌, ◌>>◌, in_bounds}
use libmbus.Data.Record.{DataRecord}

-- `value << k` on an `int` of 32 bits: C says what it is where the result fits.
unfoldable pub shift_int : ℕ → ℕ → Outcome ℕ
shift_int value k = do in_bounds (ltb k 32 && ltb (value * 2 ^ k) (2 ^ 31)); done (value <<< k)

-- The loops over the DIFEs: `field` takes the bits out of a byte, of which `bits` are put at
-- `bit_index`.
unfoldable pub collect : (ℕ → ℕ) → ℕ → List ℕ → ℕ → ℕ → Outcome ℕ
collect field bits [] bit_index result = done result
collect field bits (e ∷ es) bit_index result = do
  part ← shift_int (field e) bit_index
  collect field bits es (bit_index + bits) (bit_or part result)

unfoldable pub storage_bits : ℕ → ℕ
storage_bits e = bit_and e 0x0F

unfoldable pub tariff_bits : ℕ → ℕ
tariff_bits e = bit_and e 0x30 >>> 4

unfoldable pub device_bits : ℕ → ℕ
device_bits e = bit_and e 0x40 >>> 6

-- `mbus_data_record_storage_number`
unfoldable pub storage_number : DataRecord → Outcome ℕ
storage_number r = collect storage_bits 4 r.dife 1 (bit_and r.dif 0x40 >>> 6)

-- `mbus_data_record_tariff`, which returns -1 (`none`) without a DIFE.
unfoldable pub tariff : DataRecord → Outcome (Option ℕ)
tariff r =
    if ltb 0 (length r.dife)
    then (do n ← collect tariff_bits 2 r.dife 0 0; done (some n))
    else done none

-- `mbus_data_record_device`
unfoldable pub device : DataRecord → Outcome (Option ℕ)
device r =
    if ltb 0 (length r.dife)
    then (do n ← collect device_bits 1 r.dife 0 0; done (some n))
    else done none

-- The parts as the digits of a number, the lowest first.
pub digits : (ℕ → ℕ) → ℕ → List ℕ → ℕ
digits field bits [] = 0
digits field bits (e ∷ es) = field e + 2 ^ bits * digits field bits es

pow_pos : (k : ℕ) → 0 < 2 ^ k
pow_pos zero = omega arith
pow_pos (suc k) = omega (arith, pow_pos k, pow-suc 2 k)

pow_two-add : (a b : ℕ) → 2 ^ (a + b) ≡ 2 ^ a * 2 ^ b
pow_two-add a zero = grind (arith)
pow_two-add a (suc b) = grind (arith, pow_two-add a b, pow-suc 2 b, pow-suc 2 (a + b))

-- A part of `bits` bits goes above `k` bits that are there, where an `int` has room for both.
shift_int-fits : (v bits k : ℕ) → v < 2 ^ bits → k + bits ≤ 31 → shift_int v k ≡ done (v * 2 ^ k)
unfolding shift_int in_bounds
shift_int-fits v bits k h fits =
    let room : 2 ^ (k + bits) ≤ 2 ^ 31 = pow-le-pow_right (omega arith) fits in
    let below : v * 2 ^ k < 2 ^ bits * 2 ^ k = mul-lt-mul_of_pos_right h (pow_pos k) in
    rw
      (
        lt→ltb k 32 (omega arith),
        lt→ltb (v * 2 ^ k) (2 ^ 31) (grind (arith, room, below, pow_two-add k bits)),
      )
      refl

grown : (v bits k result : ℕ) → v < 2 ^ bits → result < 2 ^ k → v * 2 ^ k + result < 2 ^ (k + bits)
grown v bits k result h low =
    let whole : suc v * 2 ^ k ≤ 2 ^ bits * 2 ^ k = mul-le-mul_right (2 ^ k) h in
    grind (arith, whole, low, pow_two-add k bits)

next_fits : (k bits n : ℕ) → k + bits * suc n ≤ 31 → (k + bits ≤ 31) × (k + bits + bits * n ≤ 31)
next_fits k bits n h = (grind arith, grind arith)

regroup :
    (k bits v result rest : ℕ)
    → v * 2 ^ k + result + 2 ^ (k + bits) * rest ≡ result + 2 ^ k * (v + 2 ^ bits * rest)
regroup k bits v result rest =
    let p : 2 ^ (k + bits) * rest ≡ 2 ^ k * 2 ^ bits * rest =
      ap (λ (t : ℕ). t * rest) (pow_two-add k bits) in
    grind (arith, p)

-- The bits of one byte in a position that an `int` has.
collect-digits :
    (field : ℕ → ℕ) (bits : ℕ) (es : List ℕ) (k result : ℕ)
    → ((e : ℕ) → e < 256 → field e < 2 ^ bits)
    → AreBytes es
    → result < 2 ^ k
    → k + bits * length es ≤ 31
    → collect field bits es k result ≡ done (result + 2 ^ k * digits field bits es)
unfolding collect digits
collect-digits field bits [] k result small bytes low fits = ap done (omega arith)
collect-digits field bits (e ∷ es) k result small bytes low fits =
    let here : shift_int (field e) k ≡ done (field e * 2 ^ k) =
      shift_int-fits (field e) bits k (small e bytes.0) (next_fits k bits (length es) fits).0 in
    rw
      (
        here,
        or_shifted k (field e) result low,
        collect-digits field bits es (k + bits) (field e * 2 ^ k + result) small bytes.1
            (grown (field e) bits k result (small e bytes.0) low)
            (next_fits k bits (length es) fits).1,
      )
      (ap done (regroup k bits (field e) result (digits field bits es)))

digits-same :
    (f g : ℕ → ℕ) (bits : ℕ) (es : List ℕ)
    → ((e : ℕ) → e < 256 → f e ≡ g e)
    → AreBytes es
    → digits f bits es ≡ digits g bits es
unfolding digits
digits-same f g bits [] same bytes = refl
digits-same f g bits (e ∷ es) same bytes =
    ap₂ (λ x y. x + 2 ^ bits * y) (same e bytes.0) (digits-same f g bits es same bytes.1)

storage_bits-low : (e : ℕ) → e < 256 → storage_bits e ≡ e % 16
unfolding storage_bits
storage_bits-low e h = and_0f e h

tariff_bits-middle : (e : ℕ) → e < 256 → tariff_bits e ≡ e / 16 % 4
unfolding tariff_bits
tariff_bits-middle e h = omega (arith, and_30 e h)

device_bits-high : (e : ℕ) → e < 256 → device_bits e ≡ e / 64 % 2
unfolding device_bits
device_bits-high e h = omega (arith, and_40 e h)

-- `collect` from position 0 on.
collect-whole :
    (f g : ℕ → ℕ) (bits : ℕ) (es : List ℕ)
    → ((e : ℕ) → e < 256 → f e ≡ g e)
    → ((e : ℕ) → e < 256 → f e < 2 ^ bits)
    → AreBytes es
    → bits * length es ≤ 31
    → collect f bits es 0 0 ≡ done (digits g bits es)
collect-whole f g bits es same small bytes fits =
    collect-digits f bits es 0 0 small bytes (omega arith) (omega (arith, fits))
    ∙ ap done (omega (arith, digits-same f g bits es same bytes))

tariff_bits-small : (e : ℕ) → e < 256 → tariff_bits e < 2 ^ 2
tariff_bits-small e h = omega (arith, tariff_bits-middle e h)

device_bits-small : (e : ℕ) → e < 256 → device_bits e < 2 ^ 1
device_bits-small e h = omega (arith, device_bits-high e h)

-- With at most seven DIFEs, `mbus_data_record_storage_number` is the number whose lowest bit is bit
-- 6 of the DIF, and whose further digits to the base 16 are the low halves of the DIFEs.
pub storage_number-digits :
    (r : DataRecord)
    → IsByte r.dif
    → AreBytes r.dife
    → length r.dife ≤ 7
    → storage_number r ≡ done (r.dif / 64 % 2 + 2 * digits (λ e. e % 16) 4 r.dife)
unfolding storage_number
storage_number-digits r byte bytes few =
    let low : (e : ℕ) → e < 256 → storage_bits e < 2 ^ 4 =
      (λ e h. omega (arith, storage_bits-low e h)) in
    collect-digits storage_bits 4 r.dife 1 _ low bytes (omega (arith, and_40 r.dif byte))
      (omega (arith, few))
    ∙ ap done (
        omega (
          arith,
          and_40 r.dif byte,
          digits-same storage_bits (λ e. e % 16) 4 r.dife storage_bits-low bytes,
        ))

-- With at most ten DIFEs, of which one at least is there, `mbus_data_record_tariff` and
-- `mbus_data_record_device` are the numbers whose digits are the bits 4 and 5, and the bit 6, of
-- the DIFEs; without a DIFE both return -1.
pub tariff-device-digits :
    (r : DataRecord)
    → AreBytes r.dife
    → length r.dife ≤ 10
    → (tariff r ≡ (
        if ltb 0 (length r.dife)
        then done (some (digits (λ e. e / 16 % 4) 2 r.dife))
        else done none))
      × (device r ≡ (
          if ltb 0 (length r.dife)
          then done (some (digits (λ e. e / 64 % 2) 1 r.dife))
          else done none))
unfolding tariff device
tariff-device-digits r bytes few =
    let t =
      collect-whole tariff_bits (λ e. e / 16 % 4) 2 r.dife tariff_bits-middle tariff_bits-small
        bytes (omega (arith, few)) in
    let d =
      collect-whole device_bits (λ e. e / 64 % 2) 1 r.dife device_bits-high device_bits-small bytes
        (omega (arith, few)) in
    (rw (t, tariff) refl, rw (d, device) refl)

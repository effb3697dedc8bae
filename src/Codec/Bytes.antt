-- ===== src/Codec/Bytes.antt =====
-- Numbers in base 256, the low bytes first: what the integer codecs are held to.
use libmbus.Base.{
  ℕ, zero, suc, ◌+◌, ◌*◌, ◌/◌, ◌%◌, ◌^◌, ◌<◌, ◌≡◌, refl, ap, List, [], ◌∷◌, arith, length, AreBytes,
}
use native.Mathlib.Nat.{pow-suc}

unfoldable pub little_endian : List ℕ → ℕ
little_endian [] = 0
little_endian (b ∷ bs) = b + 256 * little_endian bs

pub little_endian-lt : (d : List ℕ) → AreBytes d → little_endian d < 256 ^ length d
unfolding little_endian
little_endian-lt [] h = omega arith
little_endian-lt (b ∷ bs) h = omega (arith, little_endian-lt bs h.1, pow-suc 256 (length bs))

-- The bytes of a number.
unfoldable pub to_bytes : ℕ → ℕ → List ℕ
to_bytes zero v = []
to_bytes (suc n) v = (v % 256) ∷ to_bytes n (v / 256)

pub little_endian-to_bytes : (n v : ℕ) → v < 256 ^ n → little_endian (to_bytes n v) ≡ v
unfolding little_endian to_bytes
little_endian-to_bytes zero v h = omega arith
little_endian-to_bytes (suc n) v h =
    omega (arith, little_endian-to_bytes n (v / 256) (omega (arith, pow-suc 256 n)))

pub length-to_bytes : (n v : ℕ) → length (to_bytes n v) ≡ n
unfolding to_bytes
length-to_bytes zero v = refl
length-to_bytes (suc n) v = ap suc (length-to_bytes n (v / 256))

pub to_bytes-AreBytes : (n v : ℕ) → AreBytes (to_bytes n v)
unfolding to_bytes
to_bytes-AreBytes zero v = tt
to_bytes-AreBytes (suc n) v = (omega arith, to_bytes-AreBytes n (v / 256))

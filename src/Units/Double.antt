-- ===== src/Units/Double.antt =====
-- All that the code does with values of type `double`: the arithmetic of the compiler and of the C
-- library, which is not part of this repository.
use libmbus.Base.{ℕ, ℤ, List}
use libmbus.Units.Table.Entry.{Decimal}

-- `power_of_ten` is `pow(10.0, e)`, `of_float` the `float` with the given 32 bits, and `print` what
-- `%f` prints.
pub record Double {ℓ} (W : Type ℓ) : Type ℓ where
  pub literal : Decimal → W
  pub of_int : ℤ → W
  pub times : W → W → W
  pub plus : W → W → W
  pub power_of_ten : ℤ → W
  pub of_float : ℕ → W
  pub print : W → List ℕ

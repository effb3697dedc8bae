-- ===== src/Units/Table/Entry.antt =====
-- `mbus_variable_vif` of mbus/mbus-protocol-aux.c, and the literals of type `double` in its tables.
use Prim.Native.String.{String}
use libmbus.Base.{ℕ, ℤ, pos, sub_ℕ}

-- A literal as it is written, mantissa * 10 ^ power: which `double` the compiler takes for it is left
-- to `Units.Double`.
pub record Decimal : Type 0 where
  pub mantissa : ℕ
  pub power : ℤ

abbrev pub decimal : ℕ → ℤ → Decimal
decimal m p = record { mantissa = m; power = p }

-- `1.0e<n>` and `1.0e-<n>`.
abbrev pub tens : ℕ → Decimal
tens n = decimal 1 (pos n)

abbrev pub tenths : ℕ → Decimal
tenths n = decimal 1 (sub_ℕ 0 n)

-- `<n>.0`
abbrev pub whole : ℕ → Decimal
whole n = decimal n (pos 0)

-- `mbus_variable_vif`
pub record VariableVif : Type 0 where
  pub vif : ℕ
  pub exponent : Decimal
  pub unit : String
  pub quantity : String

abbrev pub entry : ℕ → Decimal → String → String → VariableVif
entry v e u q = record { vif = v; exponent = e; unit = u; quantity = q }

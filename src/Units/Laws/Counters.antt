-- ===== src/Units/Laws/Counters.antt =====
-- The units of the counters of fixed answers: `mbus_fixed_normalize` and `mbus_data_fixed_unit` against
-- the table of the standard that stands above `mbus_data_fixed_unit`.
use Prim.Native.String.{String}
use libmbus.Base.{
  ℕ, ◌%◌, ◌+◌, ◌-◌, ◌<◌, ◌≡◌, refl, sym, ◌∙◌, ◌≢◌, ◌⊎◌, ◌&&◌, ◌||◌, Bool, true, false, not, arith,
  of_some, subst, List, [], ◌∷◌, ◌++◌, ℤ, sub_ℕ, Option, none, some, if◌then◌else◌, leb, ltb, ◌==◌,
  bit_and, inl, inr, Bool-cases,
}
use libmbus.Units.Text.{text, switch, is_among}
use libmbus.Units.Table.{find}
use libmbus.Units.Table.Entry.{VariableVif}
use libmbus.Units.Table.Fixed.{fixed_table}
use libmbus.Units.Double.{Double}
use libmbus.Units.Normalize.{fixed_lookup, fixed_normalize}
use libmbus.Units.Medium.{fixed_unit_text, more_fixed_unit_text, fixed_unit}
use libmbus.Units.Laws.Standard.{Meaning}
use libmbus.Units.Laws.Decades.{in_unit, of_entry-in_unit}
use libmbus.Units.Laws.Check.{
  same_list, same_int, agrees, agrees→Agrees, Agrees, all_below, all_below→true,
}

-- Three codes from `start` on: one, ten and a hundred of the unit that is printed, which is
-- 10^(up - down) of the unit of the table.
pub record Triple : Type 0 where
  pub start : ℕ
  pub up : ℕ
  pub down : ℕ
  pub printed : String
  pub unit : String
  pub quantity : String

abbrev triple : ℕ → ℕ → ℕ → String → String → String → Triple
triple s u d p n q = record { start = s; up = u; down = d; printed = p; unit = n; quantity = q }

-- Energy, power, volume and volume flow.
unfoldable pub triples : List Triple
triples =
    triple 0x02 0 0 "Wh" "Wh" "Energy"
    ∷ triple 0x05 3 0 "kWh" "Wh" "Energy"
    ∷ triple 0x08 6 0 "MWh" "Wh" "Energy"
    ∷ triple 0x0B 3 0 "kJ" "J" "Energy"
    ∷ triple 0x0E 6 0 "MJ" "J" "Energy"
    ∷ triple 0x11 9 0 "GJ" "J" "Energy"
    ∷ triple 0x14 0 0 "W" "W" "Power"
    ∷ triple 0x17 3 0 "kW" "W" "Power"
    ∷ triple 0x1A 6 0 "MW" "W" "Power"
    ∷ triple 0x1D 3 0 "kJ/h" "J/h" "Power"
    ∷ triple 0x20 6 0 "MJ/h" "J/h" "Power"
    ∷ triple 0x23 9 0 "GJ/h" "J/h" "Power"
    ∷ triple 0x26 0 6 "ml" "m^3" "Volume"
    ∷ triple 0x29 0 3 "l" "m^3" "Volume"
    ∷ triple 0x2C 0 0 "m^3" "m^3" "Volume"
    ∷ triple 0x2F 0 6 "ml/h" "m^3/h" "Volume flow"
    ∷ triple 0x32 0 3 "l/h" "m^3/h" "Volume flow"
    ∷ triple 0x35 0 0 "m^3/h" "m^3/h" "Volume flow"
    ∷ []

-- The words for one, ten and a hundred.
abbrev times_ten : ℕ → List ℕ
times_ten n = switch n ((1 ∷ [], text "10 ") ∷ (2 ∷ [], text "100 ") ∷ []) []

abbrev pub meaning_of : Triple → ℕ → Meaning
meaning_of t n = record {
  power = sub_ℕ (n + t.up) t.down;
  unit = t.unit;
  quantity = t.quantity;
  shown = times_ten n ++ text t.printed;
}

unfoldable pub among_triples : List Triple → ℕ → Option Meaning
among_triples [] unit = none
among_triples (t ∷ ts) unit =
    let rest = among_triples ts unit in
    if leb t.start unit && ltb unit (t.start + 3)
    then some (meaning_of t (unit - t.start))
    else rest

-- What the low six bits of a unit byte stand for.
unfoldable pub counter_meaning : ℕ → Option Meaning
counter_meaning = among_triples triples

-- The units at which the library and the standard differ: 100 kJ and 1 MJ are printed the wrong way
-- round, the powers from 10 W on have the factor of 1 W, those in J/h are called an energy, 1 ml/h
-- has the factor of 10 ml/h, and 10 ml/h is missing.
unfoldable pub is_miscounted : ℕ → Bool
is_miscounted unit =
    (leb 0x0D unit && leb unit 0x0E)
    || (leb 0x15 unit && leb unit 0x25)
    || (leb 0x2F unit && leb unit 0x30)

-- The entry for a unit byte that is no time.
unfoldable pub counter_entry : ℕ → Option VariableVif
counter_entry byte =
    if bit_and byte 0x3F == 0
    then none
    else (if bit_and byte 0x3F == 1 then none else find fixed_table (bit_and byte 0x3F))

-- What has a meaning agrees with it exactly if it is not among the miscounted ones.
unfoldable pub exact : Bool → Option Meaning → Option VariableVif → List ℕ → Bool
exact bad none o t = true
exact bad (some m) o t = if bad then not (agrees m o t) else agrees m o t

exact→Agrees :
    (bad : Bool) (w : Option Meaning) (m : Meaning) (o : Option VariableVif) (t : List ℕ)
    → exact bad w o t ≡ true
    → w ≡ some m
    → ((bad ≡ false) × Agrees m o t) ⊎ ((bad ≡ true) × (agrees m o t ≡ false))
unfolding exact
exact→Agrees bad none m o t h e = absurd (ground arith)
exact→Agrees true (some w) m o t h e =
    inr (refl, subst (λ x. agrees x o t ≡ false) (of_some w m e) (ground arith))
exact→Agrees false (some w) m o t h e =
    inl (refl, subst (λ x. Agrees x o t) (of_some w m e) (agrees→Agrees w o t h))

counter-exact :
    (byte : ℕ) (m : Meaning)
    → byte < 256
    → counter_meaning (byte % 64) ≡ some m
    → ((is_miscounted (byte % 64) ≡ false) × Agrees m (counter_entry byte) (fixed_unit byte))
      ⊎ ((is_miscounted (byte % 64) ≡ true)
          × (agrees m (counter_entry byte) (fixed_unit byte) ≡ false))
unfolding exact all_below agrees same_list same_int counter_entry counter_meaning is_miscounted
    among_triples triples find fixed_table fixed_unit fixed_unit_text more_fixed_unit_text switch
    is_among
counter-exact byte m h e =
    exact→Agrees _ _ m _ _
      (all_below→true
        (λ b.
          exact (is_miscounted (b % 64)) (counter_meaning (b % 64)) (counter_entry b)
            (fixed_unit b))
        256 refl byte h)
      e

no_entry : (e : VariableVif) → ◌≢◌ {A = Option VariableVif} none (some e)
no_entry e h = cc

normalized-entry {ℓ} :
    {W : Type ℓ} ⦃d : Double W⦄ (byte : ℕ) (value : ℤ) (m : Meaning)
    → Agrees m (counter_entry byte) (fixed_unit byte)
    → (fixed_normalize byte value ≡ in_unit m (d.of_int value)) × (fixed_unit byte ≡ m.shown)
unfolding Agrees counter_entry fixed_normalize fixed_lookup
normalized-entry ⦃d⦄ byte value m (entry, found, p, u, q, out) =
    elim (Bool-cases (bit_and byte 0x3F == 0)) [
      | inl y ↦
          let gone : counter_entry byte ≡ none = rw y refl in
          absurd (no_entry entry (sym gone ∙ found))
      | inr y ↦ elim (Bool-cases (bit_and byte 0x3F == 1)) [
        | inl z ↦
            let gone : counter_entry byte ≡ none = rw (y, z) refl in
            absurd (no_entry entry (sym gone ∙ found))
        | inr z ↦
            let at : counter_entry byte ≡ find fixed_table (bit_and byte 0x3F) = rw (y, z) refl in
            (rw (y, z, fixed_lookup, sym at ∙ found) (of_entry-in_unit m entry _ p u q), out)
      ]
    ]

-- For every unit byte that stands for energy, power, volume or volume flow (0x02 to 0x37) there are two
-- cases. At 0x0D, 0x0E, 0x15 to 0x25, 0x2F and 0x30 the entry of `fixed_table` or the text that
-- `mbus_data_fixed_unit` prints is not that of the standard. At all others `mbus_fixed_normalize`
-- returns 0 with the unit, the quantity, and the counter times the power of ten of the standard, and
-- `mbus_data_fixed_unit` prints the multiple of that unit with its SI prefix.
pub fixed_normalize-fixed_unit {ℓ} :
    {W : Type ℓ} ⦃d : Double W⦄ (byte : ℕ) (value : ℤ) (m : Meaning)
    → byte < 256
    → counter_meaning (byte % 64) ≡ some m
    → ((is_miscounted (byte % 64) ≡ false)
        × (fixed_normalize byte value ≡ in_unit m (d.of_int value))
        × (fixed_unit byte ≡ m.shown))
      ⊎ ((is_miscounted (byte % 64) ≡ true)
          × (agrees m (counter_entry byte) (fixed_unit byte) ≡ false))
fixed_normalize-fixed_unit byte value m h e = elim (counter-exact byte m h e) [
  | inl (right, a) ↦
      let (value_right, text_right) = normalized-entry byte value m a in
      inl (right, value_right, text_right)
  | inr wrong ↦ inr wrong
]

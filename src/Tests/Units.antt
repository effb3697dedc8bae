-- ===== src/Tests/Units.antt =====
-- Units and values on records, with arithmetic on `double` as terms.
use libmbus.Base.{
  ℕ, ◌<◌, ◌-◌, ◌^◌, ◌%◌, ◌+◌, ◌*◌, ◌/◌, ◌≡◌, ◌⊎◌, true, false, refl, [], ◌∷◌, ◌&&◌, ◌==◌, not,
  arith, length, ℤ, pos, negsuc, minus_one, if◌then◌else◌, some, none, Bool,
}
use libmbus.Data.Record.{DataRecord}
use libmbus.Units.Table.Entry.{Decimal}
use libmbus.Units.Double.{Double}
use libmbus.Units.Text.{text, switch, is_among}
use libmbus.Units.Normalize.{vib_unit_normalize, fixed_normalize}
use libmbus.Units.Lookup.{vib_unit_lookup}
use libmbus.Units.Medium.{fixed_unit}
use libmbus.Units.Product.{product_name}
use libmbus.Units.Value.{coding, decoded_real, variable_value_decode, first, is_date}
use libmbus.Units.Value32.{u32, variable_value_decode_32, decode_32_as, stored_int}
use libmbus.Units.Print.{record_value}
use libmbus.Units.Prefix.{unit_prefix, prefix_of, print_int, decimal_digits}
use libmbus.Units.Laws.Standard.{Meaning, decades, meaning_in, meaning, is_misread, code_of}
use libmbus.Units.Laws.Check.{agrees, same_list, same_int}
use libmbus.Units.Laws.Decades.{in_unit, vib_unit_normalize-lookup}
use libmbus.Units.Laws.Counters.{
  triples, among_triples, counter_meaning, counter_entry, is_miscounted, fixed_normalize-fixed_unit,
}
use libmbus.Units.Laws.Agree.{extension_entry}
use libmbus.Units.Table.{vif_table, find}
use libmbus.Units.Table.Primary.{primary_vifs, more_primary_vifs}
use libmbus.Units.Table.Fd.{fd_vifs, electrical_vifs, more_fd_vifs}
use libmbus.Units.Table.Fb.{fb_vifs, reserved_fb_vifs, more_fb_vifs}
use libmbus.Units.Lookup.Fb.{fb_text, more_fb_text, vib_unit_lookup_fb}
use libmbus.Units.Laws.Known.{is_known, is_extended, stores_all, vib_unit_normalize-is_known}
use libmbus.Units.Laws.Narrow.{is_point, is_point_as, variable_value_decode_32-decode}
use libmbus.Units.Laws.Decimal.{read_int}
use libmbus.Units.Laws.Printed.{int_at, int_width, int_width_as, record_value-int}
use libmbus.Units.Laws.Records.{record_of, number_of, parse_variable_record-meaning}
use libmbus.Units.Record.{parse_variable_record}
use libmbus.Data.Outcome.{done}
use libmbus.Data.Storage.{digits}
use libmbus.Units.Laws.Products.{product_name-fits}
use libmbus.Codec.Integer.{int_decode, int_loop}
use libmbus.Tests.Answers.{water_header}

-- What was computed, unevaluated.
pub data Term : Type 0 where
  constant : Decimal → Term
  integer : ℤ → Term
  product : Term → Term → Term
  sum : Term → Term → Term
  ten_to : ℤ → Term
  bits : ℕ → Term

instance abbrev pub term_double : Double Term
term_double = record {
  literal = constant;
  of_int = integer;
  times = product;
  plus = sum;
  power_of_ten = ten_to;
  of_float = bits;
  print = λ t. [];
}

-- A volume in litres, -2 as two bytes.
abbrev litres : DataRecord
litres = record {
  dif = 0x02;
  dife = [];
  vif = 0x13;
  vife = [];
  custom_vif = [];
  content = 0xFE ∷ 0xFF ∷ [];
}

abbrev litres_meaning : Meaning
litres_meaning = record {
  power = negsuc 2;
  unit = "m^3";
  quantity = "Volume";
  shown = text "Volume (m m^3)";
}

litres_run : meaning 0x13 ≡ some litres_meaning
unfolding meaning meaning_in decades unit_prefix prefix_of switch is_among
litres_run = refl

vib_unit_normalize-lookup_example :
    (vib_unit_normalize litres (integer (pos 5)) ≡ in_unit litres_meaning (integer (pos 5)))
    × (vib_unit_lookup litres ≡ text "Volume (m m^3)")
unfolding code_of is_misread
vib_unit_normalize-lookup_example =
    vib_unit_normalize-lookup litres (integer (pos 5)) 0x13 litres_meaning tt refl litres_run refl

-- Where the extension is missing.
abbrev unknown_vif : DataRecord
unknown_vif = record litres { vif = 0xFB; vife = [] }

vib_unit_normalize-is_known_example :
    ((vib_unit_normalize unknown_vif (integer (pos 5))).result
      ≡ (if is_known unknown_vif then pos 0 else minus_one))
    × (stores_all (vib_unit_normalize unknown_vif (integer (pos 5)))
        ≡ not (is_extended unknown_vif && (0 == 0)))
vib_unit_normalize-is_known_example =
    vib_unit_normalize-is_known unknown_vif (integer (pos 5)) (omega arith) tt

abbrev ten_kwh : Meaning
ten_kwh = record { power = pos 4; unit = "Wh"; quantity = "Energy"; shown = text "10 kWh" }

ten_kwh_run : counter_meaning (0x86 % 64) ≡ some ten_kwh
unfolding counter_meaning among_triples triples switch is_among
ten_kwh_run = refl

fixed_normalize-fixed_unit_example :
    ((is_miscounted 6 ≡ false)
      × (fixed_normalize 0x86 (pos 7) ≡ in_unit ten_kwh (integer (pos 7)))
      × (fixed_unit 0x86 ≡ text "10 kWh"))
    ⊎ ((is_miscounted 6 ≡ true) × (agrees ten_kwh (counter_entry 0x86) (fixed_unit 0x86) ≡ false))
fixed_normalize-fixed_unit_example =
    fixed_normalize-fixed_unit 0x86 (pos 7) ten_kwh (omega arith) ten_kwh_run

stored_run : variable_value_decode_32 litres ≡ (pos 0, some (2 ^ 32 - 2))
unfolding variable_value_decode_32 decode_32_as coding switch is_among stored_int first int_decode
    int_loop
stored_run = refl

variable_value_decode_32-decode_example :
    (i : ℤ) × (variable_value_decode litres ≡ decoded_real (integer i)) × (2 ^ 32 - 2 ≡ u32 i)
unfolding is_point is_point_as coding switch is_among is_date
variable_value_decode_32-decode_example =
    variable_value_decode_32-decode litres (2 ^ 32 - 2) refl stored_run

record_value-int_example :
    (read_int (record_value term_double litres) ≡ int_at 2 litres)
    × (variable_value_decode litres ≡ decoded_real (integer (int_at 2 litres)))
unfolding int_width int_width_as coding switch is_among is_date
record_value-int_example = record_value-int litres 2 (omega arith, (omega arith, tt)) refl

product_name-fits_example : length (product_name water_header) < 40
product_name-fits_example = product_name-fits water_header

parse_variable_record-meaning_example :
    parse_variable_record litres
    ≡ done (
        record_of litres litres_meaning
          (integer (int_at 2 litres))
          (litres.dif / 64 % 2 + 2 * digits (λ e. e % 16) 4 [])
          (number_of (λ e. e / 16 % 4) 2 litres)
          (number_of (λ e. e / 64 % 2) 1 litres))
unfolding int_width int_width_as coding switch is_among is_date code_of is_misread
parse_variable_record-meaning_example =
    parse_variable_record-meaning litres 2 0x13 litres_meaning (omega arith) tt (omega arith) tt
      (omega arith, (omega arith, tt)) refl refl litres_run refl

-- Where `vif_table` and the standard differ: the codes of `is_misread`, with the byte behind 0xFB.
disagrees : ℕ → Bool
disagrees vife = elim (meaning (0x200 + vife)) [
  | none ↦ false
  | some m ↦ not (agrees m (extension_entry 0x200 vife) (vib_unit_lookup_fb vife))
]

misread_run :
    (disagrees 0x08 && disagrees 0x09 && disagrees 0x30 && disagrees 0x31 && disagrees 0x79) ≡ true
unfolding disagrees agrees same_list same_int extension_entry meaning meaning_in decades find
    vif_table primary_vifs more_primary_vifs fd_vifs electrical_vifs more_fd_vifs fb_vifs
    reserved_fb_vifs more_fb_vifs vib_unit_lookup_fb fb_text more_fb_text switch is_among
    unit_prefix prefix_of print_int decimal_digits
misread_run = refl

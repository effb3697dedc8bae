-- ===== src/Units/Laws/Agree.antt =====
-- The entries of `vif_table` and the units against the decades of the standard, by
-- evaluation for each code.
use libmbus.Base.{ℕ, ◌+◌, ◌%◌, ◌<◌, ◌≡◌, refl, Option, some, bit_and, bit_or}
use libmbus.Units.Text.{switch, is_among}
use libmbus.Units.Table.{vif_table, find}
use libmbus.Units.Table.Entry.{VariableVif}
use libmbus.Units.Table.Primary.{primary_vifs, more_primary_vifs}
use libmbus.Units.Table.Fd.{fd_vifs, electrical_vifs, more_fd_vifs}
use libmbus.Units.Table.Fb.{fb_vifs, reserved_fb_vifs, more_fb_vifs}
use libmbus.Units.Prefix.{
  decimal_digits, print_int, prefix_of, unit_prefix, unit_duration_nn, unit_duration_pp,
}
use libmbus.Units.Lookup.{duration, power_text, more_vif_text, vif_unit_text, vif_unit_lookup}
use libmbus.Units.Lookup.Fd.{fd_text, more_fd_text, vib_unit_lookup_fd}
use libmbus.Units.Lookup.Fb.{fb_text, more_fb_text, vib_unit_lookup_fb}
use libmbus.Units.Laws.Standard.{Meaning, decades, meaning_in, meaning, is_misread, right_meaning}
use libmbus.Units.Laws.Check.{
  same_list, same_int, agrees, check, check→Agrees, Agrees, all_below, all_below→true,
}

-- The three kinds of code: a VIF, and a byte behind 0xFD and 0xFB.
unfoldable pub primary_entry : ℕ → Option VariableVif
primary_entry vif = find vif_table (bit_and (bit_and vif 0x7F) 0xF7F)

unfoldable pub extension_entry : ℕ → ℕ → Option VariableVif
extension_entry kind vife = find vif_table (bit_and (bit_or (bit_and vife 0x7F) kind) 0xF7F)

pub primary-Agrees :
    (vif : ℕ) (m : Meaning)
    → vif < 128
    → right_meaning vif ≡ some m
    → Agrees m (primary_entry vif) (vif_unit_lookup vif)
unfolding check all_below agrees same_list same_int primary_entry right_meaning is_misread meaning
    meaning_in decades find vif_table primary_vifs more_primary_vifs fd_vifs electrical_vifs
    more_fd_vifs fb_vifs reserved_fb_vifs more_fb_vifs vif_unit_lookup vif_unit_text power_text
    more_vif_text duration switch is_among unit_prefix prefix_of print_int decimal_digits
primary-Agrees vif m h e =
    check→Agrees _ _ _
      (all_below→true (λ v. check (right_meaning v) (primary_entry v) (vif_unit_lookup v)) 128 refl
        vif h)
      m e

pub fd-Agrees :
    (vife : ℕ) (m : Meaning)
    → vife < 256
    → right_meaning (0x100 + vife % 128) ≡ some m
    → Agrees m (extension_entry 0x100 vife) (vib_unit_lookup_fd vife)
unfolding check all_below agrees same_list same_int extension_entry right_meaning is_misread meaning
    meaning_in decades find vif_table primary_vifs more_primary_vifs fd_vifs electrical_vifs
    more_fd_vifs fb_vifs reserved_fb_vifs more_fb_vifs vib_unit_lookup_fd fd_text more_fd_text
    unit_duration_nn unit_duration_pp switch is_among unit_prefix prefix_of print_int decimal_digits
fd-Agrees vife m h e =
    check→Agrees _ _ _
      (all_below→true
        (λ v.
          check (right_meaning (0x100 + v % 128)) (extension_entry 0x100 v) (vib_unit_lookup_fd v))
        256 refl vife h)
      m e

pub fb-Agrees :
    (vife : ℕ) (m : Meaning)
    → vife < 256
    → right_meaning (0x200 + vife % 128) ≡ some m
    → Agrees m (extension_entry 0x200 vife) (vib_unit_lookup_fb vife)
unfolding check all_below agrees same_list same_int extension_entry right_meaning is_misread meaning
    meaning_in decades find vif_table primary_vifs more_primary_vifs fd_vifs electrical_vifs
    more_fd_vifs fb_vifs reserved_fb_vifs more_fb_vifs vib_unit_lookup_fb fb_text more_fb_text
    switch is_among unit_prefix prefix_of print_int decimal_digits
fb-Agrees vife m h e =
    check→Agrees _ _ _
      (all_below→true
        (λ v.
          check (right_meaning (0x200 + v % 128)) (extension_entry 0x200 v) (vib_unit_lookup_fb v))
        256 refl vife h)
      m e

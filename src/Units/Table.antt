-- ===== src/Units/Table.antt =====
-- `vif_table` and `fixed_table` of mbus/mbus-protocol-aux.c, and the loops that look a code up.
pub mod Entry
pub mod Primary
pub mod Fd
pub mod Fb
pub mod Fixed
use libmbus.Base.{ℕ, List, [], ◌∷◌, ◌++◌, Option, none, some, if◌then◌else◌, ltb, ◌==◌}
use libmbus.Units.Table.Entry.{VariableVif, entry, whole}
use libmbus.Units.Table.Primary.{primary_vifs, more_primary_vifs}
use libmbus.Units.Table.Fd.{fd_vifs, electrical_vifs, more_fd_vifs}
use libmbus.Units.Table.Fb.{fb_vifs, reserved_fb_vifs, more_fb_vifs}

-- `{ 0xFFFF, 0.0, "", "" }`
abbrev end_of_array : VariableVif
end_of_array = entry 0xFFFF (whole 0) "" ""

unfoldable pub vif_table : List VariableVif
vif_table =
    primary_vifs
    ++ more_primary_vifs
    ++ fd_vifs
    ++ electrical_vifs
    ++ more_fd_vifs
    ++ fb_vifs
    ++ reserved_fb_vifs
    ++ more_fb_vifs
    ++ (end_of_array ∷ [])

-- `for (i = 0; table[i].vif < 0xfff; ++i) if (table[i].vif == code)`, from the entry at which the
-- list starts.
unfoldable pub find : List VariableVif → ℕ → Option VariableVif
find [] code = none
find (e ∷ es) code =
    let rest = find es code in
    if ltb e.vif 0xFFF then (if e.vif == code then some e else rest) else none

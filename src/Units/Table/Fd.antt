-- ===== src/Units/Table/Fd.antt =====
-- The entries of `vif_table` of mbus/mbus-protocol-aux.c for the extension behind the VIF 0xFD,
-- with 0x100 added.
use libmbus.Base.{List, [], ◌∷◌, negsuc}
use libmbus.Units.Table.Entry.{VariableVif, entry, tens, tenths, whole, decimal}

-- Credit to what is reserved behind the periods of tariffs.
unfoldable pub fd_vifs : List VariableVif
fd_vifs =
    entry 0x100 (tenths 3) "Currency units" "Credit"
    ∷ entry 0x101 (tenths 2) "Currency units" "Credit"
    ∷ entry 0x102 (tenths 1) "Currency units" "Credit"
    ∷ entry 0x103 (tens 0) "Currency units" "Credit"
    ∷ entry 0x104 (tenths 3) "Currency units" "Debit"
    ∷ entry 0x105 (tenths 2) "Currency units" "Debit"
    ∷ entry 0x106 (tenths 1) "Currency units" "Debit"
    ∷ entry 0x107 (tens 0) "Currency units" "Debit"
    ∷ entry 0x108 (tens 0) "" "Access Number (transmission count)"
    ∷ entry 0x109 (tens 0) "" "Medium"
    ∷ entry 0x10A (tens 0) "" "Manufacturer"
    ∷ entry 0x10B (tens 0) "" "Parameter set identification"
    ∷ entry 0x10C (tens 0) "" "Model / Version"
    ∷ entry 0x10D (tens 0) "" "Hardware version"
    ∷ entry 0x10E (tens 0) "" "Firmware version"
    ∷ entry 0x10F (tens 0) "" "Software version"
    ∷ entry 0x110 (tens 0) "" "Customer location"
    ∷ entry 0x111 (tens 0) "" "Customer"
    ∷ entry 0x112 (tens 0) "" "Access Code User"
    ∷ entry 0x113 (tens 0) "" "Access Code Operator"
    ∷ entry 0x114 (tens 0) "" "Access Code System Operator"
    ∷ entry 0x115 (tens 0) "" "Access Code Developer"
    ∷ entry 0x116 (tens 0) "" "Password"
    ∷ entry 0x117 (tens 0) "" "Error flags"
    ∷ entry 0x118 (tens 0) "" "Error mask"
    ∷ entry 0x119 (tens 0) "Reserved" "Reserved"
    ∷ entry 0x11A (tens 0) "" "Digital Output"
    ∷ entry 0x11B (tens 0) "" "Digital Input"
    ∷ entry 0x11C (tens 0) "Baud" "Baudrate"
    ∷ entry 0x11D (tens 0) "Bittimes" "Response delay time"
    ∷ entry 0x11E (tens 0) "" "Retry"
    ∷ entry 0x11F (tens 0) "Reserved" "Reserved"
    ∷ entry 0x120 (tens 0) "" "First storage # for cyclic storage"
    ∷ entry 0x121 (tens 0) "" "Last storage # for cyclic storage"
    ∷ entry 0x122 (tens 0) "" "Size of storage block"
    ∷ entry 0x123 (tens 0) "Reserved" "Reserved"
    ∷ entry 0x124 (tens 0) "s" "Storage interval"
    ∷ entry 0x125 (whole 60) "s" "Storage interval"
    ∷ entry 0x126 (whole 3600) "s" "Storage interval"
    ∷ entry 0x127 (whole 86400) "s" "Storage interval"
    ∷ entry 0x128 (decimal 262974383 (negsuc 1)) "s" "Storage interval"
    ∷ entry 0x129 (whole 31556926) "s" "Storage interval"
    ∷ entry 0x12A (tens 0) "Reserved" "Reserved"
    ∷ entry 0x12B (tens 0) "Reserved" "Reserved"
    ∷ entry 0x12C (tens 0) "s" "Duration since last readout"
    ∷ entry 0x12D (whole 60) "s" "Duration since last readout"
    ∷ entry 0x12E (whole 3600) "s" "Duration since last readout"
    ∷ entry 0x12F (whole 86400) "s" "Duration since last readout"
    ∷ entry 0x130 (tens 0) "Reserved" "Reserved"
    ∷ entry 0x131 (whole 60) "s" "Duration of tariff"
    ∷ entry 0x132 (whole 3600) "s" "Duration of tariff"
    ∷ entry 0x133 (whole 86400) "s" "Duration of tariff"
    ∷ entry 0x134 (tens 0) "s" "Period of tariff"
    ∷ entry 0x135 (whole 60) "s" "Period of tariff"
    ∷ entry 0x136 (whole 3600) "s" "Period of tariff"
    ∷ entry 0x137 (whole 86400) "s" "Period of tariff"
    ∷ entry 0x138 (decimal 262974383 (negsuc 1)) "s" "Period of tariff"
    ∷ entry 0x139 (whole 31556926) "s" "Period of tariff"
    ∷ entry 0x13A (tens 0) "" "Dimensionless"
    ∷ entry 0x13B (tens 0) "Reserved" "Reserved"
    ∷ entry 0x13C (tens 0) "Reserved" "Reserved"
    ∷ entry 0x13D (tens 0) "Reserved" "Reserved"
    ∷ entry 0x13E (tens 0) "Reserved" "Reserved"
    ∷ entry 0x13F (tens 0) "Reserved" "Reserved"
    ∷ []

-- Voltage and current.
unfoldable pub electrical_vifs : List VariableVif
electrical_vifs =
    entry 0x140 (tenths 9) "V" "Voltage"
    ∷ entry 0x141 (tenths 8) "V" "Voltage"
    ∷ entry 0x142 (tenths 7) "V" "Voltage"
    ∷ entry 0x143 (tenths 6) "V" "Voltage"
    ∷ entry 0x144 (tenths 5) "V" "Voltage"
    ∷ entry 0x145 (tenths 4) "V" "Voltage"
    ∷ entry 0x146 (tenths 3) "V" "Voltage"
    ∷ entry 0x147 (tenths 2) "V" "Voltage"
    ∷ entry 0x148 (tenths 1) "V" "Voltage"
    ∷ entry 0x149 (tens 0) "V" "Voltage"
    ∷ entry 0x14A (tens 1) "V" "Voltage"
    ∷ entry 0x14B (tens 2) "V" "Voltage"
    ∷ entry 0x14C (tens 3) "V" "Voltage"
    ∷ entry 0x14D (tens 4) "V" "Voltage"
    ∷ entry 0x14E (tens 5) "V" "Voltage"
    ∷ entry 0x14F (tens 6) "V" "Voltage"
    ∷ entry 0x150 (tenths 12) "A" "Current"
    ∷ entry 0x151 (tenths 11) "A" "Current"
    ∷ entry 0x152 (tenths 10) "A" "Current"
    ∷ entry 0x153 (tenths 9) "A" "Current"
    ∷ entry 0x154 (tenths 8) "A" "Current"
    ∷ entry 0x155 (tenths 7) "A" "Current"
    ∷ entry 0x156 (tenths 6) "A" "Current"
    ∷ entry 0x157 (tenths 5) "A" "Current"
    ∷ entry 0x158 (tenths 4) "A" "Current"
    ∷ entry 0x159 (tenths 3) "A" "Current"
    ∷ entry 0x15A (tenths 2) "A" "Current"
    ∷ entry 0x15B (tenths 1) "A" "Current"
    ∷ entry 0x15C (tens 0) "A" "Current"
    ∷ entry 0x15D (tens 1) "A" "Current"
    ∷ entry 0x15E (tens 2) "A" "Current"
    ∷ entry 0x15F (tens 3) "A" "Current"
    ∷ []

-- Counters, durations and what is reserved.
unfoldable pub more_fd_vifs : List VariableVif
more_fd_vifs =
    entry 0x160 (tens 0) "" "Reset counter"
    ∷ entry 0x161 (tens 0) "" "Cumulation counter"
    ∷ entry 0x162 (tens 0) "" "Control signal"
    ∷ entry 0x163 (tens 0) "" "Day of week"
    ∷ entry 0x164 (tens 0) "" "Week number"
    ∷ entry 0x165 (tens 0) "" "Time point of day change"
    ∷ entry 0x166 (tens 0) "" "State of parameter activation"
    ∷ entry 0x167 (tens 0) "" "Special supplier information"
    ∷ entry 0x168 (whole 3600) "s" "Duration since last cumulation"
    ∷ entry 0x169 (whole 86400) "s" "Duration since last cumulation"
    ∷ entry 0x16A (decimal 262974383 (negsuc 1)) "s" "Duration since last cumulation"
    ∷ entry 0x16B (whole 31556926) "s" "Duration since last cumulation"
    ∷ entry 0x16C (whole 3600) "s" "Operating time battery"
    ∷ entry 0x16D (whole 86400) "s" "Operating time battery"
    ∷ entry 0x16E (decimal 262974383 (negsuc 1)) "s" "Operating time battery"
    ∷ entry 0x16F (whole 31556926) "s" "Operating time battery"
    ∷ entry 0x170 (tens 0) "" "Date and time of battery change"
    ∷ entry 0x171 (tens 0) "Reserved" "Reserved"
    ∷ entry 0x172 (tens 0) "Reserved" "Reserved"
    ∷ entry 0x173 (tens 0) "Reserved" "Reserved"
    ∷ entry 0x174 (tens 0) "Reserved" "Reserved"
    ∷ entry 0x175 (tens 0) "Reserved" "Reserved"
    ∷ entry 0x176 (tens 0) "Reserved" "Reserved"
    ∷ entry 0x177 (tens 0) "Reserved" "Reserved"
    ∷ entry 0x178 (tens 0) "Reserved" "Reserved"
    ∷ entry 0x179 (tens 0) "Reserved" "Reserved"
    ∷ entry 0x17A (tens 0) "Reserved" "Reserved"
    ∷ entry 0x17B (tens 0) "Reserved" "Reserved"
    ∷ entry 0x17C (tens 0) "Reserved" "Reserved"
    ∷ entry 0x17D (tens 0) "Reserved" "Reserved"
    ∷ entry 0x17E (tens 0) "Reserved" "Reserved"
    ∷ entry 0x17F (tens 0) "Reserved" "Reserved"
    ∷ []

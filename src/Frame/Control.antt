-- ===== src/Frame/Control.antt =====
-- The control field of a frame: `MBUS_CONTROL_MASK_*` of mbus/mbus-protocol.h.
use libmbus.Base.{ℕ}

abbrev pub snd_nke : ℕ
snd_nke = 0x40

abbrev pub snd_ud : ℕ
snd_ud = 0x53

abbrev pub req_ud2 : ℕ
req_ud2 = 0x5B

abbrev pub req_ud1 : ℕ
req_ud1 = 0x5A

abbrev pub rsp_ud : ℕ
rsp_ud = 0x08

-- The bit FCB of a request is the bit ACD of an answer.
abbrev pub fcb : ℕ
fcb = 0x20

abbrev pub fcv : ℕ
fcv = 0x10

abbrev pub acd : ℕ
acd = 0x20

abbrev pub dfc : ℕ
dfc = 0x10

abbrev pub dir : ℕ
dir = 0x40

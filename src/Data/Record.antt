-- ===== src/Data/Record.antt =====
-- One data record of an answer: its information blocks, and how `mbus_data_variable_parse` reads
-- them.
use libmbus.Base.{
  ℕ, zero, suc, ◌+◌, ◌-◌, ◌*◌, ◌==◌, Bool, true, false, ◌&&◌, ◌||◌, List, [], ◌∷◌, if◌then◌else◌,
  bit_and, leb, ltb, Option, some, none, byte_at,
}
use libmbus.Data.Outcome.{Outcome, done, refused, ◌>>=◌, ◌>>◌, read, check, in_bounds, read_all}
use libmbus.Codec.Text.{str_decode}

abbrev pub extension_bit : ℕ
extension_bit = 0x80

abbrev pub manufacturer_specific : ℕ
manufacturer_specific = 0x0F

abbrev pub more_records_follow_dif : ℕ
more_records_follow_dif = 0x1F

abbrev pub idle_filler : ℕ
idle_filler = 0x2F

abbrev pub data_mask : ℕ
data_mask = 0x0F

abbrev pub dife_size : ℕ
dife_size = 10

abbrev pub custom_vif_size : ℕ
custom_vif_size = 128

-- `data[234]` of `mbus_data_record`.
abbrev pub record_data_size : ℕ
record_data_size = 234

-- `mbus_data_record` with its header, `data` under the name `content`. The arrays that a counter
-- goes with (`ndife`, `nvife`, `data_len`) are lists of that length, `custom_vif` is all that stands
-- in front of the NUL that `mbus_data_str_decode` adds; `timestamp` is left out and `next` is the list that the records stand in.
pub record DataRecord : Type 0 where
  pub dif : ℕ
  pub dife : List ℕ
  pub vif : ℕ
  pub vife : List ℕ
  pub custom_vif : List ℕ
  pub content : List ℕ

-- `mbus_data_record_new`, where `malloc` succeeds.
unfoldable pub data_record_new : DataRecord
data_record_new = record { dif = 0; dife = []; vif = 0; vife = []; custom_vif = []; content = [] }

-- The switch of `mbus_dif_datalength_lookup` on the low four bits, as a table.
unfoldable pub dif_datalength_lookup : ℕ → ℕ
dif_datalength_lookup dif =
    byte_at (0 ∷ 1 ∷ 2 ∷ 3 ∷ 4 ∷ 4 ∷ 6 ∷ 8 ∷ 0 ∷ 1 ∷ 2 ∷ 3 ∷ 4 ∷ 0 ∷ 6 ∷ 8 ∷ [])
      (bit_and dif data_mask)

unfoldable pub has_extension : ℕ → Bool
has_extension b = if bit_and b extension_bit == 0 then false else true

-- The loops that read DIFEs and VIFEs: from position `i` on, with `left` places left in the array.
-- It returns the position behind which the block ends, and what it stored.
unfoldable pub extensions : List ℕ → ℕ → ℕ → ℕ → Outcome (ℕ × List ℕ)
extensions d size zero i =
    if ltb i size
    then (do b ← read d i; (if has_extension b then refused else done (i, [])))
    else done (i, [])
extensions d size (suc left) i =
    let next = (do
      e ← read d (i + 1)
      (j, es) ← extensions d size left (i + 1)
      done (j, e ∷ es)) in
    if ltb i size
    then (do b ← read d i; (if has_extension b then next else done (i, [])))
    else done (i, [])

-- The DIB behind its first byte, which stands at `i`.
unfoldable pub parse_dife : List ℕ → ℕ → ℕ → Outcome (ℕ × List ℕ)
parse_dife d size i = do
  (j, es) ← extensions d size dife_size i
  check (leb (j + 1) size)
  done (j + 1, es)

-- The text of a VIF that says its unit in ASCII; `mbus_data_str_decode` writes a NUL behind it.
unfoldable pub parse_custom_vif : List ℕ → ℕ → ℕ → ℕ → Outcome (ℕ × List ℕ)
parse_custom_vif d size vif i =
    if bit_and vif 0x7F == 0x7C
    then (do
      len ← read d i
      check (leb len custom_vif_size)
      check (leb (i + 1 + len) size)
      in_bounds (ltb len custom_vif_size)
      src ← read_all d (i + 1) len
      done (i + 1 + len, str_decode src))
    else done (i, [])

-- The VIFEs. The first one is read before the loop.
unfoldable pub parse_vife : List ℕ → ℕ → ℕ → ℕ → Outcome (ℕ × List ℕ)
parse_vife d size vif i =
    if has_extension vif
    then (do e ← read d i; (j, es) ← extensions d size (dife_size - 1) i; done (j + 1, e ∷ es))
    else done (i, [])

-- The length of the data, and the position where they begin: for the variable length type the byte
-- before them says how many they are.
unfoldable pub variable_length : ℕ → Option ℕ
variable_length lvar =
    if leb lvar 0xBF
    then some lvar
    else (if leb 0xC0 lvar && leb lvar 0xCF
        then some ((lvar - 0xC0) * 2)
        else (if leb 0xD0 lvar && leb lvar 0xDF
            then some ((lvar - 0xD0) * 2)
            else (if leb 0xE0 lvar && leb lvar 0xEF
                then some (lvar - 0xE0)
                else (if leb 0xF0 lvar && leb lvar 0xFA then some (lvar - 0xF0) else none))))

unfoldable pub parse_data_len : List ℕ → ℕ → ℕ → Outcome (ℕ × ℕ)
parse_data_len d dif i =
    if bit_and dif data_mask == 0x0D
    then (do
      lvar ← read d i
      elim (variable_length lvar) [
        | some len ↦ done (i + 1, len)
        | none ↦ done (i, dif_datalength_lookup dif)
      ])
    else done (i, dif_datalength_lookup dif)

-- A record of plain data whose DIF stands at `i`: the record and the position behind it.
unfoldable pub parse_plain : List ℕ → ℕ → ℕ → ℕ → Outcome (ℕ × DataRecord)
parse_plain d size dif i = do
  (i1, difes) ← parse_dife d size i
  vif ← read d i1
  (i2, text) ← parse_custom_vif d size vif (i1 + 1)
  (i3, vifes) ← parse_vife d size vif i2
  check (leb i3 size)
  (i4, len) ← parse_data_len d dif i3
  check (leb (i4 + len) size)
  in_bounds (leb len record_data_size)
  bytes ← read_all d i4 len
  done (
    i4 + len,
    record { dif = dif; dife = difes; vif = vif; vife = vifes; custom_vif = text; content = bytes },
  )

-- A record of the manufacturer's own data, which are all that is left.
unfoldable pub parse_special : List ℕ → ℕ → ℕ → ℕ → Outcome (ℕ × DataRecord)
parse_special d size dif i = do
  let len = size - (i + 1)
  in_bounds (leb len record_data_size)
  bytes ← read_all d (i + 1) len
  done (i + 1 + len, record data_record_new { dif = dif; content = bytes })

unfoldable pub is_special : ℕ → Bool
is_special dif = dif == manufacturer_specific || dif == more_records_follow_dif

-- One turn of the loop of `mbus_data_variable_parse` that is not on a filler.
unfoldable pub parse_record : List ℕ → ℕ → ℕ → ℕ → Outcome (ℕ × DataRecord)
parse_record d size dif i =
    if is_special dif then parse_special d size dif i else parse_plain d size dif i

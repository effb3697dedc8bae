-- ===== src/Data/Variable.antt =====
-- `mbus_data_variable_parse`, and the part of `mbus_frame_internal_pack` that is its inverse.
use libmbus.Base.{
  ℕ, zero, suc, ◌+◌, ◌==◌, Bool, true, false, List, [], ◌∷◌, ◌++◌, if◌then◌else◌, leb, ltb, byte_at,
}
use libmbus.Frame.{Frame}
use libmbus.Data.Outcome.{Outcome, done, exhausted, ◌>>=◌, ◌>>◌, read, check}
use libmbus.Data.Record.{DataRecord, idle_filler, more_records_follow_dif, parse_record}

-- `mbus_data_variable_header`
pub record VariableHeader : Type 0 where
  pub id_bcd : List ℕ
  pub manufacturer : List ℕ
  pub version : ℕ
  pub medium : ℕ
  pub access_no : ℕ
  pub status : ℕ
  pub signature : List ℕ

abbrev pub header_length : ℕ
header_length = 12

-- `mbus_data_variable`, less the fields that no function sets; `nrecords` is the length of the
-- list.
pub record DataVariable : Type 0 where
  pub header : VariableHeader
  pub records : List DataRecord
  pub more_records_follow : Bool

-- The copy of the header. The caller has seen that the bytes are there.
unfoldable pub parse_header : List ℕ → VariableHeader
parse_header d = record {
  id_bcd = byte_at d 0 ∷ byte_at d 1 ∷ byte_at d 2 ∷ byte_at d 3 ∷ [];
  manufacturer = byte_at d 4 ∷ byte_at d 5 ∷ [];
  version = byte_at d 6;
  medium = byte_at d 7;
  access_no = byte_at d 8;
  status = byte_at d 9;
  signature = byte_at d 10 ∷ byte_at d 11 ∷ [];
}

-- `mbus_data_record_append`
unfoldable pub data_record_append : DataVariable → DataRecord → DataVariable
data_record_append v r = record v { records = v.records ++ (r ∷ []) }

-- What a record with this DIF does to `more_records_follow`.
unfoldable pub note_more : ℕ → DataVariable → DataVariable
note_more dif v =
    if dif == more_records_follow_dif then record v { more_records_follow = true } else v

-- The loop from position `i` on, with fuel.
unfoldable pub records_loop : ℕ → List ℕ → ℕ → ℕ → DataVariable → Outcome DataVariable
records_loop zero d size i v = exhausted
records_loop (suc fuel) d size i v =
    let skip = records_loop fuel d size (i + 1) v in
    let one : ℕ → Outcome DataVariable = (λ dif. do
      (j, r) ← parse_record d size dif i
      records_loop fuel d size j (data_record_append (note_more dif v) r)) in
    let turn = (do dif ← read d i; (if dif == idle_filler then skip else one dif)) in
    if ltb i size then turn else done v

-- Each turn is past one byte at least.
abbrev pub enough_fuel : ℕ → ℕ
enough_fuel size = suc size

-- `mbus_data_variable_parse`; what it has stored when it returns -1 is left out.
unfoldable pub data_variable_parse : Frame → Outcome DataVariable
data_variable_parse f = do
  check (leb header_length f.data_size)
  records_loop (enough_fuel f.data_size) f.content f.data_size header_length
      record { header = parse_header f.content; records = []; more_records_follow = false }

-- ===== src/Data/Fixed.antt =====
-- The answers of fixed length, and the functions that pack and parse answers of each kind:
-- `mbus_data_fixed_parse`, `mbus_frame_data_parse` and `mbus_frame_internal_pack` of
-- mbus/mbus-protocol.c.
use libmbus.Base.{
  ℕ, ◌==◌, Bool, List, [], ◌∷◌, ◌++◌, if◌then◌else◌, u8, bit_and, byte_at, length, ltb, leb,
  overlay,
}
use libmbus.Frame.{Frame, frame_data_length}
use libmbus.Frame.Control
use libmbus.Data.Outcome.{Outcome, done, refused, ◌>>=◌, ◌>>◌, check, in_bounds}
use libmbus.Data.Record.{DataRecord}
use libmbus.Data.Variable.{VariableHeader, DataVariable, data_variable_parse}

-- `mbus_data_fixed`
pub record DataFixed : Type 0 where
  pub id_bcd : List ℕ
  pub tx_cnt : ℕ
  pub status : ℕ
  pub cnt1_type : ℕ
  pub cnt2_type : ℕ
  pub cnt1_val : List ℕ
  pub cnt2_val : List ℕ

abbrev pub fixed_length : ℕ
fixed_length = 16

-- `mbus_data_fixed_parse`: behind the test, the whole copy is inside the array.
unfoldable pub data_fixed_parse : Frame → Outcome DataFixed
data_fixed_parse f = do
  check (f.data_size == fixed_length)
  let at : ℕ → ℕ = (λ i. byte_at f.content i)
  done record {
    id_bcd = at 0 ∷ at 1 ∷ at 2 ∷ at 3 ∷ [];
    tx_cnt = at 4;
    status = at 5;
    cnt1_type = at 6;
    cnt2_type = at 7;
    cnt1_val = at 8 ∷ at 9 ∷ at 10 ∷ at 11 ∷ [];
    cnt2_val = at 12 ∷ at 13 ∷ at 14 ∷ at 15 ∷ [];
  }

-- `mbus_data_fixed_function`: whether the value is a stored one.
unfoldable pub is_stored_value : ℕ → Bool
is_stored_value status = bit_and status 0x40 == 0x40

-- `mbus_frame_data`: which part of it counts is in its `type`.
pub data FrameData : Type 0 where
  error : ℕ → FrameData
  fixed : DataFixed → FrameData
  variable : DataVariable → FrameData

abbrev pub error_general : ℕ
error_general = 0x70

abbrev pub resp_fixed : ℕ
resp_fixed = 0x73

abbrev pub resp_variable : ℕ
resp_variable = 0x72

-- `mbus_frame_data_parse`
unfoldable pub frame_data_parse : Frame → Outcome FrameData
frame_data_parse f =
    if bit_and f.control Control.dir == 0
    then (if f.control_information == error_general
        then done (error (if ltb 0 f.data_size then byte_at f.content 0 else 0))
        else (if f.control_information == resp_fixed
            then (do check (ltb 0 f.data_size); fix ← data_fixed_parse f; done (fixed fix))
            else (if f.control_information == resp_variable
                then (do
                  check (ltb 0 f.data_size)
                  var ← data_variable_parse f
                  done (variable var))
                else refused)))
    else refused

-- The bytes that `mbus_frame_internal_pack` writes, in their order.
unfoldable pub fixed_bytes : DataFixed → List ℕ
fixed_bytes d =
    d.id_bcd ++ (d.tx_cnt ∷ d.status ∷ d.cnt1_type ∷ d.cnt2_type ∷ (d.cnt1_val ++ d.cnt2_val))

unfoldable pub header_bytes : VariableHeader → List ℕ
header_bytes h =
    h.id_bcd ++ (h.manufacturer ++ (h.version ∷ h.medium ∷ h.access_no ∷ h.status ∷ h.signature))

unfoldable pub record_bytes : DataRecord → List ℕ
record_bytes r = r.dif ∷ (r.dife ++ (r.vif ∷ (r.vife ++ r.content)))

unfoldable pub records_bytes : List DataRecord → List ℕ
records_bytes [] = []
records_bytes (r ∷ rs) = record_bytes r ++ records_bytes rs

-- `frame_data->error` goes through a `char`.
unfoldable pub data_bytes : FrameData → List ℕ
data_bytes (error e) = u8 e ∷ []
data_bytes (fixed d) = fixed_bytes d
data_bytes (variable v) = header_bytes v.header ++ records_bytes v.records

-- `mbus_frame_internal_pack`: it does not test that the bytes fit.
unfoldable pub frame_internal_pack : Frame → FrameData → Outcome Frame
frame_internal_pack f d =
    let bytes = data_bytes d in
    do
      in_bounds (leb (length bytes) frame_data_length)
      done record f { content = overlay bytes f.content; data_size = length bytes }

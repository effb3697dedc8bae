-- ===== src/Tests/Answers.antt =====
-- The data of answers.
use libmbus.Base.{
  ℕ, zero, suc, ◌≡◌, ◌≢◌, ◌⊎◌, ◌+◌, ◌*◌, ◌%◌, ◌/◌, refl, inl, inr, false, List, [], ◌∷◌, ◌++◌, All,
  All-append, arith, length, replicate,
}
use libmbus.Frame.{Frame, IsFrame, zero_frame}
use libmbus.Data.Outcome.{done, refused, exhausted, fault, read, check, in_bounds}
use libmbus.Data.Record.{
  DataRecord, has_extension, extensions, parse_dife, parse_custom_vif, parse_plain, parse_special,
  is_special, parse_record, dif_datalength_lookup,
}
use libmbus.Data.Variable.{VariableHeader, DataVariable, data_variable_parse, records_loop}
use libmbus.Data.Fixed.{
  variable, frame_internal_pack, frame_data_parse, header_bytes, record_bytes, records_bytes,
  data_bytes,
}
use libmbus.Data.Bounds.{HasRoom, data_variable_parse-total, data_variable_parse-HasRoom}
use libmbus.Data.RoundTrip.{IsPlain}
use libmbus.Data.Delivery.{frame_data_parse-frame_internal_pack, frame_data_parse-parse}
use libmbus.Frame.Pack.{frame_pack}
use libmbus.Frame.Parse.{parse}
use libmbus.Data.Storage.{
  storage_number, digits, storage_number-digits, collect, storage_bits, shift_int,
}
use libmbus.Tests.Data.{answer, all_bytes-AreBytes}

abbrev pub water_header : VariableHeader
water_header = record {
  id_bcd = 0x78 ∷ 0x56 ∷ 0x34 ∷ 0x12 ∷ [];
  manufacturer = 0x24 ∷ 0x40 ∷ [];
  version = 1;
  medium = 7;
  access_no = 0x55;
  status = 0;
  signature = 0 ∷ 0 ∷ [];
}

-- A volume in four bytes, with one DIFE.
abbrev volume : DataRecord
volume = record {
  dif = 0x84;
  dife = 0x12 ∷ [];
  vif = 0x13;
  vife = [];
  custom_vif = [];
  content = 1 ∷ 2 ∷ 3 ∷ 4 ∷ [];
}

abbrev water : DataVariable
water = record {
  header = water_header;
  records = volume ∷ volume ∷ [];
  more_records_follow = false;
}

volume-IsPlain : IsPlain volume
unfolding is_special has_extension dif_datalength_lookup
volume-IsPlain = record {
  not_special = refl;
  not_filler = refl;
  known_length = refl;
  dife_chain = (refl, refl);
  dife_fits = omega arith;
  known_unit = refl;
  vife_chain = refl;
  vife_fits = omega arith;
  no_text = refl;
  content_length = refl;
}

water_fits : length (data_bytes (variable water)) ≡ 26
unfolding data_bytes header_bytes records_bytes record_bytes
water_fits = refl

frame_data_parse-frame_internal_pack_example :
    (g : Frame) × (frame_internal_pack answer (variable water) ≡ done g)
    × (frame_data_parse g ≡ done (variable water))
frame_data_parse-frame_internal_pack_example =
    frame_data_parse-frame_internal_pack answer (variable water) refl refl
      (
        refl,
        record { id_length = refl; manufacturer_length = refl; signature_length = refl },
        (volume-IsPlain, (volume-IsPlain, tt)),
        refl,
      )
      (omega (arith, water_fits))

abbrev water_bytes : List ℕ
water_bytes =
    0x78 ∷ 0x56 ∷ 0x34 ∷ 0x12 ∷ 0x24 ∷ 0x40 ∷ 1 ∷ 7 ∷ 0x55 ∷ 0 ∷ 0 ∷ 0 ∷ 0x84 ∷ 0x12 ∷ 0x13 ∷ 1 ∷ 2
    ∷ 3 ∷ 4 ∷ 0x84 ∷ 0x12 ∷ 0x13 ∷ 1 ∷ 2 ∷ 3 ∷ 4 ∷ []

abbrev water_answer : Frame
water_answer = record answer { content = water_bytes ++ replicate 226 0; data_size = 26 }

water_pack : frame_internal_pack answer (variable water) ≡ done water_answer
unfolding frame_internal_pack data_bytes header_bytes records_bytes record_bytes in_bounds
water_pack = refl

water_answer-IsFrame : IsFrame water_answer
water_answer-IsFrame = record {
  control_byte = omega arith;
  address_byte = omega arith;
  information_byte = omega arith;
  content_length = refl;
  content_bytes = all_bytes-AreBytes water_answer.content refl;
  size_fits = omega arith;
}

frame_data_parse-parse_example :
    frame_data_parse (parse zero_frame (frame_pack water_answer 35).2).1 ≡ done (variable water)
frame_data_parse-parse_example =
    frame_data_parse-parse answer water_answer zero_frame (variable water) 35 refl refl
      (
        refl,
        record { id_length = refl; manufacturer_length = refl; signature_length = refl },
        (volume-IsPlain, (volume-IsPlain, tt)),
        refl,
      )
      (omega (arith, water_fits)) water_pack refl water_answer-IsFrame
      (refl, refl, inr (inr (inl refl)), refl) refl (omega (arith, water_fits))

-- A header, and a record of one byte of data.
abbrev small : Frame
small = record answer {
  content = replicate 12 7 ++ (0x01 ∷ 0x13 ∷ 9 ∷ replicate 237 0);
  data_size = 15;
}

not_128 : (n b : ℕ) → b ≢ 128 → All (λ x. x ≢ 128) (replicate n b)
not_128 zero b h = tt
not_128 (suc n) b h = (h, not_128 n b h)

small-HasRoom : HasRoom small.content small.data_size
small-HasRoom = record {
  size_fits = omega arith;
  whole = refl;
  no_128 =
      All-append (λ x. x ≢ 128) (replicate 12 7) (0x01 ∷ 0x13 ∷ 9 ∷ replicate 237 0)
        (not_128 12 7 (omega arith))
        (omega arith, (omega arith, (omega arith, not_128 237 0 (omega arith))));
}

data_variable_parse-HasRoom_example :
    ((v : DataVariable) × (data_variable_parse small ≡ done v))
    ⊎ (data_variable_parse small ≡ refused)
data_variable_parse-HasRoom_example = data_variable_parse-HasRoom small small-HasRoom

data_variable_parse-total_example : data_variable_parse small ≢ exhausted
data_variable_parse-total_example = data_variable_parse-total small

storage_number-digits_example :
    storage_number volume ≡ done (volume.dif / 64 % 2 + 2 * digits (λ e. e % 16) 4 volume.dife)
storage_number-digits_example =
    storage_number-digits volume (omega arith) (omega arith, tt) (omega arith)

-- Eight DIFEs shift a digit of the storage number out of an `int`.
storage_overflow : storage_number (record volume { dife = replicate 8 0x8F }) ≡ fault
unfolding storage_number collect storage_bits shift_int in_bounds
storage_overflow = refl

-- A record of the manufacturer behind the header alone, in a frame of 248 bytes of data.
abbrev overflowing : Frame
overflowing = record answer { content = replicate 252 0x0F; data_size = 248 }

manufacturer_overflow : data_variable_parse overflowing ≡ fault
unfolding data_variable_parse records_loop check read parse_record is_special parse_special
    in_bounds
manufacturer_overflow = refl

-- An ASCII unit of 128 characters: the NUL behind it has no place in `custom_vif`.
abbrev long_unit : Frame
long_unit = record answer {
  content = replicate 12 7 ++ (0x01 ∷ 0x7C ∷ 128 ∷ replicate 237 65);
  data_size = 200;
}

custom_vif_overflow : data_variable_parse long_unit ≡ fault
unfolding data_variable_parse records_loop check read parse_record is_special parse_plain parse_dife
    extensions has_extension parse_custom_vif in_bounds
custom_vif_overflow = refl

-- ===== src/Tests/Codecs.antt =====
-- The codecs.
use libmbus.Codec.Xml.{str_xml_encode}
use libmbus.Codec.Xml.Laws.{IsPlain, unescape, blanked, str_xml_encode-unescape}
use libmbus.Base.{
  ℕ, ◌<◌, List, All, length, take, ◌≡◌, ◌+◌, ◌*◌, ◌^◌, refl, inl, inr, [], ◌∷◌, ◌++◌, arith, pos,
  negsuc, some, reverse, byte_at,
}
use libmbus.Codec.Bytes.{little_endian, to_bytes}
use libmbus.Codec.Bcd.{
  bcd_decode, bcd_encode, bcd_decode_hex, long_long, bcd_encode_loop, bcd_byte, mark_negative,
}
use libmbus.Codec.Bcd.Laws.{decimal, negate, bcd_decode-digits, bcd_decode-encode}
use libmbus.Codec.Integer.{int_decode, int_encode, int_loop}
use libmbus.Codec.Integer.Laws.{twos_complement, int_decode-bytes, FitsBytes, int_decode-encode}
use libmbus.Codec.Manufacturer.{manufacturer_id, manufacturer_encode, decode_manufacturer, toupper}
use libmbus.Codec.Manufacturer.Laws.{code_of, manufacturer_id-encode-decode}
use libmbus.Codec.Time.{tm_decode, zero_tm}
use libmbus.Codec.Time.Laws.{
  Moment, IsMoment, date_bytes, time_bytes, full_bytes, tm_of, tm_decode-moment,
}
use libmbus.Codec.Text.{c_string, bin_decode, hex2bin}
use libmbus.Codec.Text.Laws.{hex2bin-bin_decode}

encode_run : bcd_encode 2 (pos 1234) ≡ some (0x12 ∷ 0x34 ∷ [])
unfolding bcd_encode bcd_encode_loop bcd_byte mark_negative
encode_run = refl

bcd_decode-encode_example : bcd_decode (reverse (0x12 ∷ 0x34 ∷ [])) ≡ pos 1234
bcd_decode-encode_example =
    bcd_decode-encode 2 1234 (0x12 ∷ 0x34 ∷ []) (omega arith) (omega arith) encode_run

int_decode-encode_example :
    (d : List ℕ) × (int_encode 2 (negsuc 299) ≡ some d)
    × (length d ≡ 2)
    × (int_decode d ≡ some (negsuc 299))
int_decode-encode_example =
    int_decode-encode 2 (negsuc 299) (omega arith) (omega arith) (omega arith)

minus_two_run : int_decode (0xFE ∷ 0xFF ∷ []) ≡ some (negsuc 1)
unfolding int_decode int_loop
minus_two_run = refl

-- 29 February 2012, 13:05:59 in summer time.
abbrev leap_day : Moment
leap_day = record { second = 59; minute = 5; hour = 13; day = 29; month = 2; year = 12; summer = 1 }

leap_day-IsMoment : IsMoment leap_day
leap_day-IsMoment = record {
  seconds = omega arith;
  minutes = omega arith;
  hours = omega arith;
  days = (omega arith, omega arith);
  months = (omega arith, omega arith);
  years = omega arith;
  flag = omega arith;
}

tm_decode-moment_example :
    (tm_decode (date_bytes leap_day) ≡ record zero_tm { mday = 29; mon = pos 1; year = 112 })
    × (tm_decode (time_bytes leap_day) ≡ tm_of 0 leap_day)
    × (tm_decode (full_bytes leap_day) ≡ tm_of 59 leap_day)
tm_decode-moment_example = tm_decode-moment leap_day leap_day-IsMoment

hex2bin-bin_decode_example : hex2bin 2 (bin_decode (0xE5 ∷ 0x07 ∷ []) 7) ≡ 0xE5 ∷ 0x07 ∷ []
hex2bin-bin_decode_example =
    hex2bin-bin_decode (0xE5 ∷ 0x07 ∷ []) 7 2 (omega arith, (omega arith, tt)) (omega arith)
      (omega arith)

-- `a<"` and a tabulator.
abbrev quoted : List ℕ
quoted = b'a' ∷ b'<' ∷ b'"' ∷ 9 ∷ []

str_xml_encode-unescape_example :
    (length (str_xml_encode quoted 25) < 25)
    × All IsPlain (str_xml_encode quoted 25)
    × ((read : ℕ) × (unescape 0 (str_xml_encode quoted 25) ≡ take read (blanked (c_string quoted)))
        × (6 * length (c_string quoted) < 25 → read ≡ length (c_string quoted)))
str_xml_encode-unescape_example = str_xml_encode-unescape quoted 25 (omega arith)

int_decode-bytes_example :
    let d : List ℕ = 0xFE ∷ 0xFF ∷ [] in
    let v = twos_complement (256 ^ 2) (little_endian d) in
    (int_decode d ≡ some v)
    × FitsBytes 2 v
    × (bcd_decode_hex d ≡ little_endian d)
    × (long_long (bcd_decode_hex d) ≡ twos_complement (256 ^ 8) (little_endian d))
int_decode-bytes_example =
    int_decode-bytes (0xFE ∷ 0xFF ∷ []) (omega arith) (omega arith) (omega arith, (omega arith, tt))

bcd_decode-digits_example :
    (bcd_decode ((0x34 ∷ []) ++ (0x12 ∷ [])) ≡ pos (decimal ((0x34 ∷ []) ++ (0x12 ∷ []))))
    × (bcd_decode ((0x34 ∷ []) ++ ((0xF0 + 2) ∷ [])) ≡ negate (decimal ((0x34 ∷ []) ++ (2 ∷ []))))
bcd_decode-digits_example =
    bcd_decode-digits (0x34 ∷ []) 0x12 2 (omega arith, tt) (omega arith) (omega arith) (omega arith)

-- The letters S, o and n.
manufacturer_id-encode-decode_example :
    let s = toupper 83 ∷ toupper 111 ∷ toupper 110 ∷ [] in
    let id = code_of (toupper 83) (toupper 111) (toupper 110) in
    let d = to_bytes 2 id in
    (manufacturer_id (83 ∷ 111 ∷ 110 ∷ []) ≡ id)
    × (manufacturer_encode s ≡ some d)
    × (decode_manufacturer (byte_at d 0) (byte_at d 1) ≡ s)
manufacturer_id-encode-decode_example =
    manufacturer_id-encode-decode 83 111 110 (inl (omega arith, omega arith))
      (inr (omega arith, omega arith)) (inr (omega arith, omega arith))

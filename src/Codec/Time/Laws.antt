-- ===== src/Codec/Time/Laws.antt =====
-- The compound formats of dates and times, as the standard lays them out, and their decoding.
use libmbus.Base.{ℕ, ◌+◌, ◌-◌, ◌*◌, ◌/◌, ◌%◌, ◌<◌, ◌≤◌, ◌≡◌, List, [], ◌∷◌, pos, arith}
use libmbus.Base.Bits.{and_0f, and_1f, and_3f, and_40, and_80, and_e0, and_f0, or_year}
use libmbus.Codec.Time.{Tm, zero_tm, year_of, tm_decode, tm_decode_i, tm_decode_f, tm_decode_g}

-- A date and a time of day, with the year counted from 2000 (seven bits).
pub record Moment : Type 0 where
  pub second : ℕ
  pub minute : ℕ
  pub hour : ℕ
  pub day : ℕ
  pub month : ℕ
  pub year : ℕ
  pub summer : ℕ

pub record IsMoment (m : Moment) : Type 0 where
  pub seconds : m.second < 60
  pub minutes : m.minute < 60
  pub hours : m.hour < 24
  pub days : (1 ≤ m.day) × (m.day ≤ 31)
  pub months : (1 ≤ m.month) × (m.month ≤ 12)
  pub years : m.year < 128
  pub flag : m.summer ≤ 1

-- The two bytes of a date: the low three bits of the year stand above the day, the others above
-- the month.
abbrev pub date_bytes : Moment → List ℕ
date_bytes m = (m.day + m.year % 8 * 32) ∷ (m.month + m.year / 8 * 16) ∷ []

abbrev pub time_bytes : Moment → List ℕ
time_bytes m =
    m.minute
    ∷ (m.hour + m.summer * 128)
    ∷ (m.day + m.year % 8 * 32)
    ∷ (m.month + m.year / 8 * 16)
    ∷ []

abbrev pub full_bytes : Moment → List ℕ
full_bytes m =
    (m.second + m.summer * 64)
    ∷ m.minute
    ∷ m.hour
    ∷ (m.day + m.year % 8 * 32)
    ∷ (m.month + m.year / 8 * 16)
    ∷ 0
    ∷ []

year_of-bytes :
    (day month year : ℕ)
    → day < 32
    → month < 16
    → year < 128
    → year_of (day + year % 8 * 32) (month + year / 8 * 16) ≡ 100 + year
year_of-bytes day month year d m y = ground (
  arith,
  and_e0 (day + year % 8 * 32) (omega arith),
  and_f0 (month + year / 8 * 16) (omega arith),
  or_year year y,
)

-- A date in format G is decoded to its day, month and year.
tm_decode-date :
    (m : Moment)
    → IsMoment m
    → tm_decode (date_bytes m)
      ≡ record zero_tm { mday = m.day; mon = pos (m.month - 1); year = 100 + m.year }
unfolding tm_decode tm_decode_g
tm_decode-date m v = ground (
  arith,
  year_of-bytes m.day m.month m.year (omega arith) (omega arith) v.years,
  and_1f (m.day + m.year % 8 * 32) (omega arith),
  and_0f (m.month + m.year / 8 * 16) (omega arith),
)

-- What the decoder makes of the seconds that a format has, and of the other fields.
abbrev pub tm_of : ℕ → Moment → Tm
tm_of seconds m = record {
  sec = seconds;
  min = m.minute;
  hour = m.hour;
  mday = m.day;
  mon = pos (m.month - 1);
  year = 100 + m.year;
  isdst = m.summer;
}

tm_decode-time : (m : Moment) → IsMoment m → tm_decode (time_bytes m) ≡ tm_of 0 m
unfolding tm_decode tm_decode_f
tm_decode-time m v = ground (
  arith,
  year_of-bytes m.day m.month m.year (omega arith) (omega arith) v.years,
  and_80 m.minute (omega arith),
  and_3f m.minute (omega arith),
  and_1f (m.hour + m.summer * 128) (omega arith),
  and_80 (m.hour + m.summer * 128) (omega arith),
  and_1f (m.day + m.year % 8 * 32) (omega arith),
  and_0f (m.month + m.year / 8 * 16) (omega arith),
)

tm_decode-full : (m : Moment) → IsMoment m → tm_decode (full_bytes m) ≡ tm_of m.second m
unfolding tm_decode tm_decode_i
tm_decode-full m v = ground (
  arith,
  year_of-bytes m.day m.month m.year (omega arith) (omega arith) v.years,
  and_80 m.minute (omega arith),
  and_3f m.minute (omega arith),
  and_3f (m.second + m.summer * 64) (omega arith),
  and_40 (m.second + m.summer * 64) (omega arith),
  and_1f m.hour (omega arith),
  and_1f (m.day + m.year % 8 * 32) (omega arith),
  and_0f (m.month + m.year / 8 * 16) (omega arith),
)

-- A moment of the years 2000 to 2127 is decoded to its fields from its bytes in each of the three
-- formats: from the date alone, from date and time without seconds, and from date and time.
pub tm_decode-moment :
    (m : Moment)
    → IsMoment m
    → (tm_decode (date_bytes m)
        ≡ record zero_tm { mday = m.day; mon = pos (m.month - 1); year = 100 + m.year })
      × (tm_decode (time_bytes m) ≡ tm_of 0 m)
      × (tm_decode (full_bytes m) ≡ tm_of m.second m)
tm_decode-moment m v = (tm_decode-date m v, tm_decode-time m v, tm_decode-full m v)

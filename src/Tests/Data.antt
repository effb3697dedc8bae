-- ===== src/Tests/Data.antt =====
-- Frames and bytes for the tests.
use libmbus.Base.{
  ◌≡◌, Bool, true, ◌&&◌, ltb, ℕ, zero, suc, ◌<◌, refl, List, [], ◌∷◌, ◌++◌, arith, replicate,
  AreBytes,
}
use libmbus.Frame.{Frame, short, long, zero_frame, IsFrame}

pub replicate-AreBytes : (n b : ℕ) → b < 256 → AreBytes (replicate n b)
replicate-AreBytes zero b h = tt
replicate-AreBytes (suc n) b h = (h, replicate-AreBytes n b h)

-- `REQ_UD2` to the slave at address 1.
abbrev pub request : Frame
request = record zero_frame {
  start1 = 0x10;
  control = 0x5B;
  address = 1;
  stop = 0x16;
  type = short;
}

-- The three bytes of data of an answer.
abbrev pub three : List ℕ
three = 1 ∷ 2 ∷ 3 ∷ []

abbrev pub answer : Frame
answer = record zero_frame {
  start1 = 0x68;
  length1 = 6;
  length2 = 6;
  start2 = 0x68;
  control = 0x08;
  address = 1;
  control_information = 0x72;
  checksum = 0x81;
  stop = 0x16;
  content = three ++ replicate 249 0;
  data_size = 3;
  type = long;
}

-- The packed form of `answer`.
abbrev pub answer_packet : List ℕ
answer_packet = 0x68 ∷ 6 ∷ 6 ∷ 0x68 ∷ 0x08 ∷ 1 ∷ 0x72 ∷ 1 ∷ 2 ∷ 3 ∷ 0x81 ∷ 0x16 ∷ []

pub answer-IsFrame : IsFrame answer
answer-IsFrame = record {
  control_byte = omega arith;
  address_byte = omega arith;
  information_byte = omega arith;
  content_length = refl;
  content_bytes =
      (omega arith, (omega arith, (omega arith, replicate-AreBytes 249 0 (omega arith))));
  size_fits = omega arith;
}

abbrev pub all_bytes : List ℕ → Bool
all_bytes [] = true
all_bytes (x ∷ xs) = ltb x 256 && all_bytes xs

pub all_bytes-AreBytes : (xs : List ℕ) → all_bytes xs ≡ true → AreBytes xs
all_bytes-AreBytes [] e = tt
all_bytes-AreBytes (x ∷ xs) e =
    let (small, rest) : (x < 256) × (all_bytes xs ≡ true) = ground arith in
    (small, all_bytes-AreBytes xs rest)

-- ===== src/Frame.antt =====
-- M-Bus frames: the struct `mbus_frame` and the functions on it in mbus/mbus-protocol.c
-- (`mbus_frame_new` to `mbus_frame_verify`), with the constants of mbus/mbus-protocol.h.
pub mod Control
pub mod Pack
pub mod Parse
pub mod Valid
pub mod Packet
pub mod RoundTrip
pub mod Prefix
pub mod Room
pub mod Repack
use libmbus.Base.{
  ℕ, zero, suc, ◌+◌, ◌<◌, ◌≤◌, ◌==◌, ◌≡◌, Bool, true, false, not, ◌&&◌, ◌||◌, List, [], ◌∷◌, ℤ, pos,
  minus_one, if◌then◌else◌, u8, bit_and, bit_or, length, take, replicate, AreBytes, IsByte,
}

abbrev pub frame_data_length : ℕ
frame_data_length = 252

abbrev pub ack_start : ℕ
ack_start = 0xE5

abbrev pub short_start : ℕ
short_start = 0x10

-- Also the start byte of control frames.
abbrev pub long_start : ℕ
long_start = 0x68

abbrev pub frame_stop : ℕ
frame_stop = 0x16

-- `MBUS_FRAME_TYPE_*`. A switch on the type takes its default branch for `any`, as for every `int`
-- that names no type.
pub data FrameType : Type 0 where
  any ack short control long : FrameType

-- `data` of the struct is `content`; `next`, which links the frames of a multi-telegram answer,
-- is the list that `Link` keeps, and `timestamp` is left out.
pub record Frame : Type 0 where
  pub start1 : ℕ
  pub length1 : ℕ
  pub length2 : ℕ
  pub start2 : ℕ
  pub control : ℕ
  pub address : ℕ
  pub control_information : ℕ
  pub checksum : ℕ
  pub stop : ℕ
  pub content : List ℕ
  pub data_size : ℕ
  pub type : FrameType

-- What the types of the struct's fields allow, with a `data_size` inside the array.
pub record IsFrame (f : Frame) : Type 0 where
  pub control_byte : IsByte f.control
  pub address_byte : IsByte f.address
  pub information_byte : IsByte f.control_information
  pub content_length : length f.content ≡ frame_data_length
  pub content_bytes : AreBytes f.content
  pub size_fits : f.data_size ≤ frame_data_length

-- The bytes of the array that count.
abbrev pub payload : Frame → List ℕ
payload f = take f.data_size f.content

-- The struct after `memset` to 0.
abbrev pub zero_frame : Frame
zero_frame = record {
  start1 = 0;
  length1 = 0;
  length2 = 0;
  start2 = 0;
  control = 0;
  address = 0;
  control_information = 0;
  checksum = 0;
  stop = 0;
  content = replicate frame_data_length 0;
  data_size = 0;
  type = any;
}

-- `mbus_frame_new`, where `malloc` succeeds.
unfoldable pub frame_new : FrameType → Frame
frame_new any = zero_frame
frame_new ack = record zero_frame { type = ack; start1 = ack_start }
frame_new short = record zero_frame { type = short; start1 = short_start; stop = frame_stop }
frame_new control = record zero_frame {
  type = control;
  start1 = long_start;
  start2 = long_start;
  length1 = 3;
  length2 = 3;
  stop = frame_stop;
}
frame_new long = record zero_frame {
  type = long;
  start1 = long_start;
  start2 = long_start;
  stop = frame_stop;
}

-- The loop `cksum += frame->data[i]` on an `unsigned char`.
unfoldable pub add_bytes : ℕ → List ℕ → ℕ
add_bytes cksum [] = cksum
add_bytes cksum (b ∷ bs) = add_bytes (u8 (cksum + b)) bs

-- `calc_checksum`
unfoldable pub calc_checksum : Frame → ℕ
calc_checksum f =
    let fixed = u8 (f.control + f.address) in
    let with_information = u8 (fixed + f.control_information) in
    elim f.type [
      | short ↦ fixed
      | control ↦ with_information
      | long ↦ add_bytes with_information (payload f)
      | ack ↦ 0
      | any ↦ 0
    ]

-- `mbus_frame_calc_checksum`
unfoldable pub frame_calc_checksum : Frame → ℤ × Frame
frame_calc_checksum f = elim f.type [
  | any ↦ (minus_one, f)
  | _ ↦ (pos 0, record f { checksum = calc_checksum f })
]

-- `calc_length`: the sum is cut to an `unsigned char`.
unfoldable pub calc_length : Frame → ℕ
calc_length f = elim f.type [ control ↦ 3 | long ↦ u8 (f.data_size + 3) | _ ↦ 0 ]

-- `mbus_frame_calc_length`
unfoldable pub frame_calc_length : Frame → ℤ × Frame
frame_calc_length f = (pos 0, record f { length1 = calc_length f; length2 = calc_length f })

-- `mbus_frame_type`
abbrev pub frame_type : Frame → FrameType
frame_type f = f.type

-- `mbus_frame_direction`
unfoldable pub frame_direction : Frame → ℕ
frame_direction f = elim f.type [ ack ↦ 0 | _ ↦ bit_and f.control Control.dir ]

-- The control codes that `mbus_frame_verify` knows, by kind of frame.
unfoldable pub known_short : ℕ → Bool
known_short c =
    c == Control.snd_nke
    || c == Control.req_ud1
    || c == bit_or Control.req_ud1 Control.fcb
    || c == Control.req_ud2
    || c == bit_or Control.req_ud2 Control.fcb

unfoldable pub known_long : ℕ → Bool
known_long c =
    c == Control.snd_ud
    || c == bit_or Control.snd_ud Control.fcb
    || c == Control.rsp_ud
    || c == bit_or Control.rsp_ud Control.dfc
    || c == bit_or Control.rsp_ud Control.acd
    || c == bit_or (bit_or Control.rsp_ud Control.dfc) Control.acd

-- The tests behind the switch of `mbus_frame_verify`.
unfoldable pub verify_tail : Frame → ℤ
verify_tail f =
    if not (f.stop == frame_stop)
    then minus_one
    else (if not (f.checksum == calc_checksum f) then minus_one else pos 0)

unfoldable pub verify_long : Frame → ℤ
verify_long f =
    if not (f.start1 == long_start) || not (f.start2 == long_start)
    then minus_one
    else (if not (known_long f.control)
        then minus_one
        else (if not (f.length1 == f.length2)
            then minus_one
            else (if not (f.length1 == calc_length f) then minus_one else verify_tail f)))

-- `mbus_frame_verify`
unfoldable pub frame_verify : Frame → ℤ
frame_verify f = elim f.type [
  | ack ↦ if f.start1 == ack_start then pos 1 else pos 0
  | short ↦
      if not (f.start1 == short_start)
      then minus_one
      else (if not (known_short f.control) then minus_one else verify_tail f)
  | control ↦ verify_long f
  | long ↦ verify_long f
  | any ↦ minus_one
]

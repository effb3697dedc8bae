-- ===== src/Frame/Valid.antt =====
-- Which frames `frame_verify` accepts, said without its control flow.
use libmbus.Base.{ℕ, ◌+◌, ◌%◌, ◌≡◌, ◌≢◌, ◌↔◌, ◌⊎◌, refl, true, List, [], ◌∷◌, pos, u8, arith}
use libmbus.Frame.{
  Frame, FrameType, any, ack, short, control, long, ack_start, short_start, long_start, frame_stop,
  frame_verify, calc_checksum, calc_length, payload, known_short, known_long, verify_tail,
  verify_long, add_bytes,
}

-- The sum of a list of bytes.
unfoldable pub sum : List ℕ → ℕ
sum [] = 0
sum (b ∷ bs) = b + sum bs

add_bytes-sum : (acc : ℕ) (bs : List ℕ) → acc % 256 ≡ acc → add_bytes acc bs ≡ (acc + sum bs) % 256
unfolding add_bytes sum
add_bytes-sum acc [] h = omega arith
add_bytes-sum acc (b ∷ bs) h = omega (arith, add_bytes-sum (u8 (acc + b)) bs (omega arith))

-- The arithmetic sum that the standard prescribes, by kind of frame.
abbrev pub checksum_by : FrameType → Frame → ℕ
checksum_by short f = (f.control + f.address) % 256
checksum_by control f = (f.control + f.address + f.control_information) % 256
checksum_by long f = (f.control + f.address + f.control_information + sum (payload f)) % 256
checksum_by ack f = 0
checksum_by any f = 0

pub calc_checksum-by : (t : FrameType) (f : Frame) → f.type ≡ t → calc_checksum f ≡ checksum_by t f
unfolding calc_checksum
calc_checksum-by short f e = rw e (omega arith)
calc_checksum-by control f e = rw e (omega arith)
calc_checksum-by long f e =
    let acc = u8 (u8 (f.control + f.address) + f.control_information) in
    rw e (omega (arith, add_bytes-sum acc (payload f) (omega arith)))
calc_checksum-by ack f e = rw e
calc_checksum-by any f e = rw e

-- The checksum is the sum modulo 256 of the bytes that the frame's type counts.
pub calc_checksum-sum : (f : Frame) → calc_checksum f ≡ checksum_by f.type f
calc_checksum-sum f = calc_checksum-by f.type f refl

-- The control codes of the requests that a master sends in a short frame.
abbrev pub ShortCode : ℕ → Type 0
ShortCode c = (c ≡ 0x40) ⊎ (c ≡ 0x5A) ⊎ (c ≡ 0x7A) ⊎ (c ≡ 0x5B) ⊎ (c ≡ 0x7B)

-- The control codes of a message with user data, in either direction.
abbrev pub LongCode : ℕ → Type 0
LongCode c = (c ≡ 0x53) ⊎ (c ≡ 0x73) ⊎ (c ≡ 0x08) ⊎ (c ≡ 0x18) ⊎ (c ≡ 0x28) ⊎ (c ≡ 0x38)

known_short_iff : (c : ℕ) → (known_short c ≡ true) ↔ ShortCode c
unfolding known_short
known_short_iff c = ground arith

known_long_iff : (c : ℕ) → (known_long c ≡ true) ↔ LongCode c
unfolding known_long
known_long_iff c = ground arith

-- A frame in order, by its type; no frame of an unknown type is.
abbrev pub InOrder : FrameType → Frame → Type 0
InOrder short f =
    (f.start1 ≡ short_start)
    × ShortCode f.control
    × (f.stop ≡ frame_stop)
    × (f.checksum ≡ checksum_by short f)
InOrder control f =
    (f.start1 ≡ long_start)
    × (f.start2 ≡ long_start)
    × LongCode f.control
    × (f.length1 ≡ f.length2)
    × (f.length1 ≡ 3)
    × (f.stop ≡ frame_stop)
    × (f.checksum ≡ checksum_by control f)
InOrder long f =
    (f.start1 ≡ long_start)
    × (f.start2 ≡ long_start)
    × LongCode f.control
    × (f.length1 ≡ f.length2)
    × (f.length1 ≡ (f.data_size + 3) % 256)
    × (f.stop ≡ frame_stop)
    × (f.checksum ≡ checksum_by long f)
InOrder ack f = f.start1 ≢ ack_start
InOrder any f = ⊥

verify_tail_iff :
    (t : FrameType) (f : Frame)
    → f.type ≡ t
    → (verify_tail f ≡ pos 0) ↔ ((f.stop ≡ frame_stop) × (f.checksum ≡ checksum_by t f))
unfolding verify_tail
verify_tail_iff t f e = ground (arith, calc_checksum-by t f e)

pub calc_length-by :
    (f : Frame)
    → (f.type ≡ control → calc_length f ≡ 3)
      × (f.type ≡ long → calc_length f ≡ (f.data_size + 3) % 256)
unfolding calc_length
calc_length-by f = (λ e. rw e, λ e. rw e)

verify_long_iff :
    (f : Frame)
    → (verify_long f ≡ pos 0) ↔ (
        (f.start1 ≡ long_start)
        × (f.start2 ≡ long_start)
        × (known_long f.control ≡ true)
        × (f.length1 ≡ f.length2)
        × (f.length1 ≡ calc_length f)
        × (verify_tail f ≡ pos 0))
unfolding verify_long
verify_long_iff f = ground arith

pub frame_verify-by :
    (t : FrameType) (f : Frame) → f.type ≡ t → (frame_verify f ≡ pos 0) ↔ InOrder t f
unfolding frame_verify
frame_verify-by short f e = ground (arith, verify_tail_iff short f e, known_short_iff f.control)
frame_verify-by control f e = ground (
  arith,
  verify_tail_iff control f e,
  known_long_iff f.control,
  verify_long_iff f,
  (calc_length-by f).0 e,
)
frame_verify-by long f e = ground (
  arith,
  verify_tail_iff long f e,
  known_long_iff f.control,
  verify_long_iff f,
  (calc_length-by f).1 e,
)
frame_verify-by ack f e = ground arith
frame_verify-by any f e = ground arith

-- `frame_verify` returns 0 for a short, control or long frame exactly when its start, length, stop
-- and checksum fields and its control code are in order, never for a frame of unknown type, and for
-- an acknowledgement exactly when its start byte is not the byte 0xE5.
pub frame_verify_iff : (f : Frame) → (frame_verify f ≡ pos 0) ↔ InOrder f.type f
frame_verify_iff f = frame_verify-by f.type f refl

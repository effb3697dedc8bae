-- ===== src/Frame/Parse.antt =====
-- `mbus_parse` of mbus/mbus-protocol.c: the length of the list is `data_size`. The model returns
-- the function's result (0 for a frame, how many bytes are missing, or an error) and the frame as
-- it was left. The reads stay inside the list, since each stands behind a test of its length.
use libmbus.Base.{
  ℕ, ◌+◌, ◌-◌, not, List, [], ◌∷◌, ℤ, pos, minus_one, minus_two, minus_three, minus_four, is_zero,
  if◌then◌else◌, ltb, ◌==◌, length, take, drop, overlay, byte_at,
}
use libmbus.Frame.{
  Frame, ack, short, control, long, ack_start, short_start, long_start, frame_verify,
}

-- `if (mbus_frame_verify(frame) != 0) return -3; return 0;`
unfoldable pub verified : Frame → ℤ × Frame
verified f = if is_zero (frame_verify f) then (pos 0, f) else (minus_three, f)

-- The frame with the five bytes of a short frame stored.
unfoldable pub store_short : Frame → List ℕ → Frame
store_short f d = record f {
  start1 = byte_at d 0;
  control = byte_at d 1;
  address = byte_at d 2;
  checksum = byte_at d 3;
  stop = byte_at d 4;
  type = short;
}

unfoldable pub parse_short : Frame → List ℕ → ℤ × Frame
parse_short f d =
    if ltb (length d) 5
    then (pos (5 - length d), f)
    else (if not (length d == 5) then (minus_two, f) else verified (store_short f d))

-- The first three bytes stored, and then the rest of a complete frame of `length d` bytes.
unfoldable pub store_lengths : Frame → List ℕ → Frame
store_lengths f d = record f { start1 = byte_at d 0; length1 = byte_at d 1; length2 = byte_at d 2 }

unfoldable pub store_long : Frame → List ℕ → Frame
store_long f d =
    let size = byte_at d 1 - 3 in
    record f {
      start2 = byte_at d 3;
      control = byte_at d 4;
      address = byte_at d 5;
      control_information = byte_at d 6;
      data_size = size;
      content = overlay (take size (drop 7 d)) f.content;
      checksum = byte_at d (length d - 2);
      stop = byte_at d (length d - 1);
      type = if size == 0 then control else long;
    }

unfoldable pub parse_long : Frame → List ℕ → ℤ × Frame
unfolding store_lengths
parse_long f d =
    let g = store_lengths f d in
    if ltb (length d) 3
    then (pos (3 - length d), f)
    else (if ltb g.length1 3
        then (minus_two, g)
        else (if not (g.length1 == g.length2)
            then (minus_two, g)
            else (if ltb (length d) (6 + g.length1)
                then (pos (6 + g.length1 - length d), g)
                else (if ltb (6 + g.length1) (length d)
                    then (minus_two, g)
                    else verified (store_long g d)))))

unfoldable pub parse : Frame → List ℕ → ℤ × Frame
parse f [] = (minus_one, f)
parse f (b ∷ rest) =
    if b == ack_start
    then (pos 0, record f { start1 = b; type = ack })
    else (if b == short_start
        then parse_short f (b ∷ rest)
        else (if b == long_start then parse_long f (b ∷ rest) else (minus_four, f)))

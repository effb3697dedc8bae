-- ===== src/Frame/Pack.antt =====
-- `mbus_frame_pack` of mbus/mbus-protocol.c. Besides the returned number and the frame, whose
-- length and checksum fields it fills in, the model returns the bytes written to `data`.
use libmbus.Base.{
  ℕ, ◌+◌, List, [], ◌∷◌, ◌++◌, ℤ, pos, minus_two, minus_three, minus_four, minus_five, is_minus_one,
  if◌then◌else◌, ltb, length,
}
use libmbus.Frame.{
  Frame, any, ack, short, control, long, payload, frame_calc_length, frame_calc_checksum,
}

-- What `data[offset++] = ...` has written, and `return offset`.
abbrev pub written : Frame → List ℕ → ℤ × Frame × List ℕ
written f out = (pos (length out), f, out)

-- The first seven bytes of a control or a long frame.
abbrev pub header : Frame → List ℕ
header f =
    f.start1 ∷ f.length1 ∷ f.length2 ∷ f.start2 ∷ f.control ∷ f.address ∷ f.control_information ∷ []

abbrev pub trailer : Frame → List ℕ
trailer f = f.checksum ∷ f.stop ∷ []

-- The switch of `mbus_frame_pack`, with room for `room` bytes in `data`.
unfoldable pub pack_switch : Frame → ℕ → ℤ × Frame × List ℕ
pack_switch f room = elim f.type [
  | ack ↦ if ltb room 1 then (minus_four, f, []) else written f (f.start1 ∷ [])
  | short ↦
      if ltb room 5
      then (minus_four, f, [])
      else written f (f.start1 ∷ f.control ∷ f.address ∷ f.checksum ∷ f.stop ∷ [])
  | control ↦ if ltb room 9 then (minus_four, f, []) else written f (header f ++ trailer f)
  | long ↦
      if ltb room (f.data_size + 9)
      then (minus_four, f, [])
      else written f (header f ++ (payload f ++ trailer f))
  | any ↦ (minus_five, f, [])
]

unfoldable pub frame_pack : Frame → ℕ → ℤ × Frame × List ℕ
frame_pack f room =
    let (measured, f1) = frame_calc_length f in
    let (summed, f2) = frame_calc_checksum f1 in
    if is_minus_one measured
    then (minus_two, f1, [])
    else (if is_minus_one summed then (minus_three, f2, []) else pack_switch f2 room)

-- ===== src/Tests/Frames.antt =====
-- Frames: packing, parsing and checking.
use libmbus.Base.{◌≡◌, ◌↔◌, refl, inl, inr, [], ◌∷◌, arith, pos}
use libmbus.Frame.{
  frame_verify, frame_calc_length, frame_calc_checksum, calc_length, calc_checksum, add_bytes,
  known_long, verify_long, verify_tail, zero_frame,
}
use libmbus.Frame.Pack.{frame_pack, pack_switch}
use libmbus.Frame.Parse.{parse, parse_long, store_long, store_lengths, verified}
use libmbus.Frame.Valid.{calc_checksum-sum, checksum_by, frame_verify_iff, InOrder}
use libmbus.Frame.RoundTrip.{Delivered, parse-frame_pack}
use libmbus.Frame.Prefix.{Wants, parse-part}
use libmbus.Frame.Repack.{frame_pack-parse}
use libmbus.Tests.Data.{answer, answer_packet, answer-IsFrame}

calc_checksum-sum_example : calc_checksum answer ≡ checksum_by answer.type answer
calc_checksum-sum_example = calc_checksum-sum answer

frame_verify_iff_example : (frame_verify answer ≡ pos 0) ↔ InOrder answer.type answer
frame_verify_iff_example = frame_verify_iff answer

parse-frame_pack_example : Delivered answer.type answer (parse zero_frame (frame_pack answer 252).2)
parse-frame_pack_example =
    parse-frame_pack answer zero_frame 252 answer-IsFrame (refl, refl, inr (inr (inl refl)), refl)
      refl (omega arith)

pack_run : (frame_pack answer 252).2 ≡ answer_packet
unfolding frame_pack pack_switch frame_calc_length calc_length frame_calc_checksum calc_checksum
    add_bytes
pack_run = refl

parse_run : (parse zero_frame answer_packet).0 ≡ pos 0
unfolding parse parse_long store_long store_lengths verified frame_verify verify_long verify_tail
    known_long calc_checksum add_bytes calc_length
parse_run = refl

parse-part_example : Wants 8 zero_frame (0x68 ∷ 6 ∷ 6 ∷ 0x68 ∷ [])
parse-part_example =
    parse-part zero_frame zero_frame 0x68 (6 ∷ 6 ∷ 0x68 ∷ [])
      (0x08 ∷ 1 ∷ 0x72 ∷ 1 ∷ 2 ∷ 3 ∷ 0x81 ∷ 0x16 ∷ []) (omega arith) (omega arith) parse_run

frame_pack-parse_example : (frame_pack (parse zero_frame answer_packet).1 12).2 ≡ answer_packet
frame_pack-parse_example =
    frame_pack-parse zero_frame answer_packet 12 refl (omega arith) (λ e. absurd (omega arith))
      parse_run

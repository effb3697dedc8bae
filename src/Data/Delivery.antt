-- ===== src/Data/Delivery.antt =====
-- An answer from the slave's packer to the master's parser: `mbus_frame_internal_pack`,
-- `mbus_frame_pack`, `mbus_parse` and `mbus_frame_data_parse` one after another.
use libmbus.Base.{
  ℕ, ◌+◌, ◌≤◌, ◌≡◌, refl, sym, ap, subst, ◌∙◌, length, arith, le→leb, take-overlay, bit_and,
  overlay, ℤ,
}
use libmbus.Frame.{Frame, long, frame_data_length, payload, IsFrame}
use libmbus.Frame.Control
use libmbus.Frame.Pack.{frame_pack}
use libmbus.Frame.Parse.{parse}
use libmbus.Frame.RoundTrip.{CanSend, Delivered, parse-frame_pack, packed_size}
use libmbus.Data.Outcome.{done, in_bounds}
use libmbus.Data.Fixed.{
  FrameData, error, fixed, variable, frame_data_parse, data_bytes, frame_internal_pack,
}
use libmbus.Data.Answer.{IsAnswer, frame_data_parse-payload}

abbrev packed : Frame → FrameData → Frame
packed f d = record f {
  content = overlay (data_bytes d) f.content;
  data_size = length (data_bytes d);
}

frame_internal_pack-packed :
    (f : Frame) (d : FrameData)
    → length (data_bytes d) ≤ frame_data_length
    → frame_internal_pack f d ≡ done (packed f d)
unfolding frame_internal_pack in_bounds
frame_internal_pack-packed f d fits = rw (le→leb (length (data_bytes d)) 252 fits) refl

IsAnswer-information :
    (f g : Frame) (d : FrameData)
    → g.control_information ≡ f.control_information
    → IsAnswer f d
    → IsAnswer g d
IsAnswer-information f g (error e) h k = (h ∙ k.0, k.1)
IsAnswer-information f g (fixed d) h k = (h ∙ k.0, k.1)
IsAnswer-information f g (variable v) h k = (h ∙ k.0, k.1, k.2, k.3)

payload-packed :
    (f : Frame) (d : FrameData)
    → length f.content ≡ frame_data_length
    → length (data_bytes d) ≤ frame_data_length
    → payload (packed f d) ≡ data_bytes d
payload-packed f d whole fits =
    take-overlay (data_bytes d) f.content (length (data_bytes d)) refl (omega (arith, whole, fits))

-- What `mbus_frame_internal_pack` packs into a frame from the slave, `mbus_frame_data_parse` reads
-- back from it: an error, an answer of fixed length, or one of variable length with any number of
-- plain records, if the bytes fit into the frame.
pub frame_data_parse-frame_internal_pack :
    (f : Frame) (d : FrameData)
    → length f.content ≡ frame_data_length
    → bit_and f.control Control.dir ≡ 0
    → IsAnswer f d
    → length (data_bytes d) ≤ frame_data_length
    → (g : Frame) × (frame_internal_pack f d ≡ done g) × (frame_data_parse g ≡ done d)
frame_data_parse-frame_internal_pack f d whole dir answer fits = (
  packed f d,
  frame_internal_pack-packed f d fits,
  frame_data_parse-payload (packed f d) d dir (IsAnswer-information f (packed f d) d refl answer)
      refl (payload-packed f d whole fits),
)

Delivered-answer :
    (f : Frame) (d : FrameData) (r : ℤ × Frame)
    → length f.content ≡ frame_data_length
    → bit_and f.control Control.dir ≡ 0
    → IsAnswer f d
    → length (data_bytes d) ≤ frame_data_length
    → Delivered long (packed f d) r
    → frame_data_parse r.1 ≡ done d
Delivered-answer f d r whole dir answer fits h =
    frame_data_parse-payload r.1 d (ap (λ t. bit_and t Control.dir) h.2 ∙ dir)
      (IsAnswer-information f r.1 d h.4 answer) h.5 (h.6 ∙ payload-packed f d whole fits)

-- The answer that a slave packs with `mbus_frame_internal_pack` into a long frame `h`, which it
-- packs with `mbus_frame_pack`, is what the master gets from `mbus_parse` and
-- `mbus_frame_data_parse`, whatever frame `g` it parses into, if the frame can be sent and the
-- answer fits its array and the room to pack: an error, a fixed answer, or a variable one of plain
-- records.
pub frame_data_parse-parse :
    (f h g : Frame) (d : FrameData) (room : ℕ)
    → length f.content ≡ frame_data_length
    → bit_and f.control Control.dir ≡ 0
    → IsAnswer f d
    → length (data_bytes d) ≤ frame_data_length
    → frame_internal_pack f d ≡ done h
    → h.type ≡ long
    → IsFrame h
    → CanSend long h
    → length g.content ≡ frame_data_length
    → length (data_bytes d) + 9 ≤ room
    → frame_data_parse (parse g (frame_pack h room).2).1 ≡ done d
frame_data_parse-parse f h g d room whole dir answer fits pack kind v s space enough =
    let wrapped : done (packed f d) ≡ done h = sym (frame_internal_pack-packed f d fits) ∙ pack in
    let same : packed f d ≡ h = cc in
    let size : h.data_size ≡ length (data_bytes d) = ap (λ t. t.data_size) (sym same) in
    let room_for : packed_size h.type h.data_size ≤ room =
      subst (λ t. packed_size t h.data_size ≤ room) (sym kind) (omega (arith, size, enough)) in
    let r = parse g (frame_pack h room).2 in
    let arrived : Delivered long h r =
      subst (λ t. Delivered t h r) kind
        (parse-frame_pack h g room v (subst (λ t. CanSend t h) (sym kind) s) space room_for) in
    Delivered-answer f d r whole dir answer fits
      (subst (λ t. Delivered long t r) (sym same) arrived)

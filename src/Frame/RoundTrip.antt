-- ===== src/Frame/RoundTrip.antt =====
-- `parse` reads back what `frame_pack` wrote.
use libmbus.Base.{
  ℕ, suc, ◌+◌, ◌%◌, ◌≡◌, ◌≢◌, ◌≤◌, refl, sym, ◌∙◌, ap, List, [], ◌∷◌, ◌++◌, ℤ, pos, arith, length,
  if◌then◌else◌, ◌==◌, length-take, take-overlay,
}
use libmbus.Frame.{
  Frame, FrameType, any, ack, short, control, long, ack_start, short_start, long_start, frame_stop,
  frame_verify, calc_checksum, calc_length, payload, IsFrame, frame_data_length, frame_calc_length,
  frame_calc_checksum,
}
use libmbus.Frame.Pack.{frame_pack, pack_switch, written, header, trailer}
use libmbus.Frame.Parse.{parse, verified, store_short}
use libmbus.Frame.Packet.{received, parse-packet, parse-short_packet}
use libmbus.Frame.Valid.{
  sum, calc_checksum-by, ShortCode, LongCode, frame_verify-by, calc_length-by,
}

abbrev measured : Frame → Frame
measured f = record f { length1 = calc_length f; length2 = calc_length f }

-- The frame as `frame_pack` leaves it.
abbrev pub prepared : Frame → Frame
prepared f = record f {
  length1 = calc_length f;
  length2 = calc_length f;
  checksum = calc_checksum f;
}

-- The size of the packed frame, by its type and the size of its data.
abbrev pub packed_size : FrameType → ℕ → ℕ
packed_size ack size = 1
packed_size short size = 5
packed_size control size = 9
packed_size long size = size + 9
packed_size any size = 0

-- The bytes of the packed frame.
abbrev pub packed_bytes : FrameType → Frame → List ℕ
packed_bytes ack f = f.start1 ∷ []
packed_bytes short f = f.start1 ∷ f.control ∷ f.address ∷ f.checksum ∷ f.stop ∷ []
packed_bytes control f = header f ++ trailer f
packed_bytes long f = header f ++ (payload f ++ trailer f)
packed_bytes any f = []

pack_switch-by :
    (t : FrameType) (f : Frame) (room : ℕ)
    → f.type ≡ t
    → t ≢ any
    → packed_size t f.data_size ≤ room
    → pack_switch f room ≡ written f (packed_bytes t f)
unfolding pack_switch
pack_switch-by t f room e n h = ground arith

frame_calc_checksum-known :
    (t : FrameType) (f : Frame)
    → f.type ≡ t
    → t ≢ any
    → frame_calc_checksum f ≡ (pos 0, record f { checksum = calc_checksum f })
unfolding frame_calc_checksum
frame_calc_checksum-known any f e n = absurd (n refl)
frame_calc_checksum-known ack f e n = rw e
frame_calc_checksum-known short f e n = rw e
frame_calc_checksum-known control f e n = rw e
frame_calc_checksum-known long f e n = rw e

calc_checksum-lengths :
    (f : Frame) (l : ℕ) → calc_checksum (record f { length1 = l; length2 = l }) ≡ calc_checksum f
unfolding calc_checksum
calc_checksum-lengths f l = refl

-- A frame of a known type is packed whole when there is room for it.
pub frame_pack-by :
    (t : FrameType) (f : Frame) (room : ℕ)
    → f.type ≡ t
    → t ≢ any
    → packed_size t f.data_size ≤ room
    → frame_pack f room ≡ written (prepared f) (packed_bytes t (prepared f))
unfolding frame_pack frame_calc_length
frame_pack-by t f room e n h =
    rw (frame_calc_checksum-known t (measured f) e n, calc_checksum-lengths f (calc_length f))
      (pack_switch-by t (prepared f) room e n h)

verified_ok : (f : Frame) → frame_verify f ≡ pos 0 → verified f ≡ (pos 0, f)
unfolding verified
verified_ok f e = rw e

-- What a sender has to fill in before it packs a frame of type `t`.
abbrev pub CanSend : FrameType → Frame → Type 0
CanSend ack f = f.start1 ≡ ack_start
CanSend short f = (f.start1 ≡ short_start) × ShortCode f.control × (f.stop ≡ frame_stop)
CanSend control f =
    (f.start1 ≡ long_start) × (f.start2 ≡ long_start) × LongCode f.control × (f.stop ≡ frame_stop)
CanSend long f =
    (f.start1 ≡ long_start) × (f.start2 ≡ long_start) × LongCode f.control × (f.stop ≡ frame_stop)
CanSend any f = ⊥

pub CanSend-known : (t : FrameType) (f : Frame) → CanSend t f → t ≢ any
CanSend-known any f s = absurd s
CanSend-known ack f s = λ e. cc
CanSend-known short f s = λ e. cc
CanSend-known control f s = λ e. cc
CanSend-known long f s = λ e. cc

-- The result `r` of `parse` is 0 and a frame with the fields of `f` that its type sends; a long
-- frame without data arrives as a control frame.
abbrev pub Delivered : FrameType → Frame → ℤ × Frame → Type 0
Delivered ack f r = (r.0 ≡ pos 0) × (r.1.type ≡ ack)
Delivered short f r =
    (r.0 ≡ pos 0) × (r.1.type ≡ short) × (r.1.control ≡ f.control) × (r.1.address ≡ f.address)
Delivered control f r =
    (r.0 ≡ pos 0)
    × (r.1.type ≡ control)
    × (r.1.control ≡ f.control)
    × (r.1.address ≡ f.address)
    × (r.1.control_information ≡ f.control_information)
    × (r.1.data_size ≡ 0)
Delivered long f r =
    (r.0 ≡ pos 0)
    × (r.1.type ≡ (if f.data_size == 0 then control else long))
    × (r.1.control ≡ f.control)
    × (r.1.address ≡ f.address)
    × (r.1.control_information ≡ f.control_information)
    × (r.1.data_size ≡ f.data_size)
    × (payload r.1 ≡ payload f)
Delivered any f r = ⊥

-- A packet with a correct sum passes `frame_verify`.
received-ok :
    (g : Frame) (l c a ci : ℕ) (p : List ℕ) (ck : ℕ)
    → LongCode c
    → l ≡ length p + 3
    → length p ≤ 252
    → length g.content ≡ 252
    → ck ≡ (c + a + ci + sum p) % 256
    → frame_verify (received g l long_start c a ci p ck frame_stop) ≡ pos 0
received-ok g l c a ci [] ck code e h room s =
    (frame_verify-by control (received g l long_start c a ci [] ck frame_stop) refl).1
      (refl, refl, code, refl, e, refl, unfold sum in (omega arith))
received-ok g l c a ci (x ∷ p) ck code e h room s =
    (frame_verify-by long (received g l long_start c a ci (x ∷ p) ck frame_stop) (ground arith)).1 (
      refl,
      refl,
      code,
      refl,
      omega arith,
      refl,
      s
          ∙ ap (λ t. (c + a + ci + sum t) % 256)
              (sym (take-overlay (x ∷ p) g.content (suc (length p)) refl (omega arith))),
    )

pub parse-ack :
    (g : Frame) (rest : List ℕ)
    → parse g (ack_start ∷ rest) ≡ (pos 0, record g { start1 = ack_start; type = ack })
unfolding parse
parse-ack g rest = refl

short_received : (g : Frame) (c a ck : ℕ) → Frame
short_received g c a ck = store_short g (short_start ∷ c ∷ a ∷ ck ∷ frame_stop ∷ [])

parse-packed_short :
    (g : Frame) (c a ck : ℕ)
    → ShortCode c
    → ck ≡ (c + a) % 256
    → parse g (short_start ∷ c ∷ a ∷ ck ∷ frame_stop ∷ []) ≡ (pos 0, short_received g c a ck)
unfolding short_received store_short
parse-packed_short g c a ck code e =
    parse-short_packet g c a ck frame_stop
    ∙ verified_ok (short_received g c a ck)
        ((frame_verify-by short (short_received g c a ck) refl).1 (refl, code, refl, e))

module _ (f g : Frame) (v : IsFrame f) (room : length g.content ≡ frame_data_length) where
  length-payload : length (payload f) ≡ f.data_size
  length-payload = omega (arith, length-take f.data_size f.content, v.content_length, v.size_fits)

  arrived : Frame
  arrived =
      received g (calc_length f) long_start f.control f.address f.control_information (payload f)
        (calc_checksum f) frame_stop

  parse-packed_long :
      f.type ≡ long → CanSend long f → parse g (packed_bytes long (prepared f)) ≡ (pos 0, arrived)
  unfolding arrived
  parse-packed_long t (s1, s2, code, st) =
      let size : calc_length f ≡ length (payload f) + 3 =
        omega (arith, (calc_length-by f).1 t, length-payload, v.size_fits) in
      simp (s1, s2, st)
        (parse-packet g (calc_length f) long_start f.control f.address f.control_information
            (payload f) (calc_checksum f) frame_stop size
          ∙ verified_ok _ (
              received-ok g (calc_length f) f.control f.address f.control_information (payload f)
                (calc_checksum f) code size (omega (arith, length-payload, v.size_fits)) room
                (calc_checksum-by long f t)))

  Delivered-arrived : Delivered long f (pos 0, arrived)
  unfolding arrived
  Delivered-arrived = (
    refl,
    rw length-payload refl,
    refl,
    refl,
    refl,
    length-payload,
    take-overlay (payload f) g.content (length (payload f)) refl
        (omega (arith, length-payload, v.size_fits)),
  )

  pub Delivered-parse :
      (t : FrameType)
      → f.type ≡ t
      → CanSend t f
      → Delivered t f (parse g (packed_bytes t (prepared f)))
  Delivered-parse any e s = s
  Delivered-parse ack e s = simp (s, parse-ack) (refl, refl)
  Delivered-parse short e (start, code, stop) =
      simp
        (
          start,
          stop,
          parse-packed_short g f.control f.address (calc_checksum f) code
              (calc_checksum-by short f e),
        )
        (unfold short_received store_short in (refl, refl, refl, refl))
  Delivered-parse control e (s1, s2, code, stop) =
      let size : calc_length f ≡ 3 = (calc_length-by f).0 e in
      let sum_fits : calc_checksum f
          ≡ (f.control + f.address + f.control_information + sum []) % 256 =
        calc_checksum-by control f e ∙ unfold sum in (omega arith) in
      simp
        (
          s1,
          s2,
          stop,
          parse-packet g (calc_length f) long_start f.control f.address f.control_information []
              (calc_checksum f) frame_stop size,
          verified_ok _ (
              received-ok g (calc_length f) f.control f.address f.control_information []
                (calc_checksum f) code size (omega arith) room sum_fits),
        )
        (refl, refl, refl, refl, refl, refl)
  Delivered-parse long e s = rw (parse-packed_long e s) Delivered-arrived

-- A frame of a known type whose fields are filled in as its type asks for is read back from its
-- packed bytes: `parse` returns 0 and a frame of the same type, control code, address, control
-- information and data (a long frame without data arrives as a control frame), whatever frame it
-- stores them in, if that frame's array has its size and there was room to pack.
pub parse-frame_pack :
    (f g : Frame) (room : ℕ)
    → IsFrame f
    → CanSend f.type f
    → length g.content ≡ frame_data_length
    → packed_size f.type f.data_size ≤ room
    → Delivered f.type f (parse g (frame_pack f room).2)
parse-frame_pack f g room v s h fits =
    rw (frame_pack-by f.type f room refl (CanSend-known f.type f s) fits)
      (Delivered-parse f g v h f.type refl s)

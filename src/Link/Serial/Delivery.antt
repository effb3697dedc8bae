-- ===== src/Link/Serial/Delivery.antt =====
-- From one end of a serial line to the other.
use libmbus.Base.{
  ℕ, ◌≤◌, ◌<◌, ◌≡◌, ◌≢◌, refl, ap, ◌∙◌, true, List, ◌++◌, ℤ, pos, arith, length, length-append,
  length-take, some, byte_at,
}
use libmbus.Frame.{
  Frame, FrameType, any, ack, short, control, long, frame_data_length, ack_start, IsFrame, payload,
}
use libmbus.Frame.Parse.{parse}
use libmbus.Frame.Pack.{frame_pack, trailer}
use libmbus.Frame.RoundTrip.{
  CanSend, CanSend-known, Delivered, Delivered-parse, frame_pack-by, prepared, packed_bytes,
  packed_size,
}
use libmbus.Link.Port.{Port, IsStream}
use libmbus.Link.Serial.{ok, serial_recv_frame, packet_buff_size}
use libmbus.Link.Serial.Stream.{IsWhole, serial_recv_frame-Reads}

Delivered-code :
    (t : FrameType) (f : Frame) (r : ℤ × Frame)
    → Delivered t f r
    → (r.0 ≡ pos 0) × Delivered t f (pos 0, r.1)
Delivered-code any f r h = absurd h
Delivered-code ack f r h = (h.0, (refl, h.1))
Delivered-code short f r h = (h.0, (refl, h.1, h.2, h.3))
Delivered-code control f r h = (h.0, (refl, h.1, h.2, h.3, h.4, h.5))
Delivered-code long f r h = (h.0, (refl, h.1, h.2, h.3, h.4, h.5, h.6))

length-packed :
    (t : FrameType) (f : Frame)
    → IsFrame f
    → t ≢ any
    → length (packed_bytes t (prepared f)) ≡ packed_size t f.data_size
length-packed any f v n = absurd (n refl)
length-packed ack f v n = refl
length-packed short f v n = refl
length-packed control f v n = refl
length-packed long f v n = omega (
  arith,
  length-append (payload f) (trailer (prepared f)),
  length-take f.data_size f.content,
  v.content_length,
  v.size_fits,
)

pub packed_size_bounds :
    (t : FrameType) (size : ℕ)
    → size ≤ frame_data_length
    → t ≢ any
    → (0 < packed_size t size) × (packed_size t size ≤ packet_buff_size)
packed_size_bounds any size h n = absurd (n refl)
packed_size_bounds ack size h n = omega arith
packed_size_bounds short size h n = omega arith
packed_size_bounds control size h n = omega arith
packed_size_bounds long size h n = omega arith

packed_alone :
    (t : FrameType) (f : Frame)
    → CanSend t f
    → byte_at (packed_bytes t (prepared f)) 0 ≡ ack_start
    → length (packed_bytes t (prepared f)) ≡ 1
packed_alone any f s e = absurd s
packed_alone ack f s e = refl
packed_alone short f s e = absurd (omega arith)
packed_alone control f s e = absurd (omega arith)
packed_alone long f s e = absurd (omega arith)

pub packed-IsWhole :
    (f : Frame) → IsFrame f → CanSend f.type f → IsWhole (packed_bytes f.type (prepared f))
packed-IsWhole f v s =
    let n = CanSend-known f.type f s in
    let size = length-packed f.type f v n in
    let bounds = packed_size_bounds f.type f.data_size v.size_fits n in
    record {
      parses = λ g h. (Delivered-code f.type f _ (Delivered-parse f g v h f.type refl s)).0;
      alone = packed_alone f.type f s;
      fits = omega (arith, size, bounds);
      some_bytes = omega (arith, size, bounds);
    }

-- A frame that can be sent, packed as `mbus_serial_send_frame` packs it and put on an open line in
-- front of any other bytes, is what the next `mbus_serial_recv_frame` returns, however the line cuts
-- the bytes into pieces: the result is OK, the frame has the fields that were sent, and exactly the
-- other bytes are left.
pub serial_recv_frame-frame_pack :
    {S : Type 0} (p : Port S) (to_come : S → List ℕ) (st : IsStream p to_come) (f g : Frame) (s : S)
    (rest : List ℕ)
    → IsFrame f
    → CanSend f.type f
    → length g.content ≡ frame_data_length
    → p.is_open s ≡ true
    → to_come s ≡ (frame_pack f packet_buff_size).2 ++ rest
    → (r : Frame) × (after : S) × (serial_recv_frame p s g ≡ some (ok, r, after))
      × Delivered f.type f (pos 0, r)
      × (to_come after ≡ rest)
serial_recv_frame-frame_pack p to_come st f g s rest v cs h open_line e =
    let n = CanSend-known f.type f cs in
    let packed =
      frame_pack-by f.type f packet_buff_size refl n
        (packed_size_bounds f.type f.data_size v.size_fits n).1 in
    let x =
      serial_recv_frame-Reads p to_come st (packed_bytes f.type (prepared f)) rest
        (packed-IsWhole f v cs) s g open_line h (e ∙ ap (λ t. t.2 ++ rest) packed) in
    (
      (parse x.before (packed_bytes f.type (prepared f))).1,
      x.after,
      x.result,
      (Delivered-code f.type f _ (Delivered-parse f x.before v x.room f.type refl cs)).1,
      x.line,
    )

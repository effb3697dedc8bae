-- ===== src/Master/Wire.antt =====
-- The serial transport as the transport of the master.
use libmbus.Base.{
  ℕ, zero, suc, ◌+◌, ◌≡◌, ◌≢◌, ◌⊎◌, refl, sym, subst, ◌++◌, arith, ℤ, pos, negsuc, minus_one, Bool,
  true, false, not, List, [], Option, some, none, length, ltb, Bool-cases, inl, inr, if◌then◌else◌,
  ◌==◌,
}
use libmbus.Frame.{
  Frame, zero_frame, calc_length, calc_checksum, frame_calc_length, calc_checksum,
  frame_calc_checksum, any,
}
use libmbus.Frame.Pack.{frame_pack, pack_switch}
use libmbus.Frame.RoundTrip.{prepared, packed_bytes, frame_pack-by, CanSend-known}
use libmbus.Link.Serial.Delivery.{packed_size_bounds}
use libmbus.Master.Handle.{Handle, Transport}
use libmbus.Master.Sendable.{Sendable}
use libmbus.Master.Receive.{purge_frames, purge_loop, recv_frame, is_echo, goes_on}
use libmbus.Master.Keeps.{Keeps, Keeps-bind, Keeps-ret, Keeps-if}
use libmbus.Master.Guarded.{Guarded, InPlace, Any}
use libmbus.Link.Port.{Port, Read, bytes, interrupted, would_block, failed}
use libmbus.Link.Serial.{
  RecvResult, error, Receiving, Round, aborted, stopped, again, loop_test, after_read, on_read,
  serial_round, serial_loop, serial_result, serial_recv_frame, serial_send_frame, enough_rounds,
  packet_buff_size,
}

-- What a receive function gave; the serial one always gives something.
abbrev received :
    {S : Type 0} → Option (RecvResult × Frame × S) → Frame → S → RecvResult × Frame × S
received none f s = (error, f, s)
received (some x) f s = x

-- The functions `recv` and `send` that `mbus_context_serial` puts into a handle.
abbrev pub serial_transport : {S : Type 0} → Port S → Transport S
serial_transport p = record {
  recv = λ s f. received (serial_recv_frame p s f) f s;
  send = serial_send_frame p;
}

-- Where a round of the receive loop leaves the line.
abbrev line : {S : Type 0} → Round S → S
line (aborted f s) = s
line (stopped code buff f s) = s
line (again r) = r.port

line-loop_test : {S : Type 0} (r : Receiving S) → line (loop_test r) ≡ r.port
unfolding loop_test
line-loop_test r = ground arith

line-on_read : {S : Type 0} (r : Receiving S) (s : S) (got : Read) → line (on_read r s got) ≡ s
unfolding on_read after_read
line-on_read r s (bytes xs) = ground (
  arith,
  line-loop_test (record r {
    port = s;
    buff = r.buff ++ xs;
    timeouts = if length xs == 0 then r.timeouts + 1 else r.timeouts;
  }),
)
line-on_read r s interrupted = refl
line-on_read r s would_block = refl
line-on_read r s failed = refl

module _ {S : Type 0} (p : Port S) (I : S → Type 0)
    (reads : (s : S) (n : ℕ) → I s → I (p.read s n).1) where
  serial_round-keeps : (r : Receiving S) → I r.port → I (line (serial_round p r))
  unfolding serial_round
  serial_round-keeps r i = elim (Bool-cases (ltb packet_buff_size (length r.buff + r.remaining))) [
    | inl e ↦ rw e i
    | inr e ↦ rw e (
        subst I (sym (line-on_read r _ (p.read r.port r.remaining).0)) (reads r.port r.remaining i))
  ]

  -- What the loop leaves, if it ends.
  Left : Option (Round S) → Type 0
  Left none = Unit {0}
  Left (some x) = I (line x)

  serial_loop-keeps : (fuel : ℕ) (r : Receiving S) → I r.port → Left (serial_loop p fuel r)
  unfolding serial_loop Left
  serial_loop-keeps zero r i = tt
  serial_loop-keeps (suc fuel) r i = go (serial_round p r) refl (serial_loop-keeps fuel)
    where
      go :
          (x : Round S)
          → serial_round p r ≡ x
          → ((r' : Receiving S) → I r'.port → Left (serial_loop p fuel r'))
          → Left (serial_loop p (suc fuel) r)
      go (aborted f s) e rest =
          rw (e, serial_loop) (subst (λ x. I (line x)) e (serial_round-keeps r i))
      go (stopped code buff f s) e rest =
          rw (e, serial_loop) (subst (λ x. I (line x)) e (serial_round-keeps r i))
      go (again r') e rest =
          rw (e, serial_loop) (rest r' (subst (λ x. I (line x)) e (serial_round-keeps r i)))

  serial_result-line : (x : Round S) → (serial_result p x).2 ≡ line x
  unfolding serial_result
  serial_result-line (aborted f s) = refl
  serial_result-line (stopped code buff f s) = refl
  serial_result-line (again r) = refl

  serial_recv_frame-keeps : (s : S) (f : Frame) → I s → I (received (serial_recv_frame p s f) f s).2
  unfolding serial_recv_frame Left
  serial_recv_frame-keeps s f i = elim (Bool-cases (not (p.is_open s))) [
    | inl e ↦ rw e i
    | inr e ↦ rw e (
        go _ (
          serial_loop-keeps enough_rounds
            (record { port = s; frame = f; buff = []; remaining = 1; timeouts = 0 }) i))
  ]
    where
      go :
          (x : Option (Round S))
          → Left x
          → I (received (elim x [ none ↦ none | some r ↦ some (serial_result p r) ]) f s).2
      go none l = i
      go (some x) l = subst I (sym (serial_result-line x)) l

pack_switch-frame : (f : Frame) (room : ℕ) → (pack_switch f room).1 ≡ f
unfolding pack_switch
pack_switch-frame f room = ground arith

calc_checksum-cases :
    (f : Frame)
    → (frame_calc_checksum f ≡ (minus_one, f))
      ⊎ (frame_calc_checksum f ≡ (pos 0, record f { checksum = calc_checksum f }))
unfolding frame_calc_checksum
calc_checksum-cases f = ground arith

frame_pack-InPlace : (f : Frame) (room : ℕ) → InPlace f (frame_pack f room).1
unfolding frame_pack frame_calc_length
frame_pack-InPlace f room =
    let f1 : Frame = record f { length1 = calc_length f; length2 = calc_length f } in
    elim (calc_checksum-cases f1) [
      | inl e ↦
          rw e record {
            length1 = f1.length1;
            length2 = f1.length2;
            checksum = f1.checksum;
            same = refl;
          }
      | inr e ↦ rw e record {
        length1 = f1.length1;
        length2 = f1.length2;
        checksum = calc_checksum f1;
        same = pack_switch-frame (record f1 { checksum = calc_checksum f1 }) room;
      }
    ]

-- What sending gives, for what packing gave.
abbrev sent : {S : Type 0} → Port S → S → ℤ × Frame × List ℕ → ℤ × Frame × S
sent p s (len, f, buff) = elim len [
  | negsuc n ↦ (minus_one, f, s)
  | pos n ↦ (let (written, s') = p.write s buff in (if written then pos 0 else minus_one, f, s'))
]

serial_send_frame-InPlace :
    {S : Type 0} (p : Port S) (s : S) (f : Frame) → InPlace f (serial_send_frame p s f).1
unfolding serial_send_frame
serial_send_frame-InPlace p s f = elim (Bool-cases (not (p.is_open s))) [
  | inl e ↦
      rw e record { length1 = f.length1; length2 = f.length2; checksum = f.checksum; same = refl }
  | inr e ↦ rw e (go (frame_pack f packet_buff_size) (frame_pack-InPlace f packet_buff_size))
]
  where
    go : (x : ℤ × Frame × List ℕ) → InPlace f x.1 → InPlace f (sent p s x).1
    go (pos n, g, buff) i = i
    go (negsuc n, g, buff) i = i

serial_send_frame-keeps :
    {S : Type 0} (p : Port S) (I : S → Type 0)
    → ((s : S) (f : Frame) → Sendable f → I s → I (p.write s (packed_bytes f.type (prepared f))).1)
    → (s : S) (f : Frame) → Sendable f
    → I s
    → I (serial_send_frame p s f).2
unfolding serial_send_frame
serial_send_frame-keeps p I writes s f ok i =
    let known : f.type ≢ any = CanSend-known f.type f ok.can_send in
    elim (Bool-cases (not (p.is_open s))) [
      | inl e ↦ rw e i
      | inr e ↦ rw e (
          subst (λ x. I (sent p s x).2)
            (sym (
              frame_pack-by f.type f packet_buff_size refl known
                (packed_size_bounds f.type f.data_size ok.frame.size_fits known).1))
            (writes s f ok i))
    ]

-- Purging keeps what receiving keeps.
module _ {S : Type 0} {I : S → Type 0} (t : Transport S) (h : Handle)
    (recv_keeps : (s : S) (f : Frame) → I s → I (t.recv s f).2) where
  recv_twice-Keeps : (f : Frame) → Keeps (Unit {0}) I Any (recv_frame t h f)
  unfolding recv_frame
  recv_twice-Keeps f = record {
    keeps = λ s i.
        let once = recv_keeps s f i in
        elim (Bool-cases (is_echo h (t.recv s f).1)) [
          | inl e ↦ rw e (tt, recv_keeps _ _ once)
          | inr e ↦ rw e (tt, once)
        ];
  }

  purge_loop-Keeps :
      (fuel : ℕ) (f : Frame) (found : Bool) → Keeps (Unit {0}) I Any (purge_loop t h fuel f found)
  unfolding purge_loop
  purge_loop-Keeps zero f found = record { keeps = λ s i. tt }
  purge_loop-Keeps (suc fuel) f found =
      Keeps-bind (recv_twice-Keeps f)
        (λ r _. Keeps-if (goes_on r.0) (λ _. purge_loop-Keeps fuel r.1 true) (λ _. Keeps-ret _ tt))

-- Over a serial line whose `read` keeps a property of the line, and whose `write` keeps it when the
-- bytes of a valid packet are written, the serial transport of a handle keeps the property when it
-- receives, when it sends a frame that can be sent, and when the line is purged, as far as purging
-- ends; and of the frames that are sent it changes the lengths and the checksum only.
pub serial_transport-Guarded :
    {S : Type 0} (p : Port S) (I : S → Type 0) (h : Handle) (drain : ℕ)
    → ((s : S) (n : ℕ) → I s → I (p.read s n).1)
    → ((s : S) (f : Frame) → Sendable f → I s → I (p.write s (packed_bytes f.type (prepared f))).1)
    → Guarded (Unit {0}) I (serial_transport p) h drain
unfolding purge_frames
serial_transport-Guarded p I h drain reads writes = record {
  recv_keeps = serial_recv_frame-keeps p I reads;
  send_keeps = serial_send_frame-keeps p I writes;
  in_place = serial_send_frame-InPlace p;
  purges =
      purge_loop-Keeps (serial_transport p) h (serial_recv_frame-keeps p I reads) drain zero_frame
        false;
}

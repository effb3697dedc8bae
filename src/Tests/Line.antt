-- ===== src/Tests/Line.antt =====
-- A serial line that brings at most two bytes with each `read`.
use libmbus.Base.{
  All, ℕ, zero, suc, ◌≤◌, ◌<◌, ◌≡◌, ◌≢◌, refl, sym, ap, inl, inr, true, List, [], ◌∷◌, ◌++◌, arith,
  length, take, drop, min, take-append-drop, length-take, some, none, pos,
}
use libmbus.Frame.{Frame, zero_frame}
use libmbus.Frame.Pack.{frame_pack}
use libmbus.Frame.RoundTrip.{Delivered, packed_bytes, prepared}
use libmbus.Link.Port.{Port, Read, bytes, interrupted, ReadsAtMost, IsStream}
use libmbus.Link.Tcp.{tcp_recv_frame}
use libmbus.Link.Tcp.Total.{Patient, tcp_recv_frame-total}
use libmbus.Link.Tcp.Stream.{tcp_recv_frame-Reads}
use libmbus.Link.Serial.{ok, serial_recv_frame, packet_buff_size}
use libmbus.Link.Serial.Total.{serial_recv_frame-total}
use libmbus.Master.Handle.{default_handle}
use libmbus.Master.Guarded.{Guarded}
use libmbus.Master.Wire.{serial_transport, serial_transport-Guarded}
use libmbus.Link.Serial.Stream.{IsWhole, Reads, serial_recv_frame-Reads}
use libmbus.Link.Serial.Delivery.{serial_recv_frame-frame_pack, packed-IsWhole}
use libmbus.Tests.Data.{answer, answer-IsFrame}

-- The state is the bytes to come.
abbrev two_at_once : Port (List ℕ)
two_at_once = record {
  is_open = λ s. true;
  read = λ s n. (bytes (take (min n 2) s), drop (min n 2) s);
  write = λ s sent. (true, s ++ sent);
}

abbrev all_to_come : List ℕ → List ℕ
all_to_come s = s

two_at_once-IsStream : IsStream two_at_once all_to_come
two_at_once-IsStream = record {
  chunk = λ s n. take (min n 2) s;
  after = λ s n. drop (min n 2) s;
  reads = λ s n some_room some_left. refl;
  some_read = λ s n some_room some_left. omega (arith, length-take (min n 2) s);
  at_most = λ s n some_room some_left. omega (arith, length-take (min n 2) s);
  in_order = λ s n some_room some_left. sym (take-append-drop (min n 2) s);
}

two_at_once-ReadsAtMost : ReadsAtMost two_at_once
two_at_once-ReadsAtMost s n xs s' e =
    let front : bytes (take (min n 2) s) ≡ bytes xs = ap (λ t. t.0) e in
    let same : take (min n 2) s ≡ xs = cc in omega (arith, ap length same, length-take (min n 2) s)

abbrev line : List ℕ
line = (frame_pack answer packet_buff_size).2 ++ (0xE5 ∷ [])

serial_recv_frame-total_example : serial_recv_frame two_at_once line zero_frame ≢ none
serial_recv_frame-total_example =
    serial_recv_frame-total two_at_once two_at_once-ReadsAtMost line zero_frame

serial_recv_frame-Reads_example :
    Reads two_at_once all_to_come two_at_once-IsStream
      (packed_bytes answer.type (prepared answer))
      (0xE5 ∷ [])
      (packed-IsWhole answer answer-IsFrame (refl, refl, inr (inr (inl refl)), refl))
      (serial_recv_frame two_at_once
        (packed_bytes answer.type (prepared answer) ++ (0xE5 ∷ []))
        zero_frame)
serial_recv_frame-Reads_example =
    serial_recv_frame-Reads two_at_once all_to_come two_at_once-IsStream
      (packed_bytes answer.type (prepared answer)) (0xE5 ∷ [])
      (packed-IsWhole answer answer-IsFrame (refl, refl, inr (inr (inl refl)), refl))
      (packed_bytes answer.type (prepared answer) ++ (0xE5 ∷ [])) zero_frame refl refl refl

serial_recv_frame-frame_pack_example :
    (r : Frame) × (after : List ℕ) × (serial_recv_frame two_at_once line zero_frame
      ≡ some (ok, r, after))
    × Delivered answer.type answer (pos 0, r)
    × (all_to_come after ≡ 0xE5 ∷ [])
serial_recv_frame-frame_pack_example =
    serial_recv_frame-frame_pack two_at_once all_to_come two_at_once-IsStream answer zero_frame line
      (0xE5 ∷ []) answer-IsFrame (refl, refl, inr (inr (inl refl)), refl) refl refl refl

abbrev interrupted_first : ℕ × List ℕ → ℕ → Read × (ℕ × List ℕ)
interrupted_first (suc k, s) n = (interrupted, (k, s))
interrupted_first (zero, s) n = (bytes (take (min n 2) s), (zero, drop (min n 2) s))

-- The same line, on which signals interrupt `read` first: so many as the state says.
abbrev with_signals : Port (ℕ × List ℕ)
with_signals = record {
  is_open = λ s. true;
  read = interrupted_first;
  write = λ s sent. (true, (s.0, s.1 ++ sent));
}

with_signals-ReadsAtMost : ReadsAtMost with_signals
with_signals-ReadsAtMost (suc k, s) n xs s' e =
    absurd (let f : interrupted ≡ bytes xs = ap (λ t. t.0) e in cc)
with_signals-ReadsAtMost (zero, s) n xs s' e =
    let front : bytes (take (min n 2) s) ≡ bytes xs = ap (λ t. t.0) e in
    let same : take (min n 2) s ≡ xs = cc in omega (arith, ap length same, length-take (min n 2) s)

with_signals-fewer :
    (s : ℕ × List ℕ) (n : ℕ)
    → ((with_signals.read s n).0 ≡ interrupted → (with_signals.read s n).1.0 < s.0)
      × ((with_signals.read s n).1.0 ≤ s.0)
with_signals-fewer (suc k, s) n = ((λ e. omega arith), omega arith)
with_signals-fewer (zero, s) n = ((λ e. absurd (cc)), omega arith)

with_signals-Patient : Patient with_signals (λ s. s.0)
with_signals-Patient = record {
  fewer = λ s n. (with_signals-fewer s n).0;
  no_more = λ s n. (with_signals-fewer s n).1;
}

tcp_recv_frame-total_example : tcp_recv_frame with_signals 2052 (3, line) zero_frame ≢ none
tcp_recv_frame-total_example =
    tcp_recv_frame-total with_signals (λ s. s.0) with_signals-ReadsAtMost with_signals-Patient 2052
      (3, line) zero_frame (omega arith)

tcp_recv_frame-Reads_example :
    Reads two_at_once all_to_come two_at_once-IsStream
      (packed_bytes answer.type (prepared answer))
      (0xE5 ∷ [])
      (packed-IsWhole answer answer-IsFrame (refl, refl, inr (inr (inl refl)), refl))
      (tcp_recv_frame two_at_once 400
        (packed_bytes answer.type (prepared answer) ++ (0xE5 ∷ []))
        zero_frame)
tcp_recv_frame-Reads_example =
    tcp_recv_frame-Reads two_at_once all_to_come two_at_once-IsStream
      (packed_bytes answer.type (prepared answer)) (0xE5 ∷ [])
      (packed-IsWhole answer answer-IsFrame (refl, refl, inr (inr (inl refl)), refl)) 400
      (packed_bytes answer.type (prepared answer) ++ (0xE5 ∷ [])) zero_frame (omega arith) refl refl

-- A silent line that keeps the packets that are written.
abbrev keeper : Port (List (List ℕ))
keeper = record {
  is_open = λ s. true;
  read = λ s n. (bytes [], s);
  write = λ s sent. (true, sent ∷ s);
}

serial_transport-Guarded_example :
    Guarded (Unit {0}) (All IsWhole) (serial_transport keeper) default_handle 3
serial_transport-Guarded_example =
    serial_transport-Guarded keeper (All IsWhole) default_handle 3 (λ s n i. i)
      (λ s f ok i. (packed-IsWhole f ok.frame ok.can_send, i))

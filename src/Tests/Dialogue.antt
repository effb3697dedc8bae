-- ===== src/Tests/Dialogue.antt =====
-- A line with three things to receive on it, which keeps a list of what is sent.
use libmbus.Base.{
  ℕ, ◌≤◌, ◌<◌, ◌≡◌, refl, arith, ℤ, pos, List, [], ◌∷◌, All, length, replicate, true, Option, some,
}
use libmbus.Frame.{Frame, zero_frame}
use libmbus.Link.Serial.{RecvResult, ok, invalid, timeout}
use libmbus.Master.Handle.{default_handle, max_data_retry_option, context_set_option, Transport}
use libmbus.Master.Receive.{goes_on}
use libmbus.Master.Request.{sendrecv_request}
use libmbus.Master.Scan.{Scanned, scan_2nd_address_range}
use libmbus.Master.Options.{IsHandle, Outcomes, context_set_option-IsHandle}
use libmbus.Master.Keeps.{Keeps}
use libmbus.Master.Sendable.{Sendable}
use libmbus.Master.Guarded.{Guarded, Any}
use libmbus.Master.Guarded.Quiet.{Quiet, purge_frames-Quiet}
use libmbus.Master.Guarded.Kept.{scan_2nd_address_range-total}
use libmbus.Master.Guarded.Asking.{IsAnswer}
use libmbus.Master.Guarded.Answered.{sendrecv_request-Answered}
use libmbus.Tests.Data.{answer}

context_set_option-IsHandle_example :
    IsHandle (context_set_option default_handle max_data_retry_option (pos 5)).1
    × Outcomes default_handle max_data_retry_option
        (pos 5)
        (context_set_option default_handle max_data_retry_option (pos 5))
context_set_option-IsHandle_example =
    context_set_option-IsHandle default_handle max_data_retry_option (pos 5)
      (record { data_retry_fits = omega arith; search_retry_fits = omega arith })

record Script : Type 0 where
  sent : List Frame
  pending : List (RecvResult × Frame)

abbrev next : Script → Frame → RecvResult × Frame × Script
next s f = elim s.pending [ [] ↦ (timeout, f, s) | x ∷ xs ↦ (x.0, x.1, record s { pending = xs }) ]

abbrev scripted : Transport Script
scripted = record { recv = next; send = λ s f. (pos 0, f, record s { sent = f ∷ s.sent }) }

-- Only frames that can be sent were sent, and no more than three things are to be received.
abbrev InOrder : Script → Type 0
InOrder s = All Sendable s.sent × (length s.pending ≤ 3)

abbrev load : Script → ℕ
load s = length s.pending

abbrev script : List Frame → List (RecvResult × Frame) → Script
script sent pending = record { sent = sent; pending = pending }

taken :
    (sent : List Frame) (p : List (RecvResult × Frame)) (f : Frame)
    → InOrder (script sent p)
    → InOrder (next (script sent p) f).2
      × (load (next (script sent p) f).2 ≤ length p)
      × (goes_on (next (script sent p) f).0 ≡ true → load (next (script sent p) f).2 < length p)
unfolding goes_on
taken sent [] f i = (i, omega arith, (λ g. absurd (cc)))
taken sent (x ∷ xs) f i = ((i.0, omega (arith, i.1)), omega arith, (λ g. omega arith))

scripted-Quiet : Quiet InOrder scripted load
scripted-Quiet = record {
  keeps = λ s f i. (taken s.sent s.pending f i).0;
  never_grows = λ s f i. (taken s.sent s.pending f i).1;
  takes_off = λ s f i. (taken s.sent s.pending f i).2;
}

scripted-Guarded : Guarded ⊥ InOrder scripted default_handle 4
scripted-Guarded = record {
  recv_keeps = scripted-Quiet.keeps;
  send_keeps = λ s f sendable i. ((sendable, i.0), i.1);
  in_place = λ s f. record {
    length1 = f.length1;
    length2 = f.length2;
    checksum = f.checksum;
    same = refl;
  };
  purges = purge_frames-Quiet scripted-Quiet default_handle 4 (λ s i. omega (arith, i.1));
}

-- Silence, then an answer, then something garbled.
abbrev three_things : Script
three_things = record {
  sent = [];
  pending = (timeout, zero_frame) ∷ (ok, answer) ∷ (invalid, zero_frame) ∷ [];
}

sendrecv_request-Answered_example :
    (x : (Option ℤ × List Frame) × Script) × (sendrecv_request scripted default_handle 4
        (pos 1)
        zero_frame
        2
        three_things
      ≡ some x)
    × IsAnswer 2 x.0
    × InOrder x.1
sendrecv_request-Answered_example =
    sendrecv_request-Answered scripted-Guarded (pos 1) zero_frame 2 three_things (tt, omega arith)

scan_2nd_address_range-total_example :
    (x : Scanned × Script) × (scan_2nd_address_range scripted default_handle 4
        (pos 7)
        (replicate 16 b'F')
        three_things
      ≡ some x)
    × Any x.0
    × InOrder x.1
scan_2nd_address_range-total_example =
    scan_2nd_address_range-total scripted-Guarded (pos 7) (replicate 16 b'F') three_things
      (tt, omega arith)

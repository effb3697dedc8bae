-- ===== src/Link/Serial.antt =====
-- `mbus_serial_recv_frame` and `mbus_serial_send_frame` of mbus/mbus-serial.c. The callbacks for
-- traces (`recv_event`, `send_event`) and `tcdrain` are left out.
pub mod Total
pub mod Stream
pub mod Delivery
use libmbus.Base.{
  ℕ, zero, suc, ◌+◌, ◌≡◌, Bool, true, false, not, ◌&&◌, List, [], ◌∷◌, ◌++◌, ℤ, pos, negsuc,
  minus_one, is_zero, if◌then◌else◌, ltb, leb, ◌==◌, length, Option, none, some,
}
use libmbus.Frame.{Frame}
use libmbus.Frame.Parse.{parse}
use libmbus.Frame.Pack.{frame_pack}
use libmbus.Link.Port.{Port, Read, bytes, interrupted, would_block, failed}

-- `MBUS_RECV_RESULT_*`
pub data RecvResult : Type 0 where
  ok error invalid timeout reset : RecvResult

abbrev pub packet_buff_size : ℕ
packet_buff_size = 384

-- The variables of the receive loop; `len` is the length of `buff`.
pub record Receiving (S : Type 0) : Type 0 where
  pub port : S
  pub frame : Frame
  pub buff : List ℕ
  pub remaining : ℕ
  pub timeouts : ℕ

-- The rounds that the loop makes at most: each brings a byte or counts a timeout.
abbrev pub enough_rounds : ℕ
enough_rounds = packet_buff_size + 4

-- How a round of the loop ends: a `return MBUS_RECV_RESULT_ERROR`, the end of the loop with the
-- value of `remaining`, or another round.
pub data Round (S : Type 0) : Type 0 where
  aborted : Frame → S → Round S
  stopped : ℤ → List ℕ → Frame → S → Round S
  again : Receiving S → Round S

-- `while ((remaining = mbus_parse(frame, buff, len)) > 0)`
unfoldable pub loop_test : {S : Type 0} → Receiving S → Round S
loop_test r =
    let (remaining, frame) = parse r.frame r.buff in
    elim remaining [
      | pos zero ↦ stopped (pos zero) r.buff frame r.port
      | pos (suc n) ↦ again (record r { frame = frame; remaining = suc n })
      | negsuc n ↦ stopped (negsuc n) r.buff frame r.port
    ]

-- The body of the loop behind a `read` that gave `xs`.
unfoldable pub after_read : {S : Type 0} → Receiving S → S → List ℕ → Round S
after_read r s xs =
    let timeouts = if length xs == 0 then r.timeouts + 1 else r.timeouts in
    if length xs == 0 && leb 3 timeouts
    then stopped (pos r.remaining) r.buff r.frame s
    else loop_test (record r { port = s; buff = r.buff ++ xs; timeouts = timeouts })

-- `read` returned -1, or the number of the bytes that it stored.
unfoldable pub on_read : {S : Type 0} → Receiving S → S → Read → Round S
on_read r s (bytes xs) = after_read r s xs
on_read r s interrupted = aborted r.frame s
on_read r s would_block = aborted r.frame s
on_read r s failed = aborted r.frame s

module _ {S : Type 0} (p : Port S) where
  -- One round. The test that `len` does not pass SSIZE_MAX is left out: `len` is at most 384.
  unfoldable pub serial_round : Receiving S → Round S
  serial_round r =
      if ltb packet_buff_size (length r.buff + r.remaining)
      then aborted r.frame r.port
      else (let (got, s) = p.read r.port r.remaining in on_read r s got)

  -- The loop, on fuel; `none` is no result of the code.
  unfoldable pub serial_loop : ℕ → Receiving S → Option (Round S)
  serial_loop zero r = none
  serial_loop (suc fuel) r = elim (serial_round r) [
    | aborted f s ↦ some (aborted f s)
    | stopped code buff f s ↦ some (stopped code buff f s)
    | again r' ↦ serial_loop fuel r'
  ]

  -- What stands behind the loop.
  unfoldable pub serial_result : Round S → RecvResult × Frame × S
  serial_result (aborted f s) = (error, f, s)
  serial_result (stopped code buff f s) =
      (if length buff == 0 then timeout else (if not (is_zero code) then invalid else ok), f, s)
  serial_result (again r) = (error, r.frame, r.port)

  unfoldable pub serial_recv_frame : S → Frame → Option (RecvResult × Frame × S)
  serial_recv_frame s f =
      if not (p.is_open s)
      then some (error, f, s)
      else (elim (serial_loop enough_rounds
          (record { port = s; frame = f; buff = []; remaining = 1; timeouts = 0 })) [
            | none ↦ none
            | some r ↦ some (serial_result r)
          ])

  -- The result, the frame with its length and checksum filled in, and the state.
  unfoldable pub serial_send_frame : S → Frame → ℤ × Frame × S
  serial_send_frame s f =
      if not (p.is_open s)
      then (minus_one, f, s)
      else (let (len, f', buff) = frame_pack f packet_buff_size in
          elim len [
            | negsuc n ↦ (minus_one, f', s)
            | pos n ↦
                (let (written, s') = p.write s buff in
                  (if written then pos 0 else minus_one, f', s'))
          ])

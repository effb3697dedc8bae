-- ===== src/Master/Request.antt =====
-- `mbus_sendrecv_request` of mbus/mbus-protocol-aux.c.
use libmbus.Base.{
  ℕ, zero, suc, ◌+◌, ◌*◌, ℤ, pos, minus_one, is_minus_one, Bool, false, not, ◌&&◌, Option, none,
  some, List, [], ◌∷◌, ◌++◌, if◌then◌else◌, ltb, bit_or, bit_xor,
}
use libmbus.Frame.{Frame, any, short, frame_new}
use libmbus.Frame.Control
use libmbus.Address.{is_primary_address}
use libmbus.Data.Outcome.{done, refused, fault, exhausted}
use libmbus.Data.Fixed.{FrameData, error, fixed, variable, frame_data_parse}
use libmbus.Link.Serial.{RecvResult, ok, invalid, timeout, reset}
use libmbus.Master.Handle.{Handle, Transport, Run, ◌>>=◌, ret, to_u8}
use libmbus.Master.Receive.{send_frame, recv_frame, purge_frames}

-- The variables of the loop: the request, the frame to receive into, the frames received before it,
-- and the counters. `frame_count` is the number of frames that were received with the result OK.
pub record Requesting : Type 0 where
  pub frame : Frame
  pub next_frame : Frame
  pub replies : List Frame
  pub retry : ℕ
  pub frame_count : ℕ

-- How a turn of the loop ends: with the value of `retval` and the frames that `reply` links, or with
-- another turn.
pub data Turn : Type 0 where
  finished : Option ℤ → List Frame → Turn
  again : Requesting → Turn

-- The frame of the request.
unfoldable pub data_request : ℤ → Frame
data_request address = record (frame_new short) {
  control = bit_or (bit_or (bit_or Control.req_ud2 Control.dir) Control.fcv) Control.fcb;
  address = to_u8 address;
}

-- `frame->control ^= MBUS_CONTROL_MASK_FCB`
unfoldable pub toggle_fcb : Frame → Frame
toggle_fcb f = record f { control = bit_xor f.control Control.fcb }

-- Does the answer say that more records follow?
unfoldable pub more_follow : FrameData → Bool
more_follow (error e) = false
more_follow (fixed d) = false
more_follow (variable v) = v.more_records_follow

-- What follows the test of the received frame's data, `r.next_frame`.
unfoldable pub on_data : ℕ → Requesting → FrameData → Turn
on_data max_frames r d =
    let all = r.replies ++ (r.next_frame ∷ []) in
    if more_follow d && (ltb 0 max_frames && ltb r.frame_count max_frames)
    then again (record r { frame = toggle_fcb r.frame; next_frame = frame_new any; replies = all })
    else finished (some (pos 0)) all

-- A frame was received. There is no value of `retval` where the parser leaves an array.
unfoldable pub on_frame : ℕ → Requesting → Turn
on_frame max_frames r = elim (frame_data_parse r.next_frame) [
  | done d ↦ on_data max_frames r d
  | refused ↦ finished (some (pos 1)) (r.replies ++ (r.next_frame ∷ []))
  | fault ↦ finished none (r.replies ++ (r.next_frame ∷ []))
  | exhausted ↦ finished none (r.replies ++ (r.next_frame ∷ []))
]

module _ {S : Type 0} (t : Transport S) (h : Handle) (drain : ℕ) where
  -- The result of `mbus_recv_frame`, with the frame that it left.
  unfoldable pub on_result : ℕ → Requesting → RecvResult → Run S Turn
  on_result max_frames r ok = do
    _ ← purge_frames t h drain
    ret (on_frame max_frames (record r { retry = 0; frame_count = r.frame_count + 1 }))
  on_result max_frames r timeout = ret (again (record r { retry = r.retry + 1 }))
  on_result max_frames r invalid = do
    _ ← purge_frames t h drain
    ret (again (record r { retry = r.retry + 1 }))
  on_result max_frames r RecvResult.error =
      ret (finished (some (pos 1)) (r.replies ++ (r.next_frame ∷ [])))
  on_result max_frames r reset = ret (finished (some (pos 1)) (r.replies ++ (r.next_frame ∷ [])))

  -- One turn of the loop.
  unfoldable pub turn : ℕ → Requesting → Run S Turn
  turn max_frames r =
      if ltb h.max_data_retry r.retry
      then ret (finished (some (pos 1)) (r.replies ++ (r.next_frame ∷ [])))
      else (do
        (sent, frame) ← send_frame t h r.frame
        (if is_minus_one sent
            then ret (finished (some minus_one) (r.replies ++ (r.next_frame ∷ [])))
            else (do
              (result, reply) ← recv_frame t h r.next_frame
              on_result max_frames (record r { frame = frame; next_frame = reply }) result)))

  -- The loop, on fuel.
  unfoldable pub turns : ℕ → ℕ → Requesting → Run S (Option ℤ × List Frame)
  turns zero max_frames r = λ s. none
  turns (suc fuel) max_frames r = do
    next ← turn max_frames r
    elim next [
      | finished retval replies ↦ ret (retval, replies)
      | again r' ↦ turns fuel max_frames r'
    ]

  -- For each frame one turn that brings it and as many more as there are tries, and a last one.
  abbrev pub enough_turns : ℕ → ℕ
  enough_turns max_frames = suc max_frames * (h.max_data_retry + 2)

  -- `mbus_sendrecv_request` into the frame `reply`: the result, and the frames that `reply` links.
  -- A negative `max_frames` has the effect of 0.
  unfoldable pub sendrecv_request : ℤ → Frame → ℕ → Run S (Option ℤ × List Frame)
  sendrecv_request address reply max_frames =
      if not (is_primary_address address)
      then ret (some (pos 1), reply ∷ [])
      else turns (enough_turns max_frames) max_frames record {
        frame = data_request address;
        next_frame = reply;
        replies = [];
        retry = 0;
        frame_count = 0;
      }

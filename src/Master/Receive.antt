-- ===== src/Master/Receive.antt =====
-- `mbus_recv_frame`, `mbus_purge_frames` and `mbus_send_frame` of mbus/mbus-protocol-aux.c.
use libmbus.Base.{ℕ, zero, suc, ℤ, Bool, true, false, none, some, ◌==◌, if◌then◌else◌}
use libmbus.Frame.{Frame, zero_frame, frame_direction}
use libmbus.Frame.Control
use libmbus.Link.Serial.{RecvResult, ok, error, invalid, timeout, reset}
use libmbus.Master.Handle.{Handle, purge_none, purge_m2s, purge_s2m, Transport, Run, ◌>>=◌, ret}

-- Does the frame go in the direction that is purged?
unfoldable pub is_echo : Handle → Frame → Bool
is_echo h f = elim h.purge_first_frame [
  | purge_none ↦ false
  | purge_m2s ↦ frame_direction f == Control.dir
  | purge_s2m ↦ frame_direction f == 0
]

-- Does the loop of `mbus_purge_frames` go on?
unfoldable pub goes_on : RecvResult → Bool
goes_on ok = true
goes_on invalid = true
goes_on error = false
goes_on timeout = false
goes_on reset = false

module _ {S : Type 0} (t : Transport S) (h : Handle) where
  -- `mbus_recv_frame`
  unfoldable pub recv_frame : Frame → Run S (RecvResult × Frame)
  recv_frame f = λ s.
      let (result, g, s') = t.recv s f in
      let (result', g', s'') = t.recv s' g in
      some (if is_echo h g then ((result', g'), s'') else ((result, g), s'))

  unfoldable pub purge_loop : ℕ → Frame → Bool → Run S Bool
  purge_loop zero reply received = λ s. none
  purge_loop (suc fuel) reply received = do
    (err, reply') ← recv_frame reply
    let more = purge_loop fuel reply' true
    (if goes_on err then more else ret received)

  -- `mbus_purge_frames`, with fuel for the frames on the line: whether one was received.
  unfoldable pub purge_frames : ℕ → Run S Bool
  purge_frames fuel = purge_loop fuel zero_frame false

  -- `mbus_send_frame`
  unfoldable pub send_frame : Frame → Run S (ℤ × Frame)
  send_frame f = λ s. let (result, g, s') = t.send s f in some ((result, g), s')

-- ===== src/Master/Select.antt =====
-- `mbus_select_secondary_address`, `mbus_probe_secondary_address` and `mbus_read_slave` of
-- mbus/mbus-protocol-aux.c.
use libmbus.Base.{
  ℕ, zero, suc, ◌+◌, ℤ, pos, minus_one, is_minus_one, Bool, true, false, not, List, [],
  if◌then◌else◌, ◌==◌, length,
}
use libmbus.Frame.{Frame, FrameType, any, ack, short, control, long, zero_frame, frame_type}
use libmbus.Address.{get_secondary_address, network_layer}
use libmbus.Data.Outcome.{done, refused, fault, exhausted}
use libmbus.Link.Serial.{RecvResult, ok, error, invalid, timeout, reset}
use libmbus.Master.Handle.{Handle, Transport, Run, ◌>>=◌, ret}
use libmbus.Master.Receive.{recv_frame, purge_frames}
use libmbus.Master.Send.{send_select_frame, send_request_frame}

-- `MBUS_PROBE_*`
pub data Probe : Type 0 where
  nothing single collision failed : Probe

-- What a probe finds: its result, and the address where one is stored.
abbrev pub Finding : Type 0
Finding = Probe × List ℕ

unfoldable pub is_ack : FrameType → Bool
is_ack ack = true
is_ack any = false
is_ack short = false
is_ack control = false
is_ack long = false

unfoldable pub is_long : FrameType → Bool
is_long long = true
is_long any = false
is_long ack = false
is_long short = false
is_long control = false

-- The address of the reply to a probe. Where the parser leaves an array the model gives `failed`.
unfoldable pub found_address : Frame → Finding
found_address reply = elim (get_secondary_address reply) [
  | done addr ↦ (single, addr)
  | refused ↦ (nothing, [])
  | fault ↦ (failed, [])
  | exhausted ↦ (failed, [])
]

module _ {S : Type 0} (t : Transport S) (h : Handle) (drain : ℕ) where
  -- The end of `mbus_select_secondary_address`, with the type of the reply.
  unfoldable pub on_select_reply : FrameType → Run S Probe
  on_select_reply type =
      if is_ack type
      then (do received ← purge_frames t h drain; ret (if received then collision else single))
      else ret nothing

  unfoldable pub on_select_result : Frame → RecvResult → Run S Probe
  on_select_result reply timeout = ret nothing
  on_select_result reply invalid = do _ ← purge_frames t h drain; ret collision
  on_select_result reply ok = on_select_reply (frame_type reply)
  on_select_result reply error = on_select_reply (frame_type reply)
  on_select_result reply reset = on_select_reply (frame_type reply)

  -- `mbus_select_secondary_address`
  unfoldable pub select_secondary_address : List ℕ → Run S Probe
  select_secondary_address mask = if not (length mask == 16) then ret failed else (do
    sent ← send_select_frame t h mask
    (if is_minus_one sent
        then ret failed
        else (do (result, reply) ← recv_frame t h zero_frame; on_select_result reply result)))

  -- What `mbus_probe_secondary_address` does with the reply to its request.
  unfoldable pub on_request_reply : Frame → Run S Finding
  on_request_reply reply = do
    received ← purge_frames t h drain
    ret (
        if received
        then (collision, [])
        else (if is_long (frame_type reply) then found_address reply else (nothing, [])))

  unfoldable pub on_request_result : Frame → RecvResult → Run S Finding
  on_request_result reply timeout = ret (nothing, [])
  on_request_result reply invalid = do _ ← purge_frames t h drain; ret (collision, [])
  on_request_result reply ok = on_request_reply reply
  on_request_result reply error = on_request_reply reply
  on_request_result reply reset = on_request_reply reply

  -- A slave is selected: it is asked for its address.
  unfoldable pub ask_selected : Run S Finding
  ask_selected = do
    sent ← send_request_frame t h (pos network_layer)
    (if is_minus_one sent
        then ret (failed, [])
        else (do (result, reply) ← recv_frame t h zero_frame; on_request_result reply result))

  -- The loop of `mbus_probe_secondary_address`, with `left` turns to go and the result of the one
  -- before.
  unfoldable pub search_turns : ℕ → List ℕ → Probe → Run S Finding
  search_turns zero mask ret_before = ret (ret_before, [])
  search_turns (suc left) mask ret_before = do
    found ← select_secondary_address mask
    let rest = search_turns left mask found
    elim found [
      | single ↦ ask_selected
      | failed ↦ ret (failed, [])
      | collision ↦ ret (collision, [])
      | nothing ↦ rest
    ]

  -- `mbus_probe_secondary_address`
  unfoldable pub probe_secondary_address : List ℕ → Run S Finding
  probe_secondary_address mask =
      if not (length mask == 16)
      then ret (failed, [])
      else search_turns (h.max_search_retry + 1) mask failed

-- `mbus_address`
pub data SlaveAddress : Type 0 where
  primary : ℤ → SlaveAddress
  secondary : List ℕ → SlaveAddress

module _ {S : Type 0} (t : Transport S) (h : Handle) (drain : ℕ) where
  -- Selecting, for a secondary address, and the request.
  unfoldable pub ask_slave : SlaveAddress → Run S ℤ
  ask_slave (primary address) = send_request_frame t h address
  ask_slave (secondary mask) = do
    found ← select_secondary_address t h drain mask
    elim found [
      | single ↦ send_request_frame t h (pos network_layer)
      | nothing ↦ ret minus_one
      | collision ↦ ret minus_one
      | failed ↦ ret minus_one
    ]

  -- `mbus_read_slave`
  unfoldable pub read_slave : SlaveAddress → Frame → Run S (ℤ × Frame)
  read_slave address reply = do
    asked ← ask_slave address
    (if is_minus_one asked then ret (minus_one, reply) else (do
      (result, reply') ← recv_frame t h reply
      ret (elim result [ ok ↦ pos 0 | _ ↦ minus_one ], reply')))

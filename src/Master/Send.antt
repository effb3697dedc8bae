-- ===== src/Master/Send.antt =====
-- The functions of mbus/mbus-protocol-aux.c that send one frame: `mbus_send_select_frame` to
-- `mbus_set_primary_address`, and `mbus_send_ping_frame`.
use libmbus.Base.{
  ℕ, ℤ, pos, negsuc, minus_one, is_minus_one, Bool, false, not, ◌||◌, Option, none, some, List, [],
  ◌∷◌, ◌==◌, if◌then◌else◌, ltb, length, bit_or, overlay,
}
use libmbus.Frame.{Frame, short, control, long, frame_new, frame_data_length}
use libmbus.Frame.Control
use libmbus.Address.{is_primary_address, select_secondary_pack, network_layer}
use libmbus.Master.Handle.{Handle, Transport, Run, ◌>>=◌, ret, to_u8}
use libmbus.Master.Receive.{send_frame, purge_frames}

-- The control information for a baud rate.
unfoldable pub baudrate_information : ℤ → Option ℕ
baudrate_information (negsuc n) = none
baudrate_information (pos n) =
    if n == 300
    then some 0xB8
    else (if n == 600
        then some 0xB9
        else (if n == 1200
            then some 0xBA
            else (if n == 2400
                then some 0xBB
                else (if n == 4800
                    then some 0xBC
                    else (if n == 9600
                        then some 0xBD
                        else (if n == 19200
                            then some 0xBE
                            else (if n == 38400 then some 0xBF else none)))))))

abbrev pub application_reset : ℕ
application_reset = 0x50

abbrev pub data_send : ℕ
data_send = 0x51

abbrev pub broadcast_reply : ℕ
broadcast_reply = 0xFE

abbrev pub broadcast_noreply : ℕ
broadcast_noreply = 0xFF

-- `MBUS_CONTROL_MASK_SND_UD | MBUS_CONTROL_MASK_DIR_M2S`
abbrev pub user_data_control : ℕ
user_data_control = bit_or Control.snd_ud Control.dir

-- The frame of `mbus_send_switch_baudrate_frame`.
unfoldable pub baudrate_frame : ℤ → ℕ → Frame
baudrate_frame address information = record (frame_new control) {
  control = user_data_control;
  address = to_u8 address;
  control_information = information;
}

-- The frame of `mbus_send_application_reset_frame`; a negative subcode is none.
unfoldable pub reset_frame : ℤ → ℤ → Frame
reset_frame address (pos subcode) = record (frame_new long) {
  control = user_data_control;
  address = to_u8 address;
  control_information = application_reset;
  data_size = 1;
  content = overlay (to_u8 (pos subcode) ∷ []) (frame_new long).content;
}
reset_frame address (negsuc n) = record (frame_new long) {
  control = user_data_control;
  address = to_u8 address;
  control_information = application_reset;
  data_size = 0;
}

-- The frame of `mbus_send_request_frame`.
unfoldable pub request_frame : ℤ → Frame
request_frame address = record (frame_new short) {
  control = bit_or Control.req_ud2 Control.dir;
  address = to_u8 address;
}

-- The frame of `mbus_send_user_data_frame`.
unfoldable pub user_data_frame : ℤ → List ℕ → Frame
user_data_frame address d = record (frame_new long) {
  control = user_data_control;
  address = to_u8 address;
  control_information = data_send;
  data_size = length d;
  content = overlay d (frame_new long).content;
}

-- The frame of `mbus_send_ping_frame`.
unfoldable pub ping_frame : ℤ → Frame
ping_frame address = record (frame_new short) {
  control = bit_or Control.snd_nke Control.dir;
  address = to_u8 address;
}

-- Is the primary address reserved?
unfoldable pub is_reserved : ℤ → Bool
is_reserved (negsuc n) = false
is_reserved (pos n) = n == network_layer || n == broadcast_reply || n == broadcast_noreply

module _ {S : Type 0} (t : Transport S) (h : Handle) where
  -- Sending a frame of which the function keeps nothing but the success.
  unfoldable pub transmit : Frame → Run S ℤ
  transmit f = do
    (result, _) ← send_frame t h f
    ret (if is_minus_one result then minus_one else pos 0)

  -- `mbus_send_select_frame`
  unfoldable pub send_select_frame : List ℕ → Run S ℤ
  send_select_frame mask =
      let (packed, f) = select_secondary_pack (frame_new long) mask in
      if is_minus_one packed then ret minus_one else transmit f

  -- `mbus_send_switch_baudrate_frame`
  unfoldable pub send_switch_baudrate_frame : ℤ → ℤ → Run S ℤ
  send_switch_baudrate_frame address baudrate =
      if not (is_primary_address address)
      then ret minus_one
      else (elim (baudrate_information baudrate) [
        | none ↦ ret minus_one
        | some information ↦ transmit (baudrate_frame address information)
      ])

  -- `subcode > 0xFF`
  unfoldable pub is_over_byte : ℤ → Bool
  is_over_byte (pos n) = ltb 0xFF n
  is_over_byte (negsuc n) = false

  -- `mbus_send_application_reset_frame`
  unfoldable pub send_application_reset_frame : ℤ → ℤ → Run S ℤ
  send_application_reset_frame address subcode =
      if not (is_primary_address address)
      then ret minus_one
      else (if is_over_byte subcode then ret minus_one else transmit (reset_frame address subcode))

  -- `mbus_send_request_frame`
  unfoldable pub send_request_frame : ℤ → Run S ℤ
  send_request_frame address =
      if not (is_primary_address address) then ret minus_one else transmit (request_frame address)

  -- `mbus_send_user_data_frame`
  unfoldable pub send_user_data_frame : ℤ → List ℕ → Run S ℤ
  send_user_data_frame address d =
      if not (is_primary_address address)
      then ret minus_one
      else (if ltb frame_data_length (length d) || length d == 0
          then ret minus_one
          else transmit (user_data_frame address d))

  -- `mbus_set_primary_address`
  unfoldable pub set_primary_address : ℤ → ℤ → Run S ℤ
  set_primary_address old_address new_address =
      if not (is_primary_address new_address)
      then ret minus_one
      else (if is_reserved new_address
          then ret minus_one
          else send_user_data_frame old_address (0x01 ∷ 0x7A ∷ to_u8 new_address ∷ []))

  -- `mbus_send_ping_frame`
  unfoldable pub send_ping_frame : ℕ → ℤ → Bool → Run S ℤ
  send_ping_frame fuel address purge_response =
      if not (is_primary_address address) then ret (pos 1) else (do
        result ← transmit (ping_frame address)
        (if is_minus_one result
            then ret minus_one
            else (if purge_response
                then (do _ ← purge_frames t h fuel; ret (pos 0))
                else ret (pos 0))))

-- ===== src/Master/Guarded/Dialogue.antt =====
-- The functions of the master that send a frame and read the reply keep the invariants of a
-- transport.
use libmbus.Base.{ℕ, zero, suc, ◌+◌, pos, is_minus_one, not, List, ◌==◌, length}
use libmbus.Frame.{Frame, FrameType, zero_frame, frame_type}
use libmbus.Address.{network_layer}
use libmbus.Link.Serial.{RecvResult, ok, error, invalid, timeout, reset}
use libmbus.Master.Handle.{Handle, Transport, Run}
use libmbus.Master.Select.{
  Probe, nothing, single, collision, failed, is_ack, on_select_reply, on_select_result,
  select_secondary_address, on_request_reply, on_request_result, ask_selected, search_turns,
  probe_secondary_address, SlaveAddress, primary, secondary, ask_slave, read_slave,
}
use libmbus.Master.Keeps.{Keeps, Keeps-bind, Keeps-ret, Keeps-if}
use libmbus.Master.Guarded.{
  Guarded, Any, recv_frame-Keeps, send_select_frame-Keeps, send_request_frame-Keeps,
}

Keeps-probe {ℓ} :
    {S : Type 0} {A : Type ℓ} {F : Type 0} {I : S → Type 0} {P : A → Type 0} (found : Probe)
    {m n k l : Run S A}
    → Keeps F I P m
    → Keeps F I P n
    → Keeps F I P k
    → Keeps F I P l
    → Keeps F I P (elim found [ single ↦ m | failed ↦ n | collision ↦ k | nothing ↦ l ])
Keeps-probe single a b c d = a
Keeps-probe failed a b c d = b
Keeps-probe collision a b c d = c
Keeps-probe nothing a b c d = d

module _ {S : Type 0} {F : Type 0} {I : S → Type 0} {t : Transport S} {h : Handle} {drain : ℕ}
    (g : Guarded F I t h drain) where
  on_select_reply-Keeps : (type : FrameType) → Keeps F I Any (on_select_reply t h drain type)
  unfolding on_select_reply
  on_select_reply-Keeps type =
      Keeps-if (is_ack type) (λ _. Keeps-bind g.purges (λ _ _. Keeps-ret _ tt))
        (λ _. Keeps-ret _ tt)

  on_select_result-Keeps :
      (reply : Frame) (result : RecvResult)
      → Keeps F I Any (on_select_result t h drain reply result)
  unfolding on_select_result
  on_select_result-Keeps reply timeout = Keeps-ret _ tt
  on_select_result-Keeps reply invalid = Keeps-bind g.purges (λ _ _. Keeps-ret _ tt)
  on_select_result-Keeps reply ok = on_select_reply-Keeps (frame_type reply)
  on_select_result-Keeps reply error = on_select_reply-Keeps (frame_type reply)
  on_select_result-Keeps reply reset = on_select_reply-Keeps (frame_type reply)

  pub select_secondary_address-Keeps :
      (mask : List ℕ) → Keeps F I Any (select_secondary_address t h drain mask)
  unfolding select_secondary_address
  select_secondary_address-Keeps mask =
      Keeps-if (not (length mask == 16)) (λ _. Keeps-ret _ tt)
        (λ _. Keeps-bind (send_select_frame-Keeps g mask) (λ sent _.
          Keeps-if (is_minus_one sent) (λ _. Keeps-ret _ tt)
            (λ _.
              Keeps-bind (recv_frame-Keeps g zero_frame) (λ r _. on_select_result-Keeps r.1 r.0))))

  on_request_reply-Keeps : (reply : Frame) → Keeps F I Any (on_request_reply t h drain reply)
  unfolding on_request_reply
  on_request_reply-Keeps reply = Keeps-bind g.purges (λ received _. Keeps-ret _ tt)

  on_request_result-Keeps :
      (reply : Frame) (result : RecvResult)
      → Keeps F I Any (on_request_result t h drain reply result)
  unfolding on_request_result
  on_request_result-Keeps reply timeout = Keeps-ret _ tt
  on_request_result-Keeps reply invalid = Keeps-bind g.purges (λ _ _. Keeps-ret _ tt)
  on_request_result-Keeps reply ok = on_request_reply-Keeps reply
  on_request_result-Keeps reply error = on_request_reply-Keeps reply
  on_request_result-Keeps reply reset = on_request_reply-Keeps reply

  ask_selected-Keeps : Keeps F I Any (ask_selected t h drain)
  unfolding ask_selected
  ask_selected-Keeps = Keeps-bind (send_request_frame-Keeps g (pos network_layer)) (λ sent _.
      Keeps-if (is_minus_one sent) (λ _. Keeps-ret _ tt)
        (λ _. Keeps-bind (recv_frame-Keeps g zero_frame) (λ r _. on_request_result-Keeps r.1 r.0)))

  search_turns-Keeps :
      (left : ℕ) (mask : List ℕ) (before : Probe)
      → Keeps F I Any (search_turns t h drain left mask before)
  unfolding search_turns
  search_turns-Keeps zero mask before = Keeps-ret _ tt
  search_turns-Keeps (suc left) mask before =
      Keeps-bind (select_secondary_address-Keeps mask) (λ found _.
        Keeps-probe found ask_selected-Keeps (Keeps-ret _ tt) (Keeps-ret _ tt)
          (search_turns-Keeps left mask found))

  pub probe_secondary_address-Keeps :
      (mask : List ℕ) → Keeps F I Any (probe_secondary_address t h drain mask)
  unfolding probe_secondary_address
  probe_secondary_address-Keeps mask =
      Keeps-if (not (length mask == 16)) (λ _. Keeps-ret _ tt)
        (λ _. search_turns-Keeps (h.max_search_retry + 1) mask failed)

  ask_slave-Keeps : (address : SlaveAddress) → Keeps F I Any (ask_slave t h drain address)
  unfolding ask_slave
  ask_slave-Keeps (primary address) = send_request_frame-Keeps g address
  ask_slave-Keeps (secondary mask) = Keeps-bind (select_secondary_address-Keeps mask) (λ found _.
      Keeps-probe found (send_request_frame-Keeps g (pos network_layer)) (Keeps-ret _ tt)
        (Keeps-ret _ tt) (Keeps-ret _ tt))

  pub read_slave-Keeps :
      (address : SlaveAddress) (reply : Frame) → Keeps F I Any (read_slave t h drain address reply)
  unfolding read_slave
  read_slave-Keeps address reply = Keeps-bind (ask_slave-Keeps address) (λ asked _.
      Keeps-if (is_minus_one asked) (λ _. Keeps-ret _ tt)
        (λ _. Keeps-bind (recv_frame-Keeps g reply) (λ r _. Keeps-ret _ tt)))

-- ===== src/Master/Bus.antt =====
-- The slaves on a bus, as the master hears them.
pub mod Probing
use libmbus.Base.{
  ℕ, zero, suc, ◌+◌, ◌≤◌, ◌≡◌, refl, ap, arith, pos, is_minus_one, Bool, true, false, List, [], ◌∷◌,
  if◌then◌else◌, ◌==◌, length, inl, inr, ◌⊎◌,
}
use libmbus.Frame.{Frame, ack, long, zero_frame, frame_type, frame_new}
use libmbus.Address.{
  get_secondary_address, is_primary_address, is_secondary_address, select_secondary_pack,
  network_layer,
}
use libmbus.Data.Outcome.{done}
use libmbus.Link.Serial.{RecvResult, ok, invalid, timeout}
use libmbus.Master.Handle.{Handle, Transport, Run, ret}
use libmbus.Master.Receive.{recv_frame, purge_frames, send_frame}
use libmbus.Master.Send.{request_frame, send_select_frame, send_request_frame, transmit}
use libmbus.Master.Select.{
  Probe, nothing, single, collision, failed, Finding, on_select_result, on_select_reply, is_ack,
  is_long, found_address, select_secondary_address, on_request_reply, on_request_result,
  ask_selected, search_turns, probe_secondary_address,
}
use libmbus.Master.Scan.Slaves.{only}
use libmbus.Master.Scan.Complete.{IsMask}
use libmbus.Master.Leads.{Leads, Leads-bind, Leads-ret, Leads-given, Leads-some}

-- The stages of the dialogue: which slaves are selected, have acknowledged, are asked.
pub data Stage : Type 0 where
  idle clashing answered trailing : Stage
  waiting : List (List ℕ) → Stage
  acknowledged chosen asked : List ℕ → List (List ℕ) → Stage

-- What the master receives after a select frame that matches the slaves of the list. More than one
-- acknowledgement may be heard as one.
pub data Acknowledges : List (List ℕ) → RecvResult → Frame → Stage → Type 0 where
  silence : {f : Frame} → Acknowledges [] timeout f idle
  acknowledgement :
      {a : List ℕ} {others : List (List ℕ)} {f : Frame}
      → frame_type f ≡ ack
      → Acknowledges (a ∷ others) ok f (acknowledged a others)
  noise :
      {a b : List ℕ} {others : List (List ℕ)} {f : Frame}
      → Acknowledges (a ∷ b ∷ others) invalid f clashing

-- What it receives after a request to the selected slaves. The answers of two slaves differ, and the
-- line has a rest of them behind the first.
pub data Answers : List ℕ → List (List ℕ) → RecvResult → Frame → Stage → Type 0 where
  answer :
      {a : List ℕ} {f : Frame}
      → frame_type f ≡ long
      → get_secondary_address f ≡ done a
      → Answers a [] ok f answered
  garbled :
      {a b : List ℕ} {others : List (List ℕ)} {f : Frame}
      → Answers a (b ∷ others) invalid f clashing
  first_of_many :
      {a b : List ℕ} {others : List (List ℕ)} {f : Frame} → Answers a (b ∷ others) ok f trailing

-- What purging the line tells.
pub data Purges : Stage → Bool → Stage → Type 0 where
  no_more :
      {a : List ℕ} {others : List (List ℕ)} → Purges (acknowledged a others) false (chosen a others)
  more : {a b : List ℕ} {others : List (List ℕ)} → Purges (acknowledged a (b ∷ others)) true idle
  noise_ends : {received : Bool} → Purges clashing received idle
  answer_ends : Purges answered false idle
  rest_ends : Purges trailing true idle

-- The stages at which the line is purged.
abbrev pub IsHeard : Stage → Type 0
IsHeard idle = ⊥
IsHeard clashing = Unit {0}
IsHeard answered = Unit {0}
IsHeard trailing = Unit {0}
IsHeard (waiting slaves) = ⊥
IsHeard (acknowledged a others) = Unit {0}
IsHeard (chosen a others) = ⊥
IsHeard (asked a others) = ⊥

-- A bus on which the slaves of the list match the mask. `At` says at which stage the transport is.
pub record BusFor {S : Type 0} (t : Transport S) (h : Handle) (drain : ℕ) (At : Stage → S → Type 0)
    (mask : List ℕ) (slaves : List (List ℕ)) : Type 0 where
  pub selects :
      Leads
        (At idle)
        (λ r s. (is_minus_one r.0 ≡ false) × At (waiting slaves) s)
        (send_frame t h (select_secondary_pack (frame_new long) mask).1)
  pub acknowledges :
      Leads
        (At (waiting slaves))
        (λ r s. (next : Stage) × Acknowledges slaves r.0 r.1 next × At next s)
        (recv_frame t h zero_frame)
  pub requests :
      (a : List ℕ) (others : List (List ℕ))
      → Leads
          (At (chosen a others))
          (λ r s. (is_minus_one r.0 ≡ false) × At (asked a others) s)
          (send_frame t h (request_frame (pos network_layer)))
  pub answers :
      (a : List ℕ) (others : List (List ℕ))
      → slaves ≡ a ∷ others
      → Leads
          (At (asked a others))
          (λ r s. (next : Stage) × Answers a others r.0 r.1 next × At next s)
          (recv_frame t h zero_frame)
  pub purges :
      (stage : Stage)
      → IsHeard stage
      → Leads
          (At stage)
          (λ b s. (next : Stage) × Purges stage b next × At next s)
          (purge_frames t h drain)

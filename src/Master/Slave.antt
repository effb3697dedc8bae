-- ===== src/Master/Slave.antt =====
-- A slave that answers requests of data.
pub mod Answer
use libmbus.Base.{
  ℕ, zero, suc, ◌+◌, ◌*◌, ◌≤◌, ◌<◌, ◌≡◌, ◌⊎◌, inl, inr, refl, sym, ap, subst, ◌∙◌, arith, ℤ, pos,
  is_minus_one, true, false, Option, some, List, [], ◌∷◌, ◌++◌, length, ltb, append_assoc, bit_xor,
}
use libmbus.Frame.{Frame, any, frame_new}
use libmbus.Frame.Control
use libmbus.Address.{is_primary_address}
use libmbus.Data.Outcome.{Outcome, done, refused, fault, exhausted}
use libmbus.Data.Fixed.{FrameData, frame_data_parse}
use libmbus.Link.Serial.{RecvResult, ok, invalid, timeout}
use libmbus.Master.Handle.{Handle, Transport, ret}
use libmbus.Master.Receive.{recv_frame, purge_frames, send_frame}
use libmbus.Master.Request.{
  Requesting, Turn, finished, again, data_request, toggle_fcb, more_follow, on_data, on_frame,
  on_result, turn, turns, sendrecv_request,
}
use libmbus.Master.Leads.{Leads, Leads-bind, Leads-ret, Leads-given, Leads-some}
use libmbus.Master.Sendable.{IsRequest, data_request-IsRequest, toggle_fcb-IsRequest}
use libmbus.Master.Guarded.{InPlace}
use libmbus.Master.Guarded.Asking.{promises_more, is_understood, InPlace-IsRequest}

-- An exchange with a slave: the control byte that makes it send the first of the frames that are
-- left, these frames, and how many times their transmission may still fail.
pub data Exchange : Type 0 where
  expecting replying distorted : ℕ → List Frame → ℕ → Exchange
  replied : ℕ → List Frame → Exchange

-- What the master hears after its request.
pub data Hears : Exchange → RecvResult → Frame → Exchange → Type 0 where
  silence :
      {c n : ℕ} {ds : List Frame} {f : Frame}
      → Hears (replying c ds (suc n)) timeout f (expecting c ds n)
  noise :
      {c n : ℕ} {ds : List Frame} {f : Frame}
      → Hears (replying c ds (suc n)) invalid f (distorted c ds n)
  reply :
      {c n : ℕ} {d : Frame} {ds : List Frame} → Hears (replying c (d ∷ ds) n) ok d (replied c ds)

-- A slave that, asked with the control byte that it expects, sends the next of its frames, and sends
-- it again while it is asked with the same byte; each may be lost as many times as the master tries
-- again. `At` says at which point of the exchange the transport is.
pub record Slave {S : Type 0} (t : Transport S) (h : Handle) (drain : ℕ)
    (At : Exchange → S → Type 0) : Type 0 where
  pub sends :
      (f : Frame) (ds : List Frame) (n : ℕ)
      → IsRequest f
      → Leads
          (At (expecting f.control ds n))
          (λ r s. ((is_minus_one r.0 ≡ false) × InPlace f r.1) × At (replying f.control ds n) s)
          (send_frame t h f)
  pub replies :
      (f : Frame) (c : ℕ) (d : Frame) (ds : List Frame) (n : ℕ)
      → Leads
          (At (replying c (d ∷ ds) n))
          (λ r s. (next : Exchange) × Hears (replying c (d ∷ ds) n) r.0 r.1 next × At next s)
          (recv_frame t h f)
  pub noise_ends :
      (c : ℕ) (ds : List Frame) (n : ℕ)
      → Leads (At (distorted c ds n)) (λ b s. At (expecting c ds n) s) (purge_frames t h drain)
  pub reply_ends :
      (c : ℕ) (ds : List Frame)
      → Leads
          (At (replied c ds))
          (λ b s. At (expecting (bit_xor c Control.fcb) ds h.max_data_retry) s)
          (purge_frames t h drain)

-- The frames of a whole answer: each but the last promises more records.
abbrev pub IsWhole : List Frame → Type 0
IsWhole [] = ⊥
IsWhole (d ∷ []) = (is_understood d ≡ true) × (promises_more d ≡ false)
IsWhole (d ∷ e ∷ ds) = (promises_more d ≡ true) × IsWhole (e ∷ ds)

-- The exchange is over, with no frame left.
abbrev pub Over : {S : Type 0} → Handle → (Exchange → S → Type 0) → S → Type 0
Over h At s = (c : ℕ) × At (expecting c [] h.max_data_retry) s

-- The result 0, with the frames `all`, and the exchange is over.
abbrev pub Brings :
    {S : Type 0}
    → Handle
    → (Exchange → S → Type 0)
    → List Frame
    → Option ℤ × List Frame
    → S
    → Type 0
Brings h At all (retval, replies) s = ((retval ≡ some (pos 0)) × (replies ≡ all)) × Over h At s

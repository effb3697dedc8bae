-- ===== src/Master/Guarded.antt =====
-- Invariants of a transport that the functions of the master keep, because they send only frames
-- that can be sent.
pub mod Asking
pub mod Answered
pub mod Kept
pub mod Quiet
pub mod Dialogue
pub mod Scanning
use libmbus.Base.{
  ℕ, zero, suc, ℤ, pos, negsuc, minus_one, is_minus_one, ◌≤◌, ◌<◌, ◌≡◌, ◌⊎◌, inl, inr, refl, sym,
  ap, subst, true, false, not, List, [], ◌∷◌, All, if◌then◌else◌, some, none, leb, Bool-cases,
}
use libmbus.Frame.{Frame, frame_new, long, zero_frame}
use libmbus.Address.{select_secondary_pack, is_primary_address}
use libmbus.Link.Serial.{RecvResult, ok, error, invalid, timeout, reset}
use libmbus.Master.Handle.{Handle, Transport, Run, ◌>>=◌, after, ret, to_u8}
use libmbus.Master.Receive.{is_echo, goes_on, recv_frame, purge_loop, purge_frames, send_frame}
use libmbus.Master.Send.{transmit, send_select_frame, send_request_frame}
use libmbus.Master.Keeps.{Keeps, Holds, Keeps-bind, Keeps-ret, Keeps-if}
use libmbus.Master.Sendable.{
  Sendable, request_frame-Sendable, select_frame-Sendable, IsRequest, IsRequest-Sendable,
}

-- What `send` may change in the frame: its lengths and its checksum, which packing fills in.
pub record InPlace (f g : Frame) : Type 0 where
  pub length1 : ℕ
  pub length2 : ℕ
  pub checksum : ℕ
  pub same : g ≡ record f { length1 = length1; length2 = length2; checksum = checksum }

-- An invariant of the states of a transport, kept by receiving and by sending frames that can be
-- sent. For functions that purge the line, purging has to end, or `F` is the reason why it does not.
pub record Guarded {S : Type 0} (F : Type 0) (I : S → Type 0) (t : Transport S) (h : Handle)
    (drain : ℕ) : Type 0 where
  pub recv_keeps : (s : S) (f : Frame) → I s → I (t.recv s f).2
  pub send_keeps : (s : S) (f : Frame) → Sendable f → I s → I (t.send s f).2
  pub in_place : (s : S) (f : Frame) → InPlace f (t.send s f).1
  pub purges : Keeps F I (λ _. Unit {0}) (purge_frames t h drain)

-- A property of the result that says nothing.
abbrev pub Any {ℓ} : {A : Type ℓ} → A → Type 0
Any a = Unit {0}

module _ {S : Type 0} {F : Type 0} {I : S → Type 0} {t : Transport S} {h : Handle} {drain : ℕ}
    (g : Guarded F I t h drain) where
  pub recv_frame-Keeps : (f : Frame) → Keeps F I Any (recv_frame t h f)
  unfolding recv_frame
  recv_frame-Keeps f = record {
    keeps = λ s i.
        let once = g.recv_keeps s f i in
        elim (Bool-cases (is_echo h (t.recv s f).1)) [
          | inl e ↦ rw e (tt, g.recv_keeps _ _ once)
          | inr e ↦ rw e (tt, once)
        ];
  }

  pub send_frame-Keeps :
      (f : Frame) → Sendable f → Keeps F I (λ r. InPlace f r.1) (send_frame t h f)
  unfolding send_frame
  send_frame-Keeps f sendable = record {
    keeps = λ s i. (g.in_place s f, g.send_keeps s f sendable i);
  }

  pub transmit-Keeps : (f : Frame) → Sendable f → Keeps F I Any (transmit t h f)
  unfolding transmit
  transmit-Keeps f sendable = Keeps-bind (send_frame-Keeps f sendable) (λ r _. Keeps-ret _ tt)

  pub send_select_frame-Keeps : (mask : List ℕ) → Keeps F I Any (send_select_frame t h mask)
  unfolding send_select_frame
  send_select_frame-Keeps mask =
      Keeps-if (is_minus_one (select_secondary_pack (frame_new long) mask).0) (λ _. Keeps-ret _ tt)
        (λ e. transmit-Keeps _ (select_frame-Sendable mask e))

  pub send_request_frame-Keeps : (address : ℤ) → Keeps F I Any (send_request_frame t h address)
  unfolding send_request_frame
  send_request_frame-Keeps address =
      Keeps-if (not (is_primary_address address)) (λ _. Keeps-ret _ tt)
        (λ _. transmit-Keeps _ (request_frame-Sendable address))

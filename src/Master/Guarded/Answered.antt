-- ===== src/Master/Guarded/Answered.antt =====
-- `mbus_sendrecv_request` keeps the invariants of a transport, ends, and collects a complete answer.
use libmbus.Base.{
  ℕ, zero, suc, ◌+◌, ◌≤◌, ◌≡◌, inr, refl, arith, ℤ, pos, minus_one, is_minus_one, not, List, [],
  Option, some, ltb,
}
use libmbus.Frame.{Frame}
use libmbus.Address.{is_primary_address}
use libmbus.Link.Serial.{RecvResult, ok, error, invalid, timeout, reset}
use libmbus.Master.Handle.{Handle, Transport, ret}
use libmbus.Master.Request.{
  Requesting, Turn, finished, again, on_result, turn, turns, sendrecv_request,
}
use libmbus.Master.Keeps.{Keeps, Keeps-total, Keeps-bind, Keeps-ret, Keeps-if}
use libmbus.Master.Sendable.{IsRequest-Sendable, data_request-IsRequest}
use libmbus.Master.Guarded.{Guarded, recv_frame-Keeps, send_frame-Keeps}
use libmbus.Master.Guarded.Asking.{
  IsAnswer, Asking, turns_left, Next, given_up, once_more, InPlace-IsRequest, first_turns,
  on_frame-Next,
}

module _ {S : Type 0} {F : Type 0} {I : S → Type 0} {t : Transport S} {h : Handle} {drain : ℕ}
    (g : Guarded F I t h drain) where
  on_result-Keeps :
      (max_frames : ℕ) (r : Requesting) (result : RecvResult)
      → r.retry ≤ h.max_data_retry
      → Asking h max_frames r
      → Keeps F I
          (Next h max_frames (turns_left h max_frames r))
          (on_result t h drain max_frames r result)
  unfolding on_result
  on_result-Keeps max_frames r ok left a =
      Keeps-bind g.purges (λ _ _. Keeps-ret _ (on_frame-Next a))
  on_result-Keeps max_frames r timeout left a = Keeps-ret _ (once_more left a)
  on_result-Keeps max_frames r invalid left a =
      Keeps-bind g.purges (λ _ _. Keeps-ret _ (once_more left a))
  on_result-Keeps max_frames r error left a =
      Keeps-ret _ (given_up (some (pos 1)) r.next_frame (λ x. absurd (cc)) a)
  on_result-Keeps max_frames r reset left a =
      Keeps-ret _ (given_up (some (pos 1)) r.next_frame (λ x. absurd (cc)) a)

  turn-Keeps :
      (max_frames : ℕ) (r : Requesting)
      → Asking h max_frames r
      → Keeps F I (Next h max_frames (turns_left h max_frames r)) (turn t h drain max_frames r)
  unfolding turn
  turn-Keeps max_frames r a =
      Keeps-if (ltb h.max_data_retry r.retry)
        (λ _. Keeps-ret _ (given_up (some (pos 1)) r.next_frame (λ x. absurd (cc)) a))
        (λ e.
          Keeps-bind (send_frame-Keeps g r.frame (IsRequest-Sendable r.frame a.request))
            (λ sent in_place.
              Keeps-if (is_minus_one sent.0)
                (λ _. Keeps-ret _ (given_up (some minus_one) r.next_frame (λ x. absurd (cc)) a))
                (λ _. Keeps-bind (recv_frame-Keeps g r.next_frame) (λ got _.
                  on_result-Keeps max_frames (record r { frame = sent.1; next_frame = got.1 }) got.0
                    (ground arith)
                    record {
                      request = InPlace-IsRequest in_place a.request;
                      tries = a.tries;
                      counted = a.counted;
                      promised = a.promised;
                      bounded = a.bounded;
                    }))))

  turns-Keeps :
      (fuel max_frames : ℕ) (r : Requesting)
      → Asking h max_frames r
      → turns_left h max_frames r ≤ fuel
      → Keeps F I (IsAnswer max_frames) (turns t h drain fuel max_frames r)
  unfolding turns
  turns-Keeps zero max_frames r a enough = absurd (let x = a.tries in omega arith)
  turns-Keeps (suc fuel) max_frames r a enough =
      Keeps-bind (turn-Keeps max_frames r a) (go (turns-Keeps fuel max_frames))
    where
      go :
          ((r' : Requesting)
            → Asking h max_frames r'
            → turns_left h max_frames r' ≤ fuel
            → Keeps F I (IsAnswer max_frames) (turns t h drain fuel max_frames r'))
          → (next : Turn) → Next h max_frames (turns_left h max_frames r) next
          → Keeps F I (IsAnswer max_frames) (elim next [
            | finished retval replies ↦ ret (retval, replies)
            | again r' ↦ turns t h drain fuel max_frames r'
          ])
      go rest (finished retval replies) n = Keeps-ret _ n
      go rest (again r') n = rest r' n.0 (omega (arith, n.1, enough))

  pub sendrecv_request-Keeps :
      (address : ℤ) (reply : Frame) (max_frames : ℕ)
      → Keeps F I (IsAnswer max_frames) (sendrecv_request t h drain address reply max_frames)
  unfolding sendrecv_request
  sendrecv_request-Keeps address reply max_frames =
      Keeps-if (not (is_primary_address address))
        (λ _. Keeps-ret _ record {
          before = [];
          last = reply;
          all = refl;
          promised = tt;
          bounded = inr refl;
          complete = λ e. absurd (cc);
        })
        (λ _.
          turns-Keeps _ max_frames _
            record {
              request = data_request-IsRequest address;
              tries = omega arith;
              counted = refl;
              promised = tt;
              bounded = inr refl;
            }
            (first_turns max_frames (h.max_data_retry + 2)))

-- `mbus_sendrecv_request` ends, if purging the line ends. It gives one frame at least, and not more
-- than `max_frames` unless it is one; each but the last promises more records. With the result 0 the
-- last is understood, and it promises no more records or it is frame number `max_frames`. Every
-- invariant is kept that is kept by receiving, and by sending a frame that can be sent.
pub sendrecv_request-Answered :
    {S : Type 0} {I : S → Type 0} {t : Transport S} {h : Handle} {drain : ℕ}
    → Guarded ⊥ I t h drain
    → (address : ℤ) (reply : Frame) (max_frames : ℕ) (s : S) → I s
    → (x : (Option ℤ × List Frame) × S) × (sendrecv_request t h drain address reply max_frames s
        ≡ some x)
      × IsAnswer max_frames x.0
      × I x.1
sendrecv_request-Answered g address reply max_frames s i =
    Keeps-total (sendrecv_request-Keeps g address reply max_frames) s i

-- ===== src/Master/Guarded/Asking.antt =====
-- The variables of `mbus_sendrecv_request` on the way to a complete answer.
use libmbus.Base.{
  ℕ, suc, ◌+◌, ◌*◌, ◌-◌, ◌≤◌, ◌<◌, ◌≡◌, ◌≢◌, ◌⊎◌, inl, inr, refl, sym, ap, arith, ℤ, pos, Bool,
  true, false, ◌&&◌, List, [], ◌∷◌, ◌++◌, length, All, All-append, length-append, ◌∙◌, Option, some,
  none, ltb, Bool-cases, subst,
}
use libmbus.Frame.{Frame}
use libmbus.Data.Outcome.{Outcome, done, refused, fault, exhausted}
use libmbus.Data.Fixed.{FrameData, frame_data_parse}
use libmbus.Master.Handle.{Handle}
use libmbus.Master.Request.{Requesting, Turn, finished, again, more_follow, on_data, on_frame}
use libmbus.Master.Sendable.{IsRequest, toggle_fcb-IsRequest}
use libmbus.Master.Guarded.{InPlace}

-- Does the frame have data, after which more records follow?
abbrev pub promises_more : Frame → Bool
promises_more f = elim (frame_data_parse f) [
  | done d ↦ more_follow d
  | refused ↦ false
  | fault ↦ false
  | exhausted ↦ false
]

-- Does the frame have data that are understood?
abbrev pub is_understood : Frame → Bool
is_understood f = elim (frame_data_parse f) [
  | done d ↦ true
  | refused ↦ false
  | fault ↦ false
  | exhausted ↦ false
]

-- What the request gives: one frame at least, of which each but the last promises more, and not
-- more than are asked for. With the result 0 the last is understood too, and it promises no more, or
-- no more are asked for.
pub record Answered (max_frames : ℕ) (retval : Option ℤ) (replies : List Frame) : Type 0 where
  pub before : List Frame
  pub last : Frame
  pub all : replies ≡ before ++ (last ∷ [])
  pub promised : All (λ f. promises_more f ≡ true) before
  pub bounded : length before < max_frames ⊎ (length before ≡ 0)
  pub complete :
      retval ≡ some (pos 0)
      → (is_understood last ≡ true)
        × ((promises_more last ≡ false) ⊎ (max_frames ≤ length before + 1))

abbrev pub IsAnswer : ℕ → Option ℤ × List Frame → Type 0
IsAnswer max_frames (retval, replies) = Answered max_frames retval replies

-- The variables of the loop on the way to that.
pub record Asking (h : Handle) (max_frames : ℕ) (r : Requesting) : Type 0 where
  pub request : IsRequest r.frame
  pub tries : r.retry ≤ h.max_data_retry + 1
  pub counted : length r.replies ≡ r.frame_count
  pub promised : All (λ f. promises_more f ≡ true) r.replies
  pub bounded : r.frame_count < max_frames ⊎ (r.frame_count ≡ 0)

-- The number of turns that the loop may still make.
abbrev pub turns_left : Handle → ℕ → Requesting → ℕ
turns_left h max_frames r =
    (max_frames - r.frame_count) * (h.max_data_retry + 2) + ((h.max_data_retry + 2) - r.retry)

abbrev pub Next : Handle → ℕ → ℕ → Turn → Type 0
Next h max_frames left (finished retval replies) = Answered max_frames retval replies
Next h max_frames left (again r) = Asking h max_frames r × (turns_left h max_frames r < left)

-- A frame that ends the loop, with a result that is not 0.
pub given_up :
    {h : Handle} {max_frames : ℕ} {r : Requesting} (retval : Option ℤ) (last : Frame)
    → retval ≢ some (pos 0)
    → Asking h max_frames r
    → Answered max_frames retval (r.replies ++ (last ∷ []))
given_up {r = r} retval last other a = record {
  before = r.replies;
  last = last;
  all = refl;
  promised = a.promised;
  bounded = rw a.counted a.bounded;
  complete = λ e. absurd (other e);
}

one_more : (k m n : ℕ) → k < m → (m - k) * n ≡ (m - (k + 1)) * n + n
one_more k m n h = let e : m - k ≡ suc (m - (k + 1)) = omega arith in rw e (omega arith)

-- A turn that brought nothing.
pub once_more :
    {h : Handle} {max_frames : ℕ} {r : Requesting}
    → r.retry ≤ h.max_data_retry
    → Asking h max_frames r
    → Next h max_frames (turns_left h max_frames r) (again (record r { retry = r.retry + 1 }))
once_more {h = h} {max_frames = max_frames} {r = r} left a = (
  record {
    request = a.request;
    tries = omega (arith, left);
    counted = a.counted;
    promised = a.promised;
    bounded = a.bounded;
  },
  omega (arith, left),
)

-- Sending a request leaves it a request.
pub InPlace-IsRequest : {f g : Frame} → InPlace f g → IsRequest f → IsRequest g
InPlace-IsRequest p r = subst IsRequest (sym p.same) record {
  whole = record {
    control_byte = r.whole.control_byte;
    address_byte = r.whole.address_byte;
    information_byte = r.whole.information_byte;
    content_length = r.whole.content_length;
    content_bytes = r.whole.content_bytes;
    size_fits = r.whole.size_fits;
  };
  kind = r.kind;
  starts = r.starts;
  stops = r.stops;
  code = r.code;
}

pub first_turns : (m n : ℕ) → (m - 0) * n + (n - 0) ≤ suc m * n
first_turns m n = let e : m - 0 ≡ m = omega arith in rw e (omega arith)

-- An answer with data.
on_data-Next :
    {h : Handle} {max_frames : ℕ} {r : Requesting} (d : FrameData)
    → Asking h max_frames r
    → frame_data_parse r.next_frame ≡ done d
    → Next h max_frames
        (turns_left h max_frames r)
        (on_data max_frames (record r { retry = 0; frame_count = r.frame_count + 1 }) d)
unfolding on_data
on_data-Next {h = h} {max_frames = max_frames} {r = r} d a e =
    elim (Bool-cases (more_follow d && (ltb 0 max_frames && ltb (r.frame_count + 1) max_frames))) [
      | inl c ↦
          rw (c, Next)
            (
              record {
                request = toggle_fcb-IsRequest r.frame a.request;
                tries = omega arith;
                counted = length-append r.replies (r.next_frame ∷ []) ∙ ap (λ n. n + 1) a.counted;
                promised =
                    All-append (λ f. promises_more f ≡ true) r.replies (r.next_frame ∷ [])
                      a.promised (rw (e, promises_more) (ground arith), tt);
                bounded = inl (ground arith);
              },
              omega (
                arith,
                one_more r.frame_count max_frames (h.max_data_retry + 2) (ground arith),
                a.tries,
              ),
            )
      | inr c ↦
          rw (c, Next)
            (record {
              before = r.replies;
              last = r.next_frame;
              all = refl;
              promised = a.promised;
              bounded = rw a.counted a.bounded;
              complete = λ _.
                  (rw (e, is_understood) refl, rw (e, promises_more, a.counted) (ground arith));
            })
    ]

pub on_frame-Next :
    {h : Handle} {max_frames : ℕ} {r : Requesting}
    → Asking h max_frames r
    → Next h max_frames
        (turns_left h max_frames r)
        (on_frame max_frames (record r { retry = 0; frame_count = r.frame_count + 1 }))
unfolding on_frame
on_frame-Next {h = h} {max_frames = max_frames} {r = r} a = go (frame_data_parse r.next_frame) refl
  where
    go :
        (o : Outcome FrameData)
        → frame_data_parse r.next_frame ≡ o
        → Next h max_frames
            (turns_left h max_frames r)
            (on_frame max_frames (record r { retry = 0; frame_count = r.frame_count + 1 }))
    go (done d) e = rw (e, on_frame) (on_data-Next d a e)
    go refused e = rw (e, on_frame) (given_up (some (pos 1)) r.next_frame (λ x. absurd (cc)) a)
    go fault e = rw (e, on_frame) (given_up none r.next_frame (λ x. absurd (cc)) a)
    go exhausted e = rw (e, on_frame) (given_up none r.next_frame (λ x. absurd (cc)) a)

-- ===== src/Master/Slave/Answer.antt =====
-- What `mbus_sendrecv_request` gets from a slave.
use libmbus.Base.{
  ℕ, zero, suc, ◌+◌, ◌*◌, ◌≤◌, ◌<◌, ◌≡◌, ◌⊎◌, inl, inr, refl, sym, ap, subst, ◌∙◌, arith, ℤ, pos,
  true, false, some, List, [], ◌∷◌, ◌++◌, length, ltb, append_assoc, bit_xor,
}
use libmbus.Frame.{Frame, any, frame_new}
use libmbus.Frame.Control
use libmbus.Address.{is_primary_address}
use libmbus.Data.Outcome.{Outcome, done, refused, fault, exhausted}
use libmbus.Data.Fixed.{FrameData, frame_data_parse}
use libmbus.Link.Serial.{RecvResult}
use libmbus.Master.Handle.{Handle, Transport, ret}
use libmbus.Master.Request.{
  Requesting, Turn, finished, again, data_request, toggle_fcb, more_follow, on_data, on_frame,
  on_result, turn, turns, sendrecv_request,
}
use libmbus.Master.Leads.{Leads, Leads-bind, Leads-ret, Leads-given, Leads-some}
use libmbus.Master.Sendable.{IsRequest, data_request-IsRequest, toggle_fcb-IsRequest}
use libmbus.Master.Guarded.Asking.{promises_more, is_understood, InPlace-IsRequest}
use libmbus.Master.Slave.{
  Exchange, Hears, Slave, IsWhole, IsWhole, IsWhole, Over, Brings, expecting, replying, silence,
  noise, reply,
}

-- The turns that an exchange takes at most.
abbrev budget : Handle → List Frame → ℕ → ℕ
budget h [] n = 0
budget h (d ∷ ds) n = suc n + budget h ds h.max_data_retry

budget_fits :
    (h : Handle) (ds : List Frame) (k : ℕ)
    → length ds ≤ k
    → budget h ds h.max_data_retry ≤ k * (h.max_data_retry + 2)
budget_fits h [] k l = omega arith
budget_fits h (d ∷ ds) zero l = absurd (omega arith)
budget_fits h (d ∷ ds) (suc k) l = omega (arith, budget_fits h ds k (omega arith))

on_frame-last :
    (max_frames : ℕ) (r : Requesting)
    → is_understood r.next_frame ≡ true
    → promises_more r.next_frame ≡ false
    → on_frame max_frames r ≡ finished (some (pos 0)) (r.replies ++ (r.next_frame ∷ []))
unfolding on_frame on_data
on_frame-last max_frames r u p = go (frame_data_parse r.next_frame) refl
  where
    go :
        (o : Outcome FrameData)
        → frame_data_parse r.next_frame ≡ o
        → on_frame max_frames r ≡ finished (some (pos 0)) (r.replies ++ (r.next_frame ∷ []))
    go (done d) e = let m : more_follow d ≡ false = cc in rw (e, on_frame, m) refl
    go refused e = absurd (cc)
    go fault e = absurd (cc)
    go exhausted e = absurd (cc)

on_frame-more :
    (max_frames : ℕ) (r : Requesting)
    → promises_more r.next_frame ≡ true
    → r.frame_count < max_frames
    → on_frame max_frames r
      ≡ again (record r {
        frame = toggle_fcb r.frame;
        next_frame = frame_new any;
        replies = r.replies ++ (r.next_frame ∷ []);
      })
unfolding on_frame on_data
on_frame-more max_frames r p l = go (frame_data_parse r.next_frame) refl
  where
    go :
        (o : Outcome FrameData)
        → frame_data_parse r.next_frame ≡ o
        → on_frame max_frames r
          ≡ again (record r {
            frame = toggle_fcb r.frame;
            next_frame = frame_new any;
            replies = r.replies ++ (r.next_frame ∷ []);
          })
    go (done d) e =
        let m : more_follow d ≡ true = cc in
        let some_left : ltb 0 max_frames ≡ true = ground arith in
        let few : ltb r.frame_count max_frames ≡ true = ground arith in
        rw (e, on_frame, m, some_left, few) refl
    go refused e = absurd (cc)
    go fault e = absurd (cc)
    go exhausted e = absurd (cc)

-- The variables of the loop while the frames `ds` are to come.
record Going (h : Handle) (max_frames : ℕ) (ds : List Frame) (n : ℕ) (r : Requesting) : Type 0 where
  request : IsRequest r.frame
  tries : r.retry + n ≤ h.max_data_retry
  whole : IsWhole ds
  room : (r.frame_count + length ds ≤ max_frames) ⊎ (length ds ≡ 1)

module _ {S : Type 0} {t : Transport S} {h : Handle} {drain : ℕ} {At : Exchange → S → Type 0}
    (slave : Slave t h drain At) where
  -- What a turn leads to: the end with all the frames, or another turn with less to do.
  abbrev Turned : ℕ → List Frame → ℕ → Requesting → Turn → S → Type 0
  Turned max_frames ds n r (finished retval replies) s =
      (retval ≡ some (pos 0)) × (replies ≡ r.replies ++ ds) × Over h At s
  Turned max_frames ds n r (again r') s =
      (left : List Frame × ℕ) × (Going h max_frames left.0 left.1 r'
        × (budget h left.0 left.1 < budget h ds n)
        × (r'.replies ++ left.0 ≡ r.replies ++ ds))
      × At (expecting r'.frame.control left.0 left.1) s

  failed-Leads :
      (max_frames c n : ℕ) (d : Frame) (ds : List Frame) (r : Requesting)
      → r.frame.control ≡ c
      → Going h max_frames (d ∷ ds) (suc n) r
      → Leads
          (At (expecting c (d ∷ ds) n))
          (Turned max_frames (d ∷ ds) (suc n) r)
          (ret (again (record r { retry = r.retry + 1 })))
  failed-Leads max_frames c n d ds r same g = Leads-ret _ (λ s i. (
    (d ∷ ds, n),
    (
      record {
        request = g.request;
        tries = omega (arith, g.tries);
        whole = g.whole;
        room = g.room;
      },
      omega arith,
      refl,
    ),
    subst (λ c. At (expecting c (d ∷ ds) n) s) (sym same) i,
  ))

  replied-Leads :
      (max_frames : ℕ) (d : Frame) (ds : List Frame) (n : ℕ) (r : Requesting)
      → r.next_frame ≡ d
      → Going h max_frames (d ∷ ds) n r
      → Leads
          (At (expecting (bit_xor r.frame.control Control.fcb) ds h.max_data_retry))
          (Turned max_frames (d ∷ ds) n r)
          (ret (on_frame max_frames (record r { retry = 0; frame_count = r.frame_count + 1 })))
  unfolding toggle_fcb
  replied-Leads max_frames d [] n r e g = Leads-ret _ (λ s i.
      rw
        (
          on_frame-last max_frames (record r { retry = 0; frame_count = r.frame_count + 1 })
              (ap is_understood e ∙ g.whole.0) (ap promises_more e ∙ g.whole.1),
          Turned,
        )
        (refl, ap (λ x. r.replies ++ (x ∷ [])) e, (_, i)))
  replied-Leads max_frames d (d' ∷ ds) n r e g = Leads-ret _ (λ s i.
      let room : r.frame_count + 1 + length (d' ∷ ds) ≤ max_frames = ground (arith, g.room) in
      rw
        (
          on_frame-more max_frames (record r { retry = 0; frame_count = r.frame_count + 1 })
              (ap promises_more e ∙ g.whole.0) (omega (arith, room)),
          Turned,
        )
        (
          (d' ∷ ds, h.max_data_retry),
          (
            record {
              request = toggle_fcb-IsRequest r.frame g.request;
              tries = omega arith;
              whole = g.whole.1;
              room = inl room;
            },
            omega arith,
            append_assoc r.replies (r.next_frame ∷ []) (d' ∷ ds)
                ∙ ap (λ x. r.replies ++ (x ∷ d' ∷ ds)) e,
          ),
          i,
        ))

  on_result-Leads :
      (max_frames c n : ℕ) (d : Frame) (ds : List Frame) (r : Requesting) (result : RecvResult)
      (got : Frame) (next : Exchange)
      → r.frame.control ≡ c
      → Going h max_frames (d ∷ ds) n r
      → r.next_frame ≡ got
      → Hears (replying c (d ∷ ds) n) result got next
      → Leads (At next) (Turned max_frames (d ∷ ds) n r) (on_result t h drain max_frames r result)
  unfolding on_result
  on_result-Leads max_frames c _ d ds r _ got _ same g e silence =
      failed-Leads max_frames c _ d ds r same g
  on_result-Leads max_frames c _ d ds r _ got _ same g e noise =
      Leads-bind (slave.noise_ends c (d ∷ ds) _) (λ _. failed-Leads max_frames c _ d ds r same g)
  on_result-Leads max_frames c n d ds r _ _ _ same g e reply =
      Leads-bind (slave.reply_ends c ds) (λ _.
        subst
          (λ c.
            Leads (At (expecting (bit_xor c Control.fcb) ds h.max_data_retry))
              (Turned max_frames (d ∷ ds) n r)
              (ret (on_frame max_frames (record r { retry = 0; frame_count = r.frame_count + 1 }))))
          same (replied-Leads max_frames d ds n r e g))

  turn-Leads :
      (max_frames n : ℕ) (d : Frame) (ds : List Frame) (r : Requesting)
      → Going h max_frames (d ∷ ds) n r
      → Leads
          (At (expecting r.frame.control (d ∷ ds) n))
          (Turned max_frames (d ∷ ds) n r)
          (turn t h drain max_frames r)
  unfolding turn
  turn-Leads max_frames n d ds r g =
      let tries_left : ltb h.max_data_retry r.retry ≡ false = ground (arith, g.tries) in
      rw tries_left (
        Leads-bind (slave.sends r.frame (d ∷ ds) n g.request) (λ sent. Leads-given (λ kept.
          rw kept.0 (
            Leads-bind (slave.replies r.next_frame r.frame.control d ds n) (λ got.
              Leads-some (λ next heard.
                on_result-Leads max_frames r.frame.control n d ds
                  (record r { frame = sent.1; next_frame = got.1 }) got.0 got.1 next
                  (ap (λ f. f.control) kept.1.same)
                  record {
                    request = InPlace-IsRequest kept.1 g.request;
                    tries = g.tries;
                    whole = g.whole;
                    room = g.room;
                  }
                  refl heard))))))

  turns-Leads :
      (fuel max_frames n : ℕ) (ds : List Frame) (r : Requesting)
      → Going h max_frames ds n r
      → budget h ds n ≤ fuel
      → Leads
          (At (expecting r.frame.control ds n))
          (Brings h At (r.replies ++ ds))
          (turns t h drain fuel max_frames r)
  unfolding turns
  turns-Leads fuel max_frames n [] r g enough = absurd g.whole
  turns-Leads zero max_frames n (d ∷ ds) r g enough = absurd (omega arith)
  turns-Leads (suc fuel) max_frames n (d ∷ ds) r g enough =
      Leads-bind (turn-Leads max_frames n d ds r g) (go (turns-Leads fuel max_frames))
    where
      go :
          ((n' : ℕ) (ds' : List Frame) (r' : Requesting)
            → Going h max_frames ds' n' r'
            → budget h ds' n' ≤ fuel
            → Leads
                (At (expecting r'.frame.control ds' n'))
                (Brings h At (r'.replies ++ ds'))
                (turns t h drain fuel max_frames r'))
          → (next : Turn)
          → Leads
              (Turned max_frames (d ∷ ds) n r next)
              (Brings h At (r.replies ++ (d ∷ ds)))
              (elim next [
                | finished retval replies ↦ ret (retval, replies)
                | again r' ↦ turns t h drain fuel max_frames r'
              ])
      go rest (finished retval replies) = Leads-ret (retval, replies) (λ s i. ((i.0, i.1), i.2))
      go rest (again r') = Leads-some (λ left p.
          subst
            (λ all.
              Leads (At (expecting r'.frame.control left.0 left.1)) (Brings h At all)
                (turns t h drain fuel max_frames r'))
            p.2 (rest left.1 left.0 r' p.0 (omega (arith, p.1, enough))))

  -- Asked for the data of a slave with a whole answer of at most `max_frames` frames, or of one,
  -- `mbus_sendrecv_request` returns 0 and all frames of the answer in their order, each once, if no
  -- frame is lost more often than the master tries again.
  pub sendrecv_request-Leads :
      (address : ℤ) (first : Frame) (max_frames : ℕ) (answer : List Frame)
      → is_primary_address address ≡ true
      → IsWhole answer
      → (length answer ≤ max_frames) ⊎ (length answer ≡ 1)
      → Leads
          (At (expecting 0x7B answer h.max_data_retry))
          (Brings h At answer)
          (sendrecv_request t h drain address first max_frames)
  unfolding sendrecv_request data_request
  sendrecv_request-Leads address first max_frames answer primary whole room = rw primary (
      turns-Leads _ max_frames h.max_data_retry answer _
        record {
          request = data_request-IsRequest address;
          tries = omega arith;
          whole = whole;
          room = elim room [ inl few ↦ inl (omega arith) | inr one ↦ inr one ];
        }
        (budget_fits h answer (suc max_frames) (ground arith)))

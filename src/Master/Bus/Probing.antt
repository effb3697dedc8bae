-- ===== src/Master/Bus/Probing.antt =====
-- What `mbus_probe_secondary_address` finds on a bus of slaves.
use libmbus.Base.{
  ℕ, zero, suc, ◌+◌, ◌≤◌, ◌≡◌, refl, ap, arith, pos, is_minus_one, Bool, true, false, List, [], ◌∷◌,
  if◌then◌else◌, ◌==◌, length, inl, inr, ◌⊎◌,
}
use libmbus.Frame.{Frame, long, frame_type, frame_new}
use libmbus.Address.{
  get_secondary_address, is_primary_address, is_secondary_address, select_secondary_pack,
}
use libmbus.Data.Outcome.{done}
use libmbus.Link.Serial.{RecvResult}
use libmbus.Master.Handle.{Handle, Transport, Run, ret}
use libmbus.Master.Receive.{send_frame}
use libmbus.Master.Send.{send_select_frame, send_request_frame, transmit}
use libmbus.Master.Select.{
  Probe, nothing, single, collision, failed, Finding, on_select_result, on_select_reply, is_ack,
  is_long, found_address, select_secondary_address, on_request_reply, on_request_result,
  ask_selected, search_turns, probe_secondary_address,
}
use libmbus.Master.Scan.Slaves.{only}
use libmbus.Master.Scan.Complete.{IsMask}
use libmbus.Master.Leads.{Leads, Leads-bind, Leads-ret, Leads-given, Leads-some}
use libmbus.Master.Bus.{
  Stage, Acknowledges, Answers, Purges, BusFor, idle, clashing, answered, trailing, acknowledged,
  chosen, silence, acknowledgement, noise, answer, garbled, first_of_many, no_more, more,
  noise_ends, answer_ends, rest_ends,
}

-- What selecting leads to.
pub data Selects : List (List ℕ) → Probe → Stage → Type 0 where
  selects_none : Selects [] nothing idle
  selects_some :
      {a : List ℕ} {others : List (List ℕ)} → Selects (a ∷ others) single (chosen a others)
  selects_clash : {a b : List ℕ} {others : List (List ℕ)} → Selects (a ∷ b ∷ others) collision idle

module _ {S : Type 0} (At : Stage → S → Type 0) where
  transmit-Leads :
      (t : Transport S) (h : Handle) (f : Frame) {stage next : Stage}
      → Leads (At stage) (λ r s. (is_minus_one r.0 ≡ false) × At next s) (send_frame t h f)
      → Leads (At stage) (λ r s. (is_minus_one r ≡ false) × At next s) (transmit t h f)
  unfolding transmit
  transmit-Leads t h f l =
      Leads-bind l (λ r. Leads-given (λ e. rw e (Leads-ret (pos 0) (λ s i. (refl, i)))))

  after_ack :
      (a : List ℕ) (others : List (List ℕ)) (received : Bool) (next : Stage)
      → Purges (acknowledged a others) received next
      → Leads
          (At next)
          (λ p s. (stage : Stage) × Selects (a ∷ others) p stage × At stage s)
          (ret (if received then collision else single))
  after_ack a others _ _ no_more = Leads-ret single (λ s i. (_, selects_some, i))
  after_ack a _ _ _ more = Leads-ret collision (λ s i. (idle, selects_clash, i))

  -- Behind noise the line is purged, and nothing is left.
  after_noise {ℓ} :
      {A : Type ℓ} {Q : A → S → Type 0} {a : A} (received : Bool) (next : Stage)
      → Purges clashing received next
      → ((s : S) → At idle s → Q a s)
      → Leads (At next) Q (ret a)
  after_noise received _ noise_ends f = Leads-ret _ f

  after_answer :
      (reply : Frame) (a : List ℕ) (received : Bool) (next : Stage)
      → is_long (frame_type reply) ≡ true
      → get_secondary_address reply ≡ done a
      → Purges answered received next
      → Leads
          (At next)
          (λ x s. (x ≡ only (a ∷ [])) × At idle s)
          (ret (
            if received
            then (collision, [])
            else (if is_long (frame_type reply) then found_address reply else (nothing, []))))
  unfolding found_address
  after_answer reply a _ _ e f answer_ends =
      rw (e, f, found_address) (Leads-ret (single, a) (λ s i. (refl, i)))

  after_rest :
      (a b : List ℕ) (others : List (List ℕ)) (found : Finding) (received : Bool) (next : Stage)
      → Purges trailing received next
      → Leads
          (At next)
          (λ x s. (x ≡ only (a ∷ b ∷ others)) × At idle s)
          (ret (if received then (collision, []) else found))
  after_rest a b others found _ _ rest_ends = Leads-ret (collision, []) (λ s i. (refl, i))

is_16 : (mask : List ℕ) → IsMask mask → (length mask == 16) ≡ true
is_16 mask v = ground (arith, v.0)

packed :
    (mask : List ℕ)
    → IsMask mask
    → is_minus_one (select_secondary_pack (frame_new long) mask).0 ≡ false
unfolding select_secondary_pack is_secondary_address
packed mask v = rw (is_16 mask v, v.1) refl

module _ {S : Type 0} {t : Transport S} {h : Handle} {drain : ℕ} {At : Stage → S → Type 0}
    {mask : List ℕ} {slaves : List (List ℕ)} (bus : BusFor t h drain At mask slaves) where
  on_select_result-Leads :
      (list : List (List ℕ)) (result : RecvResult) (reply : Frame) (next : Stage)
      → Acknowledges list result reply next
      → Leads
          (At next)
          (λ p s. (stage : Stage) × Selects list p stage × At stage s)
          (on_select_result t h drain reply result)
  unfolding on_select_result on_select_reply is_ack
  on_select_result-Leads _ _ reply _ silence = Leads-ret nothing (λ s i. (idle, selects_none, i))
  on_select_result-Leads _ _ reply _ (acknowledgement {a} {others} e) = rw e (
      Leads-bind (bus.purges (acknowledged a others) tt)
        (λ received. Leads-some (λ next p. after_ack At a others received next p)))
  on_select_result-Leads _ _ reply _ noise = Leads-bind (bus.purges clashing tt) (λ received.
      Leads-some (λ next p. after_noise At received next p (λ s i. (idle, selects_clash, i))))

  on_request_result-Leads :
      (a : List ℕ) (others : List (List ℕ)) (result : RecvResult) (reply : Frame) (next : Stage)
      → Answers a others result reply next
      → Leads
          (At next)
          (λ x s. (x ≡ only (a ∷ others)) × At idle s)
          (on_request_result t h drain reply result)
  unfolding on_request_result on_request_reply is_long
  on_request_result-Leads _ _ _ reply _ (answer {a} e f) =
      Leads-bind (bus.purges answered tt) (λ received.
        Leads-some (λ next p. after_answer At reply a received next (ap is_long e) f p))
  on_request_result-Leads _ _ _ reply _ garbled =
      Leads-bind (bus.purges clashing tt)
        (λ received. Leads-some (λ next p. after_noise At received next p (λ s i. (refl, i))))
  on_request_result-Leads _ _ _ reply _ (first_of_many {a} {b} {others}) =
      Leads-bind (bus.purges trailing tt)
        (λ received. Leads-some (λ next p. after_rest At a b others _ received next p))

  ask_selected-Leads :
      (a : List ℕ) (others : List (List ℕ))
      → slaves ≡ a ∷ others
      → Leads
          (At (chosen a others))
          (λ x s. (x ≡ only (a ∷ others)) × At idle s)
          (ask_selected t h drain)
  unfolding ask_selected send_request_frame is_primary_address
  ask_selected-Leads a others from =
      Leads-bind (transmit-Leads At t h _ (bus.requests a others)) (λ sent. Leads-given (λ e. rw e (
        Leads-bind (bus.answers a others from)
          (λ r. Leads-some (λ next p. on_request_result-Leads a others r.0 r.1 next p)))))

  select_secondary_address-Leads :
      IsMask mask
      → Leads
          (At idle)
          (λ p s. (stage : Stage) × Selects slaves p stage × At stage s)
          (select_secondary_address t h drain mask)
  unfolding select_secondary_address send_select_frame
  select_secondary_address-Leads v =
      rw (is_16 mask v, packed mask v)
        (Leads-bind (transmit-Leads At t h _ bus.selects) (λ sent. Leads-given (λ e. rw e (
          Leads-bind bus.acknowledges
            (λ r. Leads-some (λ next a. on_select_result-Leads slaves r.0 r.1 next a))))))

  search_turns-Leads :
      (left : ℕ) (before : Probe)
      → IsMask mask
      → (before ≡ nothing → slaves ≡ [])
      → (1 ≤ left) ⊎ (before ≡ nothing)
      → Leads
          (At idle)
          (λ x s. (x ≡ only slaves) × At idle s)
          (search_turns t h drain left mask before)
  unfolding search_turns
  search_turns-Leads zero before v silent enough =
      Leads-ret (before, [])
        (λ s i. (elim enough [ inl x ↦ absurd (omega arith) | inr e ↦ rw (e, silent e) refl ], i))
  search_turns-Leads (suc left) before v silent enough =
      Leads-bind (select_secondary_address-Leads v) (λ found.
        Leads-some (λ stage e.
          selected _ slaves found stage refl e (λ x. search_turns-Leads left found v x)))
    where
      selected :
          (repeat : Run S Finding) (list : List (List ℕ)) (found : Probe) (stage : Stage)
          → slaves ≡ list
          → Selects list found stage
          → ((found ≡ nothing → slaves ≡ [])
              → (1 ≤ left) ⊎ (found ≡ nothing)
              → Leads (At idle) (λ x s. (x ≡ only slaves) × At idle s) repeat)
          → Leads
              (At stage)
              (λ x s. (x ≡ only slaves) × At idle s)
              (elim found [
                | single ↦ ask_selected t h drain
                | failed ↦ ret (failed, [])
                | collision ↦ ret (collision, [])
                | nothing ↦ repeat
              ])
      selected _ _ _ _ e selects_none rest = rest (λ _. e) (inr refl)
      selected _ _ _ _ e (selects_some {a} {others}) rest = rw e (ask_selected-Leads a others e)
      selected _ _ _ _ e selects_clash rest = rw e (Leads-ret (collision, []) (λ s i. (refl, i)))

  -- On such a bus `mbus_probe_secondary_address` tells whether no slave matches the mask, one, whose
  -- address it gives, or more than one; and then the bus is idle again.
  pub probe_secondary_address-Leads :
      IsMask mask
      → Leads
          (At idle)
          (λ x s. (x ≡ only slaves) × At idle s)
          (probe_secondary_address t h drain mask)
  unfolding probe_secondary_address
  probe_secondary_address-Leads v =
      rw (is_16 mask v) (
        search_turns-Leads (h.max_search_retry + 1) failed v (λ e. absurd (cc)) (inl (omega arith)))

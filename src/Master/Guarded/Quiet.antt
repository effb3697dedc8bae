-- ===== src/Master/Guarded/Quiet.antt =====
-- Purging ends on a line that has only so many frames on it.
use libmbus.Base.{
  ℕ, zero, suc, ◌≤◌, ◌<◌, ◌≡◌, refl, inl, inr, arith, Bool, true, false, Bool-cases, some,
}
use libmbus.Frame.{Frame, zero_frame}
use libmbus.Link.Serial.{RecvResult}
use libmbus.Master.Handle.{Handle, Transport, after}
use libmbus.Master.Receive.{is_echo, goes_on, recv_frame, purge_loop, purge_frames}
use libmbus.Master.Keeps.{Keeps, Holds}
use libmbus.Master.Guarded.{Any}

-- The number of frames on the line, `load`: receiving takes one off or gives no frame.
pub record Quiet {S : Type 0} (I : S → Type 0) (t : Transport S) (load : S → ℕ) : Type 0 where
  pub keeps : (s : S) (f : Frame) → I s → I (t.recv s f).2
  pub never_grows : (s : S) (f : Frame) → I s → load (t.recv s f).2 ≤ load s
  pub takes_off :
      (s : S) (f : Frame) → I s → goes_on (t.recv s f).0 ≡ true → load (t.recv s f).2 < load s

abbrev pair : {S : Type 0} → RecvResult × Frame × S → (RecvResult × Frame) × S
pair (result, f, s) = ((result, f), s)

module _ {S : Type 0} {I : S → Type 0} {t : Transport S} {load : S → ℕ} (q : Quiet I t load)
    (h : Handle) where
  recv_frame-Quiet :
      (f : Frame) (s : S)
      → I s
      → (x : (RecvResult × Frame) × S) × (recv_frame t h f s ≡ some x)
        × I x.1
        × (goes_on x.0.0 ≡ true → load x.1 < load s)
  unfolding recv_frame
  recv_frame-Quiet f s i =
      let once = q.keeps s f i in
      elim (Bool-cases (is_echo h (t.recv s f).1)) [
        | inl e ↦ (
          pair (t.recv (t.recv s f).2 (t.recv s f).1),
          rw e refl,
          q.keeps _ _ once,
          (λ g. omega (arith, q.takes_off _ _ once g, q.never_grows s f i)),
        )
        | inr e ↦ (pair (t.recv s f), rw e refl, once, q.takes_off s f i)
      ]

  purge_loop-Quiet :
      (fuel : ℕ) (f : Frame) (received : Bool) (s : S)
      → I s
      → load s < fuel
      → Holds ⊥ I (λ _. Unit {0}) (purge_loop t h fuel f received s)
  unfolding purge_loop
  purge_loop-Quiet zero f received s i enough = absurd (omega arith)
  purge_loop-Quiet (suc fuel) f received s i enough =
      let (x, e, kept, less) = recv_frame-Quiet f s i in
      rw (e, after)
        (elim (Bool-cases (goes_on x.0.0)) [
          | inl g ↦ rw g (purge_loop-Quiet fuel x.0.1 true x.1 kept (omega (arith, less g)))
          | inr g ↦ rw g (tt, kept)
        ])

  -- Fuel for one frame more than there are on the line is enough.
  pub purge_frames-Quiet :
      (drain : ℕ) → ((s : S) → I s → load s < drain) → Keeps ⊥ I Any (purge_frames t h drain)
  unfolding purge_frames
  purge_frames-Quiet drain enough = record {
    keeps = λ s i. purge_loop-Quiet drain zero_frame false s i (enough s i);
  }

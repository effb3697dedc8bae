-- ===== src/Tests/Slave.antt =====
-- A slave whose answer has two frames; each transmission is lost as often as it may be.
use libmbus.Base.{
  ℕ, zero, suc, ◌≡◌, inl, refl, sym, subst, arith, pos, List, [], ◌∷◌, true, bit_xor, overlay,
  replicate,
}
use libmbus.Frame.{Frame, zero_frame}
use libmbus.Frame.Control
use libmbus.Address.{is_primary_address}
use libmbus.Data.Outcome.{check, read, in_bounds, read_all}
use libmbus.Data.Record.{parse_record, is_special, parse_special}
use libmbus.Data.Variable.{
  data_variable_parse, records_loop, data_record_append, note_more, parse_header,
}
use libmbus.Data.Fixed.{frame_data_parse}
use libmbus.Link.Serial.{RecvResult, ok, timeout}
use libmbus.Master.Handle.{Transport, Run}
use libmbus.Master.Receive.{recv_frame, is_echo, purge_frames, purge_loop, goes_on, send_frame}
use libmbus.Master.Request.{sendrecv_request, more_follow}
use libmbus.Master.Leads.{Leads, Yields}
use libmbus.Master.Slave.Answer.{sendrecv_request-Leads}
use libmbus.Master.Slave.{
  Exchange, expecting, replying, distorted, replied, Hears, silence, reply, Slave, IsWhole, Brings,
}
use libmbus.Tests.Bus.{its_answer, quiet_handle}

-- The same answer with a record that says that more records follow.
abbrev with_more : Frame
with_more = record its_answer {
  content =
      overlay (0x78 ∷ 0x56 ∷ 0x34 ∷ 0x12 ∷ 0x24 ∷ 0x40 ∷ 1 ∷ 7 ∷ 0 ∷ 0 ∷ 0 ∷ 0 ∷ 0x1F ∷ [])
        (replicate 252 0);
  data_size = 13;
}

abbrev brings : Exchange → Frame → RecvResult × Frame × Exchange
brings (expecting c ds n) f = (timeout, f, expecting c ds n)
brings (distorted c ds n) f = (timeout, f, expecting c ds n)
brings (replied c ds) f = (timeout, f, expecting (bit_xor c Control.fcb) ds 3)
brings (replying c [] n) f = (timeout, f, expecting c [] n)
brings (replying c (d ∷ ds) zero) f = (ok, d, replied c ds)
brings (replying c (d ∷ ds) (suc n)) f = (timeout, f, expecting c (d ∷ ds) n)

abbrev asks : Exchange → Exchange
asks (expecting c ds n) = replying c ds n
asks x = x

abbrev lossy : Transport Exchange
lossy = record { recv = λ x f. brings x f; send = λ x f. (pos 0, f, asks x) }

abbrev Point : Exchange → Exchange → Type 0
Point x s = s ≡ x

Point-Leads {ℓ} :
    {A : Type ℓ} {Q : A → Exchange → Type 0} {m : Run Exchange A} (x : Exchange)
    → Yields Q (m x)
    → Leads (Point x) Q m
Point-Leads {Q = Q} {m = m} x y = record { leads = λ s e. subst (λ s. Yields Q (m s)) (sym e) y }

lossy-Hears :
    (f : Frame) (c : ℕ) (d : Frame) (ds : List Frame) (n : ℕ)
    → Yields
        (λ r s. (next : Exchange) × Hears (replying c (d ∷ ds) n) r.0 r.1 next × Point next s)
        (recv_frame lossy quiet_handle f (replying c (d ∷ ds) n))
unfolding recv_frame is_echo
lossy-Hears f c d ds zero = (_, reply, refl)
lossy-Hears f c d ds (suc n) = (_, silence, refl)

lossy-Slave : Slave lossy quiet_handle 3 Point
unfolding send_frame recv_frame is_echo purge_frames purge_loop goes_on
lossy-Slave = record {
  sends = λ f ds n r. Point-Leads _ (
    (refl, record { length1 = f.length1; length2 = f.length2; checksum = f.checksum; same = refl }),
    refl,
  );
  replies = λ f c d ds n. Point-Leads _ (lossy-Hears f c d ds n);
  noise_ends = λ c ds n. Point-Leads _ refl;
  reply_ends = λ c ds. Point-Leads _ refl;
}

two_frames-IsWhole : IsWhole (with_more ∷ its_answer ∷ [])
unfolding more_follow frame_data_parse check data_variable_parse records_loop read parse_record
    is_special parse_special in_bounds read_all data_record_append note_more parse_header
two_frames-IsWhole = (refl, (refl, refl))

one_is_primary : is_primary_address (pos 1) ≡ true
unfolding is_primary_address
one_is_primary = refl

sendrecv_request-Leads_example :
    Leads
      (Point (expecting 0x7B (with_more ∷ its_answer ∷ []) 3))
      (Brings quiet_handle Point (with_more ∷ its_answer ∷ []))
      (sendrecv_request lossy quiet_handle 3 (pos 1) zero_frame 2)
sendrecv_request-Leads_example =
    sendrecv_request-Leads lossy-Slave (pos 1) zero_frame 2 (with_more ∷ its_answer ∷ [])
      one_is_primary two_frames-IsWhole (inl (omega arith))

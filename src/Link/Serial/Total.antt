-- ===== src/Link/Serial/Total.antt =====
-- The serial receive loop ends on every line.
use libmbus.Base.{
  ℕ, zero, suc, ◌+◌, ◌-◌, ◌≤◌, ◌<◌, ◌≡◌, ◌≢◌, refl, List, [], ◌∷◌, ◌++◌, arith, length,
  length-append, none,
}
use libmbus.Frame.{Frame}
use libmbus.Link.Port.{Port, Read, bytes, interrupted, would_block, failed, ReadsAtMost}
use libmbus.Link.Serial.{
  Receiving, Round, aborted, stopped, again, loop_test, after_read, on_read, serial_round,
  serial_loop, serial_recv_frame, packet_buff_size, enough_rounds,
}

loop_test-again :
    {S : Type 0} (r r' : Receiving S)
    → loop_test r ≡ again r'
    → (r'.buff ≡ r.buff) × (r'.timeouts ≡ r.timeouts)
unfolding loop_test
loop_test-again r r' e = ground arith

-- How far a state of the loop is from its end.
abbrev left : {S : Type 0} → Receiving S → ℕ
left r = (packet_buff_size - length r.buff) + (3 - r.timeouts)

abbrev InLimits : {S : Type 0} → Receiving S → Type 0
InLimits r = (length r.buff ≤ packet_buff_size) × (r.timeouts < 3)

after_read-again :
    {S : Type 0} (r r' : Receiving S) (s : S) (xs : List ℕ)
    → after_read r s xs ≡ again r'
    → InLimits r
    → length r.buff + length xs ≤ packet_buff_size
    → InLimits r' × (left r' < left r)
unfolding after_read
after_read-again r r' s [] e v h = ground (
  arith,
  loop_test-again (record r { port = s; buff = r.buff ++ []; timeouts = r.timeouts + 1 }) r',
  length-append r.buff [],
)
after_read-again r r' s (x ∷ xs) e v h = ground (
  arith,
  loop_test-again (record r { port = s; buff = r.buff ++ (x ∷ xs) }) r',
  length-append r.buff (x ∷ xs),
)

on_read-again :
    {S : Type 0} (r r' : Receiving S) (s : S) (got : Read)
    → on_read r s got ≡ again r'
    → (xs : List ℕ) × (got ≡ bytes xs) × (after_read r s xs ≡ again r')
unfolding on_read
on_read-again r r' s (bytes xs) e = (xs, refl, e)
on_read-again r r' s interrupted e = cc
on_read-again r r' s would_block e = cc
on_read-again r r' s failed e = cc

module _ {S : Type 0} (p : Port S) (reads : ReadsAtMost p) where
  serial_round-inv :
      (r r' : Receiving S)
      → serial_round p r ≡ again r'
      → (length r.buff + r.remaining ≤ packet_buff_size)
        × (on_read r (p.read r.port r.remaining).1 (p.read r.port r.remaining).0 ≡ again r')
  unfolding serial_round
  serial_round-inv r r' e = ground arith

  serial_round-again :
      (r r' : Receiving S)
      → serial_round p r ≡ again r'
      → InLimits r
      → InLimits r' × (left r' < left r)
  serial_round-again r r' e v =
      let (fits, e') = serial_round-inv r r' e in
      let (xs, got, e'') = on_read-again r r' _ (p.read r.port r.remaining).0 e' in
      let few =
        reads r.port r.remaining xs (p.read r.port r.remaining).1
          (λ i. (got i, (p.read r.port r.remaining).1)) in
      after_read-again r r' _ xs e'' v (omega arith)

  loop_step :
      (fuel : ℕ) (r : Receiving S) (x : Round S)
      → serial_round p r ≡ x
      → InLimits r
      → left r < suc fuel
      → ((r' : Receiving S) → InLimits r' → left r' < fuel → serial_loop p fuel r' ≢ none)
      → serial_loop p (suc fuel) r ≢ none
  unfolding serial_loop
  loop_step fuel r (aborted f s) e v m ih = rw (e, serial_loop) (λ h. cc)
  loop_step fuel r (stopped code buff f s) e v m ih = rw (e, serial_loop) (λ h. cc)
  loop_step fuel r (again r') e v m ih =
      let (v', m') = serial_round-again r r' e v in rw (e, serial_loop) (ih r' v' (omega arith))

  serial_loop-total :
      (fuel : ℕ) (r : Receiving S) → InLimits r → left r < fuel → serial_loop p fuel r ≢ none
  serial_loop-total zero r v m = absurd (omega arith)
  serial_loop-total (suc fuel) r v m =
      loop_step fuel r (serial_round p r) refl v m (serial_loop-total fuel)

  -- `mbus_serial_recv_frame` returns on every line whose `read` returns at most as many bytes as it
  -- is asked for, whatever the bytes are and wherever the timeouts fall: the rounds of the model
  -- are enough.
  pub serial_recv_frame-total : (s : S) (f : Frame) → serial_recv_frame p s f ≢ none
  unfolding serial_recv_frame
  serial_recv_frame-total s f = ground (
    arith,
    serial_loop-total enough_rounds
        (record { port = s; frame = f; buff = []; remaining = 1; timeouts = 0 }) (omega arith)
        (omega arith),
  )

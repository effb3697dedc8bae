-- ===== src/Link/Serial/Stream.antt =====
-- The serial receive loop on a line that brings every byte: it reads a packet and no byte more.
use libmbus.Base.{
  ℕ, zero, suc, ◌+◌, ◌≤◌, ◌<◌, ◌≡◌, refl, ap, sym, ◌∙◌, true, List, [], ◌∷◌, ◌++◌, pos, arith,
  length, length-append, Option, some, append_assoc, append-nil, append_cut, byte_at, ge→ltb,
}
use libmbus.Frame.{Frame, frame_data_length, ack_start}
use libmbus.Frame.Parse.{parse}
use libmbus.Frame.Prefix.{Wants, parse-part}
use libmbus.Frame.Room.{content-parse}
use libmbus.Link.Port.{Port, IsStream}
use libmbus.Link.Serial.{
  RecvResult, ok, Receiving, Round, stopped, again, loop_test, after_read, on_read, serial_round,
  serial_loop, serial_recv_frame, packet_buff_size, serial_result, enough_rounds,
}

-- The loop's test on a frame that is complete, and on one that is not.
loop_test-done :
    {S : Type 0} (r : Receiving S)
    → (parse r.frame r.buff).0 ≡ pos 0
    → loop_test r ≡ stopped (pos 0) r.buff (parse r.frame r.buff).1 r.port
unfolding loop_test
loop_test-done r e = ground arith

loop_test-more :
    {S : Type 0} (r : Receiving S) (n : ℕ)
    → (parse r.frame r.buff).0 ≡ pos (suc n)
    → loop_test r ≡ again (record r { frame = (parse r.frame r.buff).1; remaining = suc n })
unfolding loop_test
loop_test-more r n e = ground arith

after_read-some :
    {S : Type 0} (r : Receiving S) (s : S) (xs : List ℕ)
    → 0 < length xs
    → after_read r s xs ≡ loop_test (record r { port = s; buff = r.buff ++ xs })
unfolding after_read
after_read-some r s [] h = absurd (omega arith)
after_read-some r s (x ∷ xs) h = ground arith

-- `d` is a packet: it is complete in whatever frame it is stored, and an acknowledgement is alone.
pub record IsWhole (d : List ℕ) : Type 0 where
  pub parses : (g : Frame) → length g.content ≡ frame_data_length → (parse g d).0 ≡ pos 0
  pub alone : byte_at d 0 ≡ ack_start → length d ≡ 1
  pub fits : length d ≤ packet_buff_size
  pub some_bytes : 0 < length d

module _ {S : Type 0} (p : Port S) (to_come : S → List ℕ) (st : IsStream p to_come)
    (d rest : List ℕ) (w : IsWhole d) where
  pub record Inv (r : Receiving S) : Type 0 where
    pub room : length r.frame.content ≡ frame_data_length
    pub line : r.buff ++ to_come r.port ≡ d ++ rest
    pub wanted : length r.buff + r.remaining ≤ length d
    pub some_wanted : 0 < r.remaining

  -- The loop stopped with the packet, parsed into the frame `before`, and with `rest` on the line.
  record Complete (x : Option (Round S)) : Type 0 where
    before : Frame
    after : S
    room : length before.content ≡ frame_data_length
    result : x ≡ some (stopped (pos 0) d (parse before d).1 after)
    line : to_come after ≡ rest

  pub line_left : (r : Receiving S) → Inv r → 0 < length (to_come r.port)
  line_left r i = omega (
    arith,
    ap length i.line,
    i.wanted,
    i.some_wanted,
    length-append r.buff (to_come r.port),
    length-append d rest,
  )

  serial_round-reads :
      (r : Receiving S)
      → Inv r
      → serial_round p r
        ≡ loop_test (record r {
          port = st.after r.port r.remaining;
          buff = r.buff ++ st.chunk r.port r.remaining;
        })
  unfolding serial_round on_read
  serial_round-reads r i =
      let left = line_left r i in
      rw
        (
          ge→ltb packet_buff_size (length r.buff + r.remaining) (omega (arith, i.wanted, w.fits)),
          st.reads r.port r.remaining i.some_wanted left,
        )
        (after_read-some r _ (st.chunk r.port r.remaining)
          (st.some_read r.port r.remaining i.some_wanted left))

  -- The buffer behind a read is a part of the packet, of one byte at least.
  IsPart : Receiving S → List ℕ → Type 0
  IsPart r q =
      (d ≡ (r.buff ++ st.chunk r.port r.remaining) ++ q)
      × (to_come (st.after r.port r.remaining) ≡ q ++ rest)
      × (length r.buff < length (r.buff ++ st.chunk r.port r.remaining))

  is_part : (r : Receiving S) → Inv r → (q : List ℕ) × IsPart r q
  unfolding IsPart
  is_part r i =
      let left = line_left r i in
      let xs = st.chunk r.port r.remaining in
      let s' = st.after r.port r.remaining in
      let line : (r.buff ++ xs) ++ to_come s' ≡ d ++ rest =
        append_assoc r.buff xs (to_come s')
        ∙ ap (λ t. r.buff ++ t) (sym (st.in_order r.port r.remaining i.some_wanted left))
        ∙ i.line in
      let some_read = st.some_read r.port r.remaining i.some_wanted left in
      let at_most = st.at_most r.port r.remaining i.some_wanted left in
      let (q, e, f) =
        append_cut (r.buff ++ xs) (to_come s') d rest line
          (omega (arith, length-append r.buff xs, i.wanted, at_most)) in
      (q, (e, f, omega (arith, length-append r.buff xs, some_read)))

  -- The state with what was read.
  abbrev pub grown : Receiving S → Receiving S
  grown r = record r {
    port = st.after r.port r.remaining;
    buff = r.buff ++ st.chunk r.port r.remaining;
  }

  wants :
      (g : Frame) (part : List ℕ) (x : ℕ) (q : List ℕ)
      → length g.content ≡ frame_data_length
      → 0 < length part
      → d ≡ part ++ (x ∷ q)
      → Wants (length (x ∷ q)) g part
  wants g [] x q h long_enough e = absurd (omega arith)
  wants g (b ∷ part) x q h long_enough e =
      parse-part g g b part (x ∷ q) (omega arith)
        (λ a. absurd (
          omega (
            arith,
            w.alone (ap (λ t. byte_at t 0) e ∙ a),
            ap length e,
            length-append part (x ∷ q),
          )))
        (ap (λ t. (parse g t).0) (sym e) ∙ w.parses g h)

  -- What a read brings: the whole packet, or a part of it, with which the loop goes on.
  pub data Progress (r : Receiving S) : Type 0 where
    whole : (grown r).buff ≡ d → to_come (grown r).port ≡ rest → Progress r
    part :
        (n : ℕ)
        → (parse r.frame (grown r).buff).0 ≡ pos (suc n)
        → Inv (record (grown r) { frame = (parse r.frame (grown r).buff).1; remaining = suc n })
        → length r.buff < length (grown r).buff
        → Progress r

  pub progress : (r : Receiving S) → Inv r → Progress r
  unfolding IsPart
  progress r i = let (q, p) = is_part r i in go q p
    where
      go : (q : List ℕ) → IsPart r q → Progress r
      go [] (e, f, longer) = whole (sym (e ∙ append-nil (grown r).buff)) f
      go (x ∷ q) (e, f, longer) =
          let (n, asks, few) = wants r.frame (grown r).buff x q i.room (omega arith) e in
          part n asks
            record {
              room = content-parse r.frame (grown r).buff ∙ i.room;
              line =
                  ap (λ t. (grown r).buff ++ t) f
                  ∙ sym (append_assoc (grown r).buff (x ∷ q) rest)
                  ∙ ap (λ t. t ++ rest) (sym e);
              wanted = omega (arith, ap length e, length-append (grown r).buff (x ∷ q));
              some_wanted = omega arith;
            }
            longer

  -- The packet is parsed into a frame of the usual size.
  pub parse-whole :
      (r : Receiving S) → Inv r → (grown r).buff ≡ d → (parse r.frame (grown r).buff).0 ≡ pos 0
  parse-whole r i e = ap (λ t. (parse r.frame t).0) e ∙ w.parses r.frame i.room

  loop_round :
      (fuel : ℕ) (r : Receiving S)
      → Inv r
      → Progress r
      → length d < suc fuel + length r.buff
      → ((r' : Receiving S)
          → Inv r'
          → length d < fuel + length r'.buff
          → Complete (serial_loop p fuel r'))
      → Complete (serial_loop p (suc fuel) r)
  unfolding serial_loop
  loop_round fuel r i (whole e f) m ih =
      let step : serial_round p r ≡ stopped (pos 0) d (parse r.frame d).1 (grown r).port =
        serial_round-reads r i
        ∙ loop_test-done (grown r) (parse-whole r i e)
        ∙ ap (λ t. stopped (pos 0) t (parse r.frame t).1 (grown r).port) e in
      record {
        before = r.frame;
        after = (grown r).port;
        room = i.room;
        result = rw (step, serial_loop) refl;
        line = f;
      }
  loop_round fuel r i (part n asks inv longer) m ih =
      let r' = record (grown r) { frame = (parse r.frame (grown r).buff).1; remaining = suc n } in
      let step : serial_round p r ≡ again r' =
        serial_round-reads r i ∙ loop_test-more (grown r) n asks in
      rw (step, serial_loop) (ih r' inv (omega arith))

  loop-Inv :
      (fuel : ℕ) (r : Receiving S)
      → Inv r
      → length d < fuel + length r.buff
      → Complete (serial_loop p fuel r)
  loop-Inv zero r i m = absurd (omega (arith, i.wanted, i.some_wanted))
  loop-Inv (suc fuel) r i m = loop_round fuel r i (progress r i) m (loop-Inv fuel)

  -- What `serial_recv_frame` returns: the packet `d`, and a line with `rest` on it.
  pub record Reads (x : Option (RecvResult × Frame × S)) : Type 0 where
    pub before : Frame
    pub after : S
    pub room : length before.content ≡ frame_data_length
    pub result : x ≡ some (ok, (parse before d).1, after)
    pub line : to_come after ≡ rest

  recv_of_Complete :
      (s : S) (f : Frame)
      → p.is_open s ≡ true
      → Complete (
          serial_loop p enough_rounds
            (record { port = s; frame = f; buff = []; remaining = 1; timeouts = 0 }))
      → Reads (serial_recv_frame p s f)
  unfolding serial_recv_frame serial_result
  recv_of_Complete s f open_line c = record {
    before = c.before;
    after = c.after;
    room = c.room;
    result = ground (arith, c.result, w.some_bytes);
    line = c.line;
  }

  -- On an open line that brings the bytes of a packet and then `rest`, in pieces of any sizes,
  -- `mbus_serial_recv_frame` returns OK with the parsed packet and leaves exactly `rest` unread.
  pub serial_recv_frame-Reads :
      (s : S) (f : Frame)
      → p.is_open s ≡ true
      → length f.content ≡ frame_data_length
      → to_come s ≡ d ++ rest
      → Reads (serial_recv_frame p s f)
  serial_recv_frame-Reads s f open_line h e = recv_of_Complete s f open_line (
      loop-Inv enough_rounds
        (record { port = s; frame = f; buff = []; remaining = 1; timeouts = 0 })
        (record {
          room = h;
          line = e;
          wanted = omega (arith, w.some_bytes);
          some_wanted = omega arith;
        })
        (omega (arith, w.fits)))

-- ===== src/Link/Tcp/Stream.antt =====
-- The TCP receive loop on a connection that brings every byte: it reads a packet and no byte more.
use libmbus.Base.{
  ℕ, zero, suc, ◌+◌, ◌<◌, ◌≡◌, refl, ap, ◌∙◌, arith, List, [], ◌∷◌, ◌++◌, pos, length, ge→ltb,
}
use libmbus.Frame.{Frame, frame_data_length}
use libmbus.Frame.Parse.{parse}
use libmbus.Link.Port.{Port, IsStream, bytes}
use libmbus.Link.Serial.{ok, Receiving}
use libmbus.Link.Serial.Stream.{
  IsWhole, Inv, Progress, whole, part, progress, parse-whole, line_left, Reads,
}
use libmbus.Link.Tcp.{
  TcpReceiving, returned, next, tcp_test, on_nread, tcp_round, tcp_loop, tcp_recv_frame,
  tcp_buff_size,
}

-- The variables of the serial loop with the same values.
abbrev as_serial : {S : Type 0} → TcpReceiving S → Receiving S
as_serial r = record {
  port = r.port;
  frame = r.frame;
  buff = r.buff;
  remaining = r.remaining;
  timeouts = 0;
}

on_nread-some :
    {S : Type 0} (r : TcpReceiving S) (s : S) (xs : List ℕ)
    → 0 < length xs
    → on_nread r s (bytes xs) ≡ tcp_test (record r { port = s; buff = r.buff ++ xs })
unfolding on_nread
on_nread-some r s [] h = absurd (omega arith)
on_nread-some r s (x ∷ xs) h = refl

tcp_test-done :
    {S : Type 0} (r : TcpReceiving S)
    → (parse r.frame r.buff).0 ≡ pos 0
    → tcp_test r ≡ returned ok (parse r.frame r.buff).1 r.port
unfolding tcp_test
tcp_test-done r e = ground arith

tcp_test-more :
    {S : Type 0} (r : TcpReceiving S) (n : ℕ)
    → (parse r.frame r.buff).0 ≡ pos (suc n)
    → tcp_test r ≡ next (record r { frame = (parse r.frame r.buff).1; remaining = suc n })
unfolding tcp_test
tcp_test-more r n e = ground arith

module _ {S : Type 0} (p : Port S) (to_come : S → List ℕ) (st : IsStream p to_come)
    (d rest : List ℕ) (w : IsWhole d) where
  abbrev filled : TcpReceiving S → TcpReceiving S
  filled r = record r {
    port = st.after r.port r.remaining;
    buff = r.buff ++ st.chunk r.port r.remaining;
  }

  tcp_round-reads :
      (r : TcpReceiving S)
      → Inv p to_come st d rest w (as_serial r)
      → tcp_round p r ≡ tcp_test (filled r)
  unfolding tcp_round
  tcp_round-reads r i =
      let left = line_left p to_come st d rest w (as_serial r) i in
      rw
        (
          ge→ltb tcp_buff_size (length r.buff + r.remaining) (omega (arith, i.wanted, w.fits)),
          st.reads r.port r.remaining i.some_wanted left,
        )
        (on_nread-some r _ (st.chunk r.port r.remaining)
          (st.some_read r.port r.remaining i.some_wanted left))

  tcp_loop-step :
      (fuel : ℕ) (r : TcpReceiving S)
      → Inv p to_come st d rest w (as_serial r)
      → Progress p to_come st d rest w (as_serial r)
      → length d < suc fuel + length r.buff
      → ((r' : TcpReceiving S)
          → Inv p to_come st d rest w (as_serial r')
          → length d < fuel + length r'.buff
          → Reads p to_come st d rest w (tcp_loop p fuel r'))
      → Reads p to_come st d rest w (tcp_loop p (suc fuel) r)
  unfolding tcp_loop
  tcp_loop-step fuel r i (whole e f) m ih =
      let step : tcp_round p r ≡ returned ok (parse r.frame d).1 (filled r).port =
        tcp_round-reads r i
        ∙ tcp_test-done (filled r) (parse-whole p to_come st d rest w (as_serial r) i e)
        ∙ ap (λ t. returned ok (parse r.frame t).1 (filled r).port) e in
      record {
        before = r.frame;
        after = (filled r).port;
        room = i.room;
        result = rw (step, tcp_loop) refl;
        line = f;
      }
  tcp_loop-step fuel r i (part n asks inv longer) m ih =
      let r' = record (filled r) { frame = (parse r.frame (filled r).buff).1; remaining = suc n } in
      let step : tcp_round p r ≡ next r' = tcp_round-reads r i ∙ tcp_test-more (filled r) n asks in
      rw (step, tcp_loop)
        (ih r'
          record {
            room = inv.room;
            line = inv.line;
            wanted = inv.wanted;
            some_wanted = inv.some_wanted;
          }
          (omega (arith, longer)))

  tcp_loop-Reads :
      (fuel : ℕ) (r : TcpReceiving S)
      → Inv p to_come st d rest w (as_serial r)
      → length d < fuel + length r.buff
      → Reads p to_come st d rest w (tcp_loop p fuel r)
  tcp_loop-Reads zero r i m = absurd (omega (arith, i.wanted, i.some_wanted))
  tcp_loop-Reads (suc fuel) r i m =
      tcp_loop-step fuel r i (progress p to_come st d rest w (as_serial r) i) m
        (tcp_loop-Reads fuel)

  -- On a connection that brings the bytes of a packet and then `rest`, in pieces of any sizes,
  -- `mbus_tcp_recv_frame` returns OK with the parsed packet and leaves exactly `rest` unread: one turn
  -- more than the packet has bytes is enough.
  pub tcp_recv_frame-Reads :
      (fuel : ℕ) (s : S) (f : Frame)
      → length d < fuel
      → length f.content ≡ frame_data_length
      → to_come s ≡ d ++ rest
      → Reads p to_come st d rest w (tcp_recv_frame p fuel s f)
  unfolding tcp_recv_frame
  tcp_recv_frame-Reads fuel s f enough h e =
      tcp_loop-Reads fuel _
        (record {
          room = h;
          line = e;
          wanted = omega (arith, w.some_bytes);
          some_wanted = omega arith;
        })
        (omega (arith, enough))

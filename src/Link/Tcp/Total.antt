-- ===== src/Link/Tcp/Total.antt =====
-- The receive loop of the TCP transport ends.
use libmbus.Base.{
  ℕ, zero, suc, ◌+◌, ◌-◌, ◌≤◌, ◌<◌, ◌≡◌, ◌≢◌, refl, sym, ap, ◌∙◌, [], ◌∷◌, ◌++◌, arith, length,
  length-append, none, ltb, Bool-cases, inl, inr,
}
use libmbus.Frame.{Frame}
use libmbus.Link.Serial.{error}
use libmbus.Link.Port.{Port, Read, bytes, interrupted, would_block, failed, ReadsAtMost}
use libmbus.Link.Tcp.{
  TcpReceiving, TcpRound, returned, next, tcp_test, on_nread, tcp_round, tcp_loop, tcp_recv_frame,
  tcp_buff_size,
}

-- A port on which `read` is interrupted by signals only so many times.
pub record Patient {S : Type 0} (p : Port S) (signals : S → ℕ) : Type 0 where
  pub fewer : (s : S) (n : ℕ) → (p.read s n).0 ≡ interrupted → signals (p.read s n).1 < signals s
  pub no_more : (s : S) (n : ℕ) → signals (p.read s n).1 ≤ signals s

module _ {S : Type 0} (p : Port S) (signals : S → ℕ) (reads : ReadsAtMost p)
    (patient : Patient p signals) where
  -- How far a state of the loop is from its end.
  abbrev left : TcpReceiving S → ℕ
  left r = (tcp_buff_size - length r.buff) + signals r.port

  tcp_test-next :
      (r r' : TcpReceiving S) → tcp_test r ≡ next r' → (r'.buff ≡ r.buff) × (r'.port ≡ r.port)
  unfolding tcp_test
  tcp_test-next r r' e = ground arith

  on_nread-next :
      (r r' : TcpReceiving S) (got : Read)
      → (p.read r.port r.remaining).0 ≡ got
      → length r.buff + r.remaining ≤ tcp_buff_size
      → on_nread r (p.read r.port r.remaining).1 got ≡ next r'
      → left r' < left r
  unfolding on_nread
  on_nread-next r r' interrupted g fits e =
      let same : record r { port = (p.read r.port r.remaining).1 } ≡ r' = cc in
      omega (
        arith,
        ap (λ x. length x.buff) same,
        ap (λ x. signals x.port) same,
        patient.fewer r.port r.remaining g,
      )
  on_nread-next r r' would_block g fits e = absurd (cc)
  on_nread-next r r' failed g fits e = absurd (cc)
  on_nread-next r r' (bytes []) g fits e = absurd (cc)
  on_nread-next r r' (bytes (x ∷ xs)) g fits e =
      let (b, q) =
        tcp_test-next (record r { port = (p.read r.port r.remaining).1; buff = r.buff ++ (x ∷ xs) })
          r' e in
      let few =
        reads r.port r.remaining (x ∷ xs) (p.read r.port r.remaining).1
          (λ i. (g i, (p.read r.port r.remaining).1)) in
      omega (
        arith,
        ap length b,
        ap signals q,
        length-append r.buff (x ∷ xs),
        few,
        patient.no_more r.port r.remaining,
      )

  tcp_round-next : (r r' : TcpReceiving S) → tcp_round p r ≡ next r' → left r' < left r
  unfolding tcp_round
  tcp_round-next r r' e = elim (Bool-cases (ltb tcp_buff_size (length r.buff + r.remaining))) [
    | inl over ↦
        absurd (let f : returned error r.frame r.port ≡ next r' = sym (rw over refl) ∙ e in cc)
    | inr fits ↦
        on_nread-next r r' (p.read r.port r.remaining).0 refl (ground arith)
          (sym (rw fits refl) ∙ e)
  ]

  tcp_loop-total : (fuel : ℕ) (r : TcpReceiving S) → left r < fuel → tcp_loop p fuel r ≢ none
  unfolding tcp_loop
  tcp_loop-total zero r m = absurd (omega arith)
  tcp_loop-total (suc fuel) r m = go (tcp_round p r) refl (tcp_loop-total fuel)
    where
      go :
          (x : TcpRound S)
          → tcp_round p r ≡ x
          → ((r' : TcpReceiving S) → left r' < fuel → tcp_loop p fuel r' ≢ none)
          → tcp_loop p (suc fuel) r ≢ none
      go (returned code f s) e rest = rw (e, tcp_loop) (λ h. cc)
      go (next r') e rest = rw (e, tcp_loop) (rest r' (omega (arith, tcp_round-next r r' e)))

  -- `mbus_tcp_recv_frame` returns on every connection whose `read` returns at most as many bytes as
  -- it is asked for, if signals interrupt it only so many times: whatever the bytes are, and wherever
  -- the timeouts and the end of the connection fall.
  pub tcp_recv_frame-total :
      (fuel : ℕ) (s : S) (f : Frame)
      → tcp_buff_size + signals s < fuel
      → tcp_recv_frame p fuel s f ≢ none
  unfolding tcp_recv_frame
  tcp_recv_frame-total fuel s f enough = tcp_loop-total fuel _ (omega arith)

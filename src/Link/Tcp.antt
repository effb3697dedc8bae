-- ===== src/Link/Tcp.antt =====
-- `mbus_tcp_recv_frame` and `mbus_tcp_send_frame` of mbus/mbus-tcp.c. The callbacks for traces
-- (`recv_event`, `send_event`) are left out.
pub mod Stream
pub mod Total
use libmbus.Base.{
  ℕ, zero, suc, ◌+◌, ◌≡◌, List, [], ◌∷◌, ◌++◌, ℤ, pos, negsuc, minus_one, if◌then◌else◌, ltb,
  length, Option, none, some,
}
use libmbus.Frame.{Frame}
use libmbus.Frame.Parse.{parse}
use libmbus.Frame.Pack.{frame_pack}
use libmbus.Link.Port.{Port, Read, bytes, interrupted, would_block, failed}
use libmbus.Link.Serial.{RecvResult, ok, error, invalid, timeout, reset}

abbrev pub tcp_buff_size : ℕ
tcp_buff_size = 2048

-- The variables of the loop; `len` is the length of `buff`.
pub record TcpReceiving (S : Type 0) : Type 0 where
  pub port : S
  pub frame : Frame
  pub buff : List ℕ
  pub remaining : ℕ

-- A turn of the loop returns, or leads to another turn.
pub data TcpRound (S : Type 0) : Type 0 where
  returned : RecvResult → Frame → S → TcpRound S
  next : TcpReceiving S → TcpRound S

-- `while ((remaining = mbus_parse(frame, buff, len)) > 0)`, and what stands behind the loop.
unfoldable pub tcp_test : {S : Type 0} → TcpReceiving S → TcpRound S
tcp_test r =
    let (remaining, frame) = parse r.frame r.buff in
    elim remaining [
      | pos zero ↦ returned ok frame r.port
      | pos (suc n) ↦ next (record r { frame = frame; remaining = suc n })
      | negsuc n ↦ returned invalid frame r.port
    ]

-- `switch (nread)`; `goto retry` is another turn. The test that `len` does not pass SSIZE_MAX is left
-- out: `len` is at most 2048.
unfoldable pub on_nread : {S : Type 0} → TcpReceiving S → S → Read → TcpRound S
on_nread r s interrupted = next (record r { port = s })
on_nread r s would_block = returned timeout r.frame s
on_nread r s failed = returned error r.frame s
on_nread r s (bytes []) = returned reset r.frame s
on_nread r s (bytes (x ∷ xs)) = tcp_test (record r { port = s; buff = r.buff ++ (x ∷ xs) })

module _ {S : Type 0} (p : Port S) where
  unfoldable pub tcp_round : TcpReceiving S → TcpRound S
  tcp_round r =
      if ltb tcp_buff_size (length r.buff + r.remaining)
      then returned error r.frame r.port
      else (let (got, s) = p.read r.port r.remaining in on_nread r s got)

  -- The loop, on fuel for the bytes and for the signals that interrupt `read`.
  unfoldable pub tcp_loop : ℕ → TcpReceiving S → Option (RecvResult × Frame × S)
  tcp_loop zero r = none
  tcp_loop (suc fuel) r = elim (tcp_round r) [
    | returned result f s ↦ some (result, f, s)
    | next r' ↦ tcp_loop fuel r'
  ]

  -- `mbus_tcp_recv_frame`
  unfoldable pub tcp_recv_frame : ℕ → S → Frame → Option (RecvResult × Frame × S)
  tcp_recv_frame fuel s f = tcp_loop fuel (record { port = s; frame = f; buff = []; remaining = 1 })

  -- `mbus_tcp_send_frame`. Only the code -1 of `mbus_frame_pack` is tested: with another one `write`
  -- is called with a length that is not that of the buffer, and there is no result.
  unfoldable pub tcp_send_frame : S → Frame → Option (ℤ × Frame × S)
  tcp_send_frame s f =
      let (len, f', buff) = frame_pack f tcp_buff_size in
      elim len [
        | negsuc zero ↦ some (minus_one, f', s)
        | negsuc (suc n) ↦ none
        | pos n ↦
            (let (written, s') = p.write s buff in
              some (if written then pos 0 else minus_one, f', s'))
      ]

-- ===== src/Master/Scan.antt =====
-- `mbus_probe_secondary_range` and `mbus_scan_2nd_address_range` of mbus/mbus-protocol-aux.c, over
-- a function that probes one mask.
pub mod Slaves
pub mod Digits
pub mod Complete
use libmbus.Base.{
  ℕ, zero, suc, ◌+◌, ◌-◌, ◌<◌, ℤ, pos, negsuc, minus_one, Bool, true, false, not, ◌&&◌, ◌||◌,
  Option, none, some, List, [], ◌∷◌, ◌++◌, if◌then◌else◌, ◌==◌, leb, ltb, length, byte_at, set,
}
use libmbus.Master.Handle.{Handle, Transport, Run, ◌>>=◌, after, ret}
use libmbus.Master.Select.{
  Probe, nothing, single, collision, failed, Finding, probe_secondary_address,
}

-- What the scan makes known, in its order: a mask is tried (`scan_progress`), and the callback is
-- called with an address and the mask that matched: the caller's, or `print_secondary_address`.
pub data Event : Type 0 where
  progress : List ℕ → Event
  called printed : List ℕ → List ℕ → Event

-- The callback `cb`: none, the caller's with what it returns, or `print_secondary_address`, which
-- returns 0.
pub data Callback : Type 0 where
  no_callback print_callback : Callback
  callback : (List ℕ → List ℕ → Bool) → Callback

unfoldable pub call : Callback → List ℕ → List ℕ → Bool × List Event
call no_callback addr mask = (false, [])
call print_callback addr mask = (false, printed addr mask ∷ [])
call (callback stop) addr mask = (stop addr mask, called addr mask ∷ [])

unfoldable pub is_wildcard : ℕ → Bool
is_wildcard c = c == b'f' || c == b'F'

-- The characters that are put at the position: all digits for a wildcard.
abbrev pub ten_digits : List ℕ
ten_digits = b'0' ∷ b'1' ∷ b'2' ∷ b'3' ∷ b'4' ∷ b'5' ∷ b'6' ∷ b'7' ∷ b'8' ∷ b'9' ∷ []

-- What a part of the scan returns: the result, and what it made known.
abbrev pub Scanned : Type 0
Scanned = ℤ × List Event

module _ {S : Type 0} (probe : List ℕ → Run S Finding) (has_found_event : Bool) where
  -- One mask is tried. The result says whether the loop goes on (`none`), breaks, or fails. A
  -- collision is searched further by `deeper`, of which the result is dropped.
  unfoldable pub on_probe :
      (List ℕ → Run S Scanned) → Callback → List ℕ → Finding → Run S (Option ℤ × List Event)
  on_probe deeper cb mask (single, addr) =
      if has_found_event
      then ret (none, [])
      else (let (stop, events) = call cb addr mask in
          ret (if stop then some (pos 0) else none, events))
  on_probe deeper cb mask (collision, addr) = do (_, events) ← deeper mask; ret (none, events)
  on_probe deeper cb mask (nothing, addr) = ret (none, [])
  on_probe deeper cb mask (failed, addr) = ret (some minus_one, [])

  unfoldable pub try_mask :
      (List ℕ → Run S Scanned) → Callback → List ℕ → Run S (Option ℤ × List Event)
  try_mask deeper cb mask = do
    found ← probe mask
    (next, events) ← on_probe deeper cb mask found
    ret (next, progress mask ∷ events)

  -- The loop over the characters for one position.
  unfoldable pub try_all : (List ℕ → Run S Scanned) → Callback → ℕ → List ℕ → List ℕ → Run S Scanned
  try_all deeper cb at mask [] = ret (pos 0, [])
  try_all deeper cb at mask (c ∷ cs) = do
    (next, events) ← try_mask deeper cb (set mask at c)
    elim next [
      | some result ↦ ret (result, events)
      | none ↦ (do (result, more) ← try_all deeper cb at mask cs; ret (result, events ++ more))
    ]

  -- The body of `mbus_probe_secondary_range` for a position inside the mask.
  unfoldable pub scan_position : (List ℕ → Run S Scanned) → Callback → ℕ → List ℕ → Run S Scanned
  scan_position deeper cb at mask =
      if is_wildcard (byte_at mask at)
      then try_all deeper cb at mask ten_digits
      else (if ltb at 15
          then (do (_, events) ← deeper mask; ret (pos 0, events))
          else try_all deeper cb at mask (byte_at mask at ∷ []))

  -- `mbus_probe_secondary_range` at position `at`, with `left` calls inside each other allowed; the
  -- recursive calls are `mbus_scan_2nd_address_range`. With none allowed there is no result.
  unfoldable pub range : ℕ → ℕ → Callback → List ℕ → Run S Scanned
  range zero at cb mask = λ s. none
  range (suc left) at cb mask =
      let deeper : List ℕ → Run S Scanned = range left (at + 1) print_callback in
      if not (length mask == 16)
      then ret (minus_one, [])
      else (if leb 16 at then ret (pos 0, []) else scan_position deeper cb at mask)

  -- `mbus_probe_secondary_range`. The calls for the positions 0 to 16 are seventeen at most.
  unfoldable pub probe_secondary_range : ℤ → List ℕ → Callback → Run S Scanned
  probe_secondary_range (negsuc n) mask cb =
      if not (length mask == 16) then ret (minus_one, []) else ret (pos 0, [])
  probe_secondary_range (pos at) mask cb = range 17 at cb mask

-- `mbus_scan_2nd_address_range`
unfoldable pub scan_2nd_address_range :
    {S : Type 0} → Transport S → Handle → ℕ → ℤ → List ℕ → Run S Scanned
scan_2nd_address_range t h drain at mask =
    probe_secondary_range (probe_secondary_address t h drain) h.has_found_event at mask
      print_callback

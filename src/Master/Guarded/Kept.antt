-- ===== src/Master/Guarded/Kept.antt =====
-- The functions of the master send only frames that can be sent.
use libmbus.Base.{ℕ, ℤ, List, ◌≡◌, some}
use libmbus.Frame.{Frame}
use libmbus.Master.Handle.{Handle, Transport}
use libmbus.Master.Scan.{print_callback, Scanned, scan_2nd_address_range}
use libmbus.Master.Keeps.{Keeps, Keeps-total}
use libmbus.Master.Guarded.{Guarded, Any}
use libmbus.Master.Guarded.Dialogue.{probe_secondary_address-Keeps}
use libmbus.Master.Guarded.Scanning.{probe_secondary_range-Keeps}

-- The scan of the secondary addresses ends, from every position and with every mask, if purging the
-- line ends, and it keeps what is kept by receiving and by sending a frame that can be sent.
pub scan_2nd_address_range-total :
    {S : Type 0} {I : S → Type 0} {t : Transport S} {h : Handle} {drain : ℕ}
    → Guarded ⊥ I t h drain
    → (at : ℤ) (mask : List ℕ) (s : S) → I s
    → (x : Scanned × S) × (scan_2nd_address_range t h drain at mask s ≡ some x) × Any x.0 × I x.1
unfolding scan_2nd_address_range
scan_2nd_address_range-total {h = h} g at mask s i =
    Keeps-total
      (probe_secondary_range-Keeps h.has_found_event (probe_secondary_address-Keeps g) at mask
        print_callback)
      s i

-- ===== src/Master/Sendable.antt =====
-- The frames that the functions of the master send can be packed, and arrive.
use libmbus.Base.{
  ℕ, zero, suc, ℤ, pos, negsuc, is_minus_one, ◌≤◌, ◌<◌, ◌≡◌, ◌⊎◌, inl, inr, refl, sym, ap, arith,
  false, List, [], ◌∷◌, length, length-overlay, AreBytes, IsByte, overlay, replicate, bit_xor, ◌-◌,
  some, Bool-cases,
}
use libmbus.Frame.{Frame, short, long, IsFrame, frame_new, frame_data_length}
use libmbus.Base.{subst, byte_at, ◌+◌}
use libmbus.Base.Bits.{or_nibbles}
use libmbus.Base.Bits.And.{low_four}
use libmbus.Frame.Valid.{ShortCode}
use libmbus.Frame.RoundTrip.{CanSend}
use libmbus.Address.{select_secondary_pack, address_bytes, id_byte, id_nibble, is_secondary_address}
use libmbus.Master.Handle.{to_u8}
use libmbus.Master.Send.{
  baudrate_frame, reset_frame, request_frame, user_data_frame, ping_frame, baudrate_information,
}
use libmbus.Master.Request.{data_request, toggle_fcb}

-- A frame that can be packed and that `mbus_frame_verify` accepts.
pub record Sendable (f : Frame) : Type 0 where
  pub frame : IsFrame f
  pub can_send : CanSend f.type f

pub to_u8-IsByte : (v : ℤ) → IsByte (to_u8 v)
to_u8-IsByte (pos n) = omega arith
to_u8-IsByte (negsuc n) = omega arith

zeros-AreBytes : (n : ℕ) → AreBytes (replicate n 0)
zeros-AreBytes zero = tt
zeros-AreBytes (suc n) = (omega arith, zeros-AreBytes n)

pub overlay-AreBytes : (xs ys : List ℕ) → AreBytes xs → AreBytes ys → AreBytes (overlay xs ys)
overlay-AreBytes [] ys h g = g
overlay-AreBytes (x ∷ xs) [] h g = tt
overlay-AreBytes (x ∷ xs) (y ∷ ys) h g = (h.0, overlay-AreBytes xs ys h.1 g.1)

pub request_frame-Sendable : (address : ℤ) → Sendable (request_frame address)
unfolding request_frame frame_new
request_frame-Sendable address = record {
  frame = record {
    control_byte = omega arith;
    address_byte = to_u8-IsByte address;
    information_byte = omega arith;
    content_length = refl;
    content_bytes = zeros-AreBytes 252;
    size_fits = omega arith;
  };
  can_send = (refl, inr (inr (inr (inl refl))), refl);
}

pub ping_frame-Sendable : (address : ℤ) → Sendable (ping_frame address)
unfolding ping_frame frame_new
ping_frame-Sendable address = record {
  frame = record {
    control_byte = omega arith;
    address_byte = to_u8-IsByte address;
    information_byte = omega arith;
    content_length = refl;
    content_bytes = zeros-AreBytes 252;
    size_fits = omega arith;
  };
  can_send = (refl, inl refl, refl);
}

baudrate_information-IsByte :
    (baudrate : ℤ) (i : ℕ) → baudrate_information baudrate ≡ some i → IsByte i
unfolding baudrate_information
baudrate_information-IsByte (pos n) i e = ground arith
baudrate_information-IsByte (negsuc n) i e = ground arith

pub baudrate_frame-Sendable :
    (address baudrate : ℤ) (i : ℕ)
    → baudrate_information baudrate ≡ some i
    → Sendable (baudrate_frame address i)
unfolding baudrate_frame frame_new
baudrate_frame-Sendable address baudrate i e = record {
  frame = record {
    control_byte = omega arith;
    address_byte = to_u8-IsByte address;
    information_byte = baudrate_information-IsByte baudrate i e;
    content_length = refl;
    content_bytes = zeros-AreBytes 252;
    size_fits = omega arith;
  };
  can_send = (refl, refl, inl refl, refl);
}

pub reset_frame-Sendable : (address subcode : ℤ) → Sendable (reset_frame address subcode)
unfolding reset_frame frame_new
reset_frame-Sendable address (pos subcode) = record {
  frame = record {
    control_byte = omega arith;
    address_byte = to_u8-IsByte address;
    information_byte = omega arith;
    content_length = refl;
    content_bytes = (omega arith, zeros-AreBytes 251);
    size_fits = omega arith;
  };
  can_send = (refl, refl, inl refl, refl);
}
reset_frame-Sendable address (negsuc n) = record {
  frame = record {
    control_byte = omega arith;
    address_byte = to_u8-IsByte address;
    information_byte = omega arith;
    content_length = refl;
    content_bytes = zeros-AreBytes 252;
    size_fits = omega arith;
  };
  can_send = (refl, refl, inl refl, refl);
}

pub user_data_frame-Sendable :
    (address : ℤ) (d : List ℕ)
    → AreBytes d
    → length d ≤ frame_data_length
    → Sendable (user_data_frame address d)
unfolding user_data_frame frame_new
user_data_frame-Sendable address d bytes fits = record {
  frame = record {
    control_byte = omega arith;
    address_byte = to_u8-IsByte address;
    information_byte = omega arith;
    content_length = length-overlay d (replicate 252 0);
    content_bytes = overlay-AreBytes d (replicate 252 0) bytes (zeros-AreBytes 252);
    size_fits = fits;
  };
  can_send = (refl, refl, inl refl, refl);
}

id_nibble-lt : (c : ℕ) → id_nibble c < 16
unfolding id_nibble
id_nibble-lt c = ground (arith, low_four (c - 48))

id_byte-IsByte : (s : List ℕ) (i : ℕ) → IsByte (id_byte s i)
unfolding id_byte
id_byte-IsByte s i = omega (
  arith,
  or_nibbles (id_nibble (byte_at s i)) (id_nibble (byte_at s (i + 1))) (id_nibble-lt _)
      (id_nibble-lt _),
  id_nibble-lt (byte_at s i),
  id_nibble-lt (byte_at s (i + 1)),
)

address_bytes-AreBytes : (s : List ℕ) → AreBytes (address_bytes s)
unfolding address_bytes
address_bytes-AreBytes s = (
  id_byte-IsByte s 6,
  (
    id_byte-IsByte s 4,
    (
      id_byte-IsByte s 2,
      (id_byte-IsByte s 0, (omega arith, (omega arith, (omega arith, (omega arith, tt))))),
    ),
  ),
)

-- A mask that is packed gives a frame that can be sent.
pub select_frame-Sendable :
    (mask : List ℕ)
    → is_minus_one (select_secondary_pack (frame_new long) mask).0 ≡ false
    → Sendable (select_secondary_pack (frame_new long) mask).1
unfolding select_secondary_pack frame_new
select_frame-Sendable mask = elim (Bool-cases (is_secondary_address mask)) [
  | inr e ↦ rw e (λ h. absurd (cc))
  | inl e ↦ rw e (λ h. record {
    frame = record {
      control_byte = omega arith;
      address_byte = omega arith;
      information_byte = omega arith;
      content_length = length-overlay (address_bytes mask) (replicate 252 0);
      content_bytes =
          overlay-AreBytes (address_bytes mask) (replicate 252 0) (address_bytes-AreBytes mask)
            (zeros-AreBytes 252);
      size_fits = omega arith;
    };
    can_send = (refl, refl, inr (inl refl), refl);
  })
]

-- A request of data, with either value of its bit FCB.
pub record IsRequest (f : Frame) : Type 0 where
  pub whole : IsFrame f
  pub kind : f.type ≡ short
  pub starts : f.start1 ≡ 0x10
  pub stops : f.stop ≡ 0x16
  pub code : (f.control ≡ 0x7B) ⊎ (f.control ≡ 0x5B)

request_code : (f : Frame) → (f.control ≡ 0x7B) ⊎ (f.control ≡ 0x5B) → ShortCode f.control
request_code f (inl e) = inr (inr (inr (inr e)))
request_code f (inr e) = inr (inr (inr (inl e)))

pub IsRequest-Sendable : (f : Frame) → IsRequest f → Sendable f
IsRequest-Sendable f r = record {
  frame = r.whole;
  can_send = subst (λ t. CanSend t f) (sym r.kind) (r.starts, request_code f r.code, r.stops);
}

pub data_request-IsRequest : (address : ℤ) → IsRequest (data_request address)
unfolding data_request frame_new
data_request-IsRequest address = record {
  whole = record {
    control_byte = omega arith;
    address_byte = to_u8-IsByte address;
    information_byte = omega arith;
    content_length = refl;
    content_bytes = zeros-AreBytes 252;
    size_fits = omega arith;
  };
  kind = refl;
  starts = refl;
  stops = refl;
  code = inl refl;
}

pub toggle_fcb-IsRequest : (f : Frame) → IsRequest f → IsRequest (toggle_fcb f)
unfolding toggle_fcb
toggle_fcb-IsRequest f r = record {
  whole = record {
    control_byte = elim r.code [
      | inl e ↦ rw (ap (λ c. bit_xor c 32) e) (omega arith)
      | inr e ↦ rw (ap (λ c. bit_xor c 32) e) (omega arith)
    ];
    address_byte = r.whole.address_byte;
    information_byte = r.whole.information_byte;
    content_length = r.whole.content_length;
    content_bytes = r.whole.content_bytes;
    size_fits = r.whole.size_fits;
  };
  kind = r.kind;
  starts = r.starts;
  stops = r.stops;
  code = elim r.code [
    | inl e ↦ inr (ap (λ c. bit_xor c 32) e)
    | inr e ↦ inl (ap (λ c. bit_xor c 32) e)
  ];
}

-- ===== src/Frame/Packet.antt =====
-- What `parse` does with a complete packet, and what `frame_pack` writes for a frame in order.
use libmbus.Base.{
  ℕ, suc, ◌+◌, ◌-◌, ◌≤◌, ◌≡◌, refl, ap, ◌∙◌, List, [], ◌∷◌, ◌++◌, if◌then◌else◌, ◌==◌, length,
  overlay, byte_at, arith, length-append, take-length-append, get_or-append_next,
  get_or-append_second,
}
use libmbus.Frame.{Frame, control, long, short_start, long_start}
use libmbus.Frame.Parse.{
  parse, parse_long, parse_short, store_long, store_lengths, store_short, verified,
}

-- The bytes of a control or long packet.
abbrev pub packet : ℕ → ℕ → ℕ → ℕ → ℕ → ℕ → List ℕ → ℕ → ℕ → List ℕ
packet l1 l2 s2 c a ci p ck st = long_start ∷ l1 ∷ l2 ∷ s2 ∷ c ∷ a ∷ ci ∷ (p ++ (ck ∷ st ∷ []))

-- The frame `g` with the fields of a packet stored in it.
abbrev pub received : Frame → ℕ → ℕ → ℕ → ℕ → ℕ → List ℕ → ℕ → ℕ → Frame
received g l s2 c a ci p ck st = record {
  start1 = long_start;
  length1 = l;
  length2 = l;
  start2 = s2;
  control = c;
  address = a;
  control_information = ci;
  checksum = ck;
  stop = st;
  content = overlay p g.content;
  data_size = length p;
  type = if length p == 0 then control else long;
}

store_long-packet :
    (g : Frame) (l s2 c a ci : ℕ) (p : List ℕ) (ck st : ℕ)
    → l ≡ length p + 3
    → let d = packet l l s2 c a ci p ck st in
      store_long (store_lengths g d) d ≡ received g l s2 c a ci p ck st
unfolding store_long store_lengths
store_long-packet g l s2 c a ci p ck st e =
    let q : List ℕ = long_start ∷ l ∷ l ∷ s2 ∷ c ∷ a ∷ ci ∷ p in
    let size : l - 3 ≡ length p = omega arith in
    let total : length (p ++ (ck ∷ st ∷ [])) ≡ length p + 2 = length-append p (ck ∷ st ∷ []) in
    let last2 : suc (suc (suc (suc (suc (suc (suc (length (p ++ (ck ∷ st ∷ []))))))))) - 2
        ≡ length q =
      omega arith in
    let last1 : suc (suc (suc (suc (suc (suc (suc (length (p ++ (ck ∷ st ∷ []))))))))) - 1
        ≡ suc (length q) =
      omega arith in
    rw
      (
        last2,
        last1,
        size,
        take-length-append p (ck ∷ st ∷ []) (length p) refl,
        get_or-append_next p ck (st ∷ []) 0,
        get_or-append_second p ck st [] 0,
      )
      refl

parse_long_complete :
    (g : Frame) (d : List ℕ)
    → 3 ≤ byte_at d 1
    → byte_at d 1 ≡ byte_at d 2
    → length d ≡ 6 + byte_at d 1
    → parse_long g d ≡ verified (store_long (store_lengths g d) d)
unfolding parse_long
parse_long_complete g d h e n = ground arith

parse-start_long :
    (g : Frame) (rest : List ℕ) → parse g (long_start ∷ rest) ≡ parse_long g (long_start ∷ rest)
unfolding parse
parse-start_long g rest = refl

-- A packet whose two lengths agree with its size is stored whole and verified.
pub parse-packet :
    (g : Frame) (l s2 c a ci : ℕ) (p : List ℕ) (ck st : ℕ)
    → l ≡ length p + 3
    → parse g (packet l l s2 c a ci p ck st) ≡ verified (received g l s2 c a ci p ck st)
parse-packet g l s2 c a ci p ck st e =
    let total : length (p ++ (ck ∷ st ∷ [])) ≡ length p + 2 = length-append p (ck ∷ st ∷ []) in
    parse-start_long g _
    ∙ parse_long_complete g (packet l l s2 c a ci p ck st) (omega arith) refl (omega arith)
    ∙ ap verified (store_long-packet g l s2 c a ci p ck st e)

pub parse-short_packet :
    (g : Frame) (c a ck st : ℕ)
    → parse g (short_start ∷ c ∷ a ∷ ck ∷ st ∷ [])
      ≡ verified (store_short g (short_start ∷ c ∷ a ∷ ck ∷ st ∷ []))
unfolding parse parse_short
parse-short_packet g c a ck st = refl

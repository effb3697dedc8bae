-- ===== src/Frame/Repack.antt =====
-- `frame_pack` writes again the bytes that `parse` accepted.
use libmbus.Base.{
  ℕ, zero, suc, ◌+◌, ◌≤◌, ◌≡◌, ◌≢◌, inl, inr, refl, sym, ap, ap₂, subst, ◌∙◌, List, [], ◌∷◌, ◌++◌,
  pos, arith, length, take-overlay, byte_at, ◌-◌,
}
use libmbus.Frame.{
  Frame, any, ack, short, control, long, ack_start, short_start, long_start, frame_verify, payload,
  frame_data_length,
}
use libmbus.Frame.Pack.{frame_pack}
use libmbus.Frame.Parse.{parse, parse_long, verified, store_short, store_long, store_lengths}
use libmbus.Frame.Packet.{packet, received, parse-packet, parse-short_packet}
use libmbus.Frame.Valid.{frame_verify-by, calc_length-by, calc_checksum-by}
use libmbus.Frame.RoundTrip.{frame_pack-by, parse-ack}
use libmbus.Frame.Prefix.{
  parse-start, parse-long_start, parse-short_start, parse_long-done, parse_short-done,
}

-- A list of `n + 2` elements, with its last two apart.
abbrev EndsInTwo : List ℕ → ℕ → Type 0
EndsInTwo d n = (p : List ℕ) × (x : ℕ) × (y : ℕ) × (d ≡ p ++ (x ∷ y ∷ [])) × (length p ≡ n)

ends_in_two : (d : List ℕ) (n : ℕ) → length d ≡ n + 2 → EndsInTwo d n
ends_in_two (x ∷ y ∷ []) zero h = ([], x, y, refl, refl)
ends_in_two (x ∷ y ∷ []) (suc n) h = absurd (omega arith)
ends_in_two (x ∷ y ∷ z ∷ d) zero h = absurd (omega arith)
ends_in_two (x ∷ y ∷ z ∷ d) (suc n) h =
    let (p, a, b, e, l) = ends_in_two (y ∷ z ∷ d) n (omega arith) in
    (x ∷ p, a, b, ap (λ t. x ∷ t) e, ap suc l)
ends_in_two (x ∷ []) n h = absurd (omega arith)
ends_in_two [] n h = absurd (omega arith)

-- The fields of a list that is as long as a packet with `n` bytes of data.
record IsPacket (d : List ℕ) (n : ℕ) : Type 0 where
  s1 : ℕ
  l1 : ℕ
  l2 : ℕ
  s2 : ℕ
  c : ℕ
  a : ℕ
  ci : ℕ
  p : List ℕ
  ck : ℕ
  st : ℕ
  shape : d ≡ s1 ∷ l1 ∷ l2 ∷ s2 ∷ c ∷ a ∷ ci ∷ (p ++ (ck ∷ st ∷ []))
  size : length p ≡ n

is_packet : (d : List ℕ) (n : ℕ) → length d ≡ n + 9 → IsPacket d n
is_packet (s1 ∷ l1 ∷ l2 ∷ s2 ∷ c ∷ a ∷ ci ∷ rest) n h =
    let (p, ck, st, e, size) = ends_in_two rest n (omega arith) in
    record {
      s1 = s1;
      l1 = l1;
      l2 = l2;
      s2 = s2;
      c = c;
      a = a;
      ci = ci;
      p = p;
      ck = ck;
      st = st;
      shape = ap (λ t. s1 ∷ l1 ∷ l2 ∷ s2 ∷ c ∷ a ∷ ci ∷ t) e;
      size = size;
    }
is_packet _ n h = absurd (omega arith)

verified-done :
    (f : Frame) → (verified f).0 ≡ pos 0 → (frame_verify f ≡ pos 0) × (verified f ≡ (pos 0, f))
unfolding verified
verified-done f h = ground arith

control-ne-any : control ≢ any
control-ne-any e = cc

long-ne-any : long ≢ any
long-ne-any e = cc

short-ne-any : short ≢ any
short-ne-any e = cc

-- A packet that passes `frame_verify` is written again.
repack-received :
    (g : Frame) (l s2 c a ci : ℕ) (p : List ℕ) (ck st : ℕ) (room : ℕ)
    → l ≡ length p + 3
    → length g.content ≡ frame_data_length
    → length p + 9 ≤ room
    → frame_verify (received g l s2 c a ci p ck st) ≡ pos 0
    → (frame_pack (received g l s2 c a ci p ck st) room).2 ≡ packet l l s2 c a ci p ck st
repack-received g l s2 c a ci [] ck st room e h fits ok =
    let f = received g l s2 c a ci [] ck st in
    let (_, _, _, _, length1, _, sum) = (frame_verify-by control f refl).0 ok in
    rw (frame_pack-by control f room refl (λ t. control-ne-any t) fits)
      (rw ((calc_length-by f).0 refl, calc_checksum-by control f refl, ← sum, ← length1) refl)
repack-received g l s2 c a ci (x ∷ p) ck st room e h fits ok =
    let f = received g l s2 c a ci (x ∷ p) ck st in
    let kind : f.type ≡ long = ground arith in
    let (_, _, _, _, length1, _, sum) = (frame_verify-by long f kind).0 ok in
    let whole : payload f ≡ x ∷ p =
      take-overlay (x ∷ p) g.content (suc (length p)) refl (omega arith) in
    rw (frame_pack-by long f room kind (λ t. long-ne-any t) fits)
      (rw ((calc_length-by f).1 kind, calc_checksum-by long f kind, ← sum, ← length1, whole) refl)

IsPacket-form :
    (d : List ℕ) (n : ℕ) (k : IsPacket d n)
    → byte_at d 0 ≡ long_start
    → byte_at d 1 ≡ byte_at d 2
    → d ≡ packet k.l1 k.l1 k.s2 k.c k.a k.ci k.p k.ck k.st
IsPacket-form d n k start same =
    let start' : k.s1 ≡ long_start = ap (λ t. byte_at t 0) (sym k.shape) ∙ start in
    let same' : k.l2 ≡ k.l1 =
      ap (λ t. byte_at t 2) (sym k.shape) ∙ sym same ∙ ap (λ t. byte_at t 1) k.shape in
    k.shape
    ∙ ap₂ (λ s l. s ∷ k.l1 ∷ l ∷ k.s2 ∷ k.c ∷ k.a ∷ k.ci ∷ (k.p ++ (k.ck ∷ k.st ∷ []))) start' same'

repack-packet :
    (g : Frame) (d : List ℕ) (l s2 c a ci : ℕ) (p : List ℕ) (ck st : ℕ) (room : ℕ)
    → d ≡ packet l l s2 c a ci p ck st
    → l ≡ length p + 3
    → length g.content ≡ frame_data_length
    → length p + 9 ≤ room
    → (parse g d).0 ≡ pos 0
    → (frame_pack (parse g d).1 room).2 ≡ d
repack-packet g d l s2 c a ci p ck st room form size h fits ok =
    let r = received g l s2 c a ci p ck st in
    let step : parse g d ≡ verified r =
      ap (parse g) form ∙ parse-packet g l s2 c a ci p ck st size in
    let (checked, kept) = verified-done r (ap (λ t. t.0) (sym step) ∙ ok) in
    ap (λ t. (frame_pack t.1 room).2) (step ∙ kept)
    ∙ repack-received g l s2 c a ci p ck st room size h fits checked
    ∙ sym form

repack-long :
    (g : Frame) (d : List ℕ) (room : ℕ)
    → byte_at d 0 ≡ long_start
    → length g.content ≡ frame_data_length
    → length d ≤ room
    → parse g d ≡ parse_long g d
    → (parse g d).0 ≡ pos 0
    → (frame_pack (parse g d).1 room).2 ≡ d
repack-long g d room start h fits e ok = go (is_packet d (byte_at d 1 - 3) (omega (arith, done)))
  where
    done :
        (3 ≤ byte_at d 1)
        × (byte_at d 1 ≡ byte_at d 2)
        × (length d ≡ 6 + byte_at d 1)
        × ((verified (store_long (store_lengths g d) d)).0 ≡ pos 0)
    done = parse_long-done g d (ap (λ t. t.0) (sym e) ∙ ok)

    go : IsPacket d (byte_at d 1 - 3) → (frame_pack (parse g d).1 room).2 ≡ d
    go k =
        let first : k.l1 ≡ byte_at d 1 = ap (λ t. byte_at t 1) (sym k.shape) in
        repack-packet g d k.l1 k.s2 k.c k.a k.ci k.p k.ck k.st room
          (IsPacket-form d (byte_at d 1 - 3) k start done.1) (omega (arith, done, k.size)) h
          (omega (arith, done, k.size)) ok

short-fields :
    (g : Frame) (c a ck st : ℕ) (room : ℕ)
    → 5 ≤ room
    → let d = short_start ∷ c ∷ a ∷ ck ∷ st ∷ [] in
      (parse g d).0 ≡ pos 0 → (frame_pack (parse g d).1 room).2 ≡ d
unfolding store_short
short-fields g c a ck st room fits ok =
    let d : List ℕ = short_start ∷ c ∷ a ∷ ck ∷ st ∷ [] in
    let r = store_short g d in
    let step : parse g d ≡ verified r = parse-short_packet g c a ck st in
    let (checked, kept) = verified-done r (ap (λ t. t.0) (sym step) ∙ ok) in
    let (_, _, _, sum) = (frame_verify-by short r refl).0 checked in
    ap (λ t. (frame_pack t.1 room).2) (step ∙ kept)
    ∙ rw (frame_pack-by short r room refl (λ t. short-ne-any t) fits)
        (rw (calc_checksum-by short r refl, ← sum) refl)

repack-short :
    (g : Frame) (d : List ℕ) (room : ℕ)
    → byte_at d 0 ≡ short_start
    → length d ≡ 5
    → length d ≤ room
    → (parse g d).0 ≡ pos 0
    → (frame_pack (parse g d).1 room).2 ≡ d
repack-short g (b ∷ c ∷ a ∷ ck ∷ st ∷ []) room start n fits ok =
    subst
      (λ (s : ℕ).
        (parse g (s ∷ c ∷ a ∷ ck ∷ st ∷ [])).0 ≡ pos 0
        → (frame_pack (parse g (s ∷ c ∷ a ∷ ck ∷ st ∷ [])).1 room).2 ≡ s ∷ c ∷ a ∷ ck ∷ st ∷ [])
      (sym start) (short-fields g c a ck st room fits) ok
repack-short g _ room start n fits ok = absurd (omega arith)

ack-ne-any : ack ≢ any
ack-ne-any e = cc

repack-ack :
    (g : Frame) (room : ℕ) (d : List ℕ)
    → byte_at d 0 ≡ ack_start
    → length d ≡ 1
    → 1 ≤ room
    → (frame_pack (parse g d).1 room).2 ≡ d
repack-ack g room (b ∷ []) start n fits =
    subst (λ (s : ℕ). (frame_pack (parse g (s ∷ [])).1 room).2 ≡ s ∷ []) (sym start)
      (rw (parse-ack g []) (
        rw
          (frame_pack-by ack (record g { start1 = ack_start; type = ack }) room refl
            (λ t. ack-ne-any t) fits)
          refl))
repack-ack g room _ start n fits = absurd (omega arith)

parse-nil : (g : Frame) → (parse g []).0 ≢ pos 0
unfolding parse
parse-nil g e = cc

-- Packing a frame that `parse` accepted gives back the bytes that it was parsed from, if there is
-- room for them, the frame's array has its size and an acknowledgement came alone.
pub frame_pack-parse :
    (g : Frame) (d : List ℕ) (room : ℕ)
    → length g.content ≡ frame_data_length
    → length d ≤ room
    → (byte_at d 0 ≡ ack_start → length d ≡ 1)
    → (parse g d).0 ≡ pos 0
    → (frame_pack (parse g d).1 room).2 ≡ d
frame_pack-parse g [] room h fits alone ok = absurd (parse-nil g ok)
frame_pack-parse g (b ∷ rest) room h fits alone ok = elim (parse-start g b rest ok) [
  | inl a ↦ repack-ack g room (b ∷ rest) a (alone a) (omega arith)
  | inr (inl s) ↦
      repack-short g (b ∷ rest) room s
        (parse_short-done g (b ∷ rest) (ap (λ t. t.0) (sym (parse-short_start g b rest s)) ∙ ok))
        fits ok
  | inr (inr l) ↦ repack-long g (b ∷ rest) room l h fits (parse-long_start g b rest l) ok
]

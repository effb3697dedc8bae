-- ===== src/Frame/Room.antt =====
-- `parse` writes into the frame's array and leaves its size.
use libmbus.Base.{
  ℕ, ◌-◌, ◌≡◌, refl, List, [], ◌∷◌, arith, length, length-overlay, take, drop, byte_at,
}
use libmbus.Frame.{Frame}
use libmbus.Frame.Parse.{
  parse, parse_short, parse_long, verified, store_short, store_long, store_lengths,
}

verified-frame : (f : Frame) → (verified f).1 ≡ f
unfolding verified
verified-frame f = ground arith

content-store_long : (f : Frame) (d : List ℕ) → length (store_long f d).content ≡ length f.content
unfolding store_long
content-store_long f d = length-overlay (take (byte_at d 1 - 3) (drop 7 d)) f.content

content-parse_long : (f : Frame) (d : List ℕ) → length (parse_long f d).1.content ≡ length f.content
unfolding parse_long
content-parse_long f d = ground (
  arith,
  verified-frame (store_long (store_lengths f d) d),
  content-store_long (store_lengths f d) d,
)

content-parse_short :
    (f : Frame) (d : List ℕ) → length (parse_short f d).1.content ≡ length f.content
unfolding parse_short store_short
content-parse_short f d = ground (arith, verified-frame (store_short f d))

pub content-parse : (f : Frame) (d : List ℕ) → length (parse f d).1.content ≡ length f.content
unfolding parse
content-parse f [] = refl
content-parse f (b ∷ rest) =
    ground (arith, content-parse_long f (b ∷ rest), content-parse_short f (b ∷ rest))

-- ===== src/Frame/Prefix.antt =====
-- `parse` on a part of a packet: the receive loops read just as many bytes as it asks for.
use libmbus.Base.{
  ℕ, suc, ◌+◌, ◌-◌, ◌≤◌, ◌<◌, ◌≡◌, ◌≢◌, ◌⊎◌, sym, ap, ◌∙◌, List, ◌∷◌, ◌++◌, pos, arith, length,
  length-append, byte_at, get_or-append_left, ltb, Bool-cases, inl, inr, ltb→lt,
}
use libmbus.Frame.{Frame, ack_start, short_start, long_start}
use libmbus.Frame.Parse.{parse, parse_short, parse_long, verified, store_long, store_lengths}

-- What `parse_long` has checked when it returns 0.
pub parse_long-done :
    (g : Frame) (d : List ℕ)
    → (parse_long g d).0 ≡ pos 0
    → (3 ≤ byte_at d 1)
      × (byte_at d 1 ≡ byte_at d 2)
      × (length d ≡ 6 + byte_at d 1)
      × ((verified (store_long (store_lengths g d) d)).0 ≡ pos 0)
unfolding parse_long
parse_long-done g d h = ground arith

pub parse_short-done : (g : Frame) (d : List ℕ) → (parse_short g d).0 ≡ pos 0 → length d ≡ 5
unfolding parse_short
parse_short-done g d h = ground arith

-- The number of bytes that a part of a packet asks for.
parse_short-part :
    (g : Frame) (d : List ℕ) → length d < 5 → parse_short g d ≡ (pos (5 - length d), g)
unfolding parse_short
parse_short-part g d h = ground arith

parse_long-part_short :
    (g : Frame) (d : List ℕ) → length d < 3 → parse_long g d ≡ (pos (3 - length d), g)
unfolding parse_long
parse_long-part_short g d h = ground arith

parse_long-part :
    (g : Frame) (d : List ℕ)
    → 3 ≤ length d
    → 3 ≤ byte_at d 1
    → byte_at d 1 ≡ byte_at d 2
    → length d < 6 + byte_at d 1
    → (parse_long g d).0 ≡ pos (6 + byte_at d 1 - length d)
unfolding parse_long
parse_long-part g d a b c e = ground arith

-- `d` asks for at least one byte more, and at most for `most` bytes.
abbrev pub Wants : ℕ → Frame → List ℕ → Type 0
Wants most g d = (n : ℕ) × ((parse g d).0 ≡ pos (suc n)) × (suc n ≤ most)

Wants-long :
    (g h : Frame) (b : ℕ) (rest q : List ℕ)
    → 0 < length q
    → (parse_long h ((b ∷ rest) ++ q)).0 ≡ pos 0
    → (n : ℕ) × ((parse_long g (b ∷ rest)).0 ≡ pos (suc n)) × (suc n ≤ length q)
Wants-long g h b rest q some_left e =
    let p : List ℕ = b ∷ rest in
    let (least, same, whole, _) = parse_long-done h (p ++ q) e in
    let total = length-append rest q in
    elim (Bool-cases (ltb (length p) 3)) [
      | inl below ↦ (
        1 - length rest,
        rw (parse_long-part_short g p (ltb→lt _ _ below)) (ap pos (omega (arith, ltb→lt))),
        omega (arith, ltb→lt),
      )
      | inr above ↦
          let three : 3 ≤ length p = ground arith in
          let one : byte_at (p ++ q) 1 ≡ byte_at p 1 = get_or-append_left p q 1 0 (omega arith) in
          let two : byte_at (p ++ q) 2 ≡ byte_at p 2 = get_or-append_left p q 2 0 (omega arith) in
          (
            5 + byte_at p 1 - length p,
            parse_long-part g p three (omega arith) (sym one ∙ same ∙ two) (omega arith)
                ∙ ap pos (omega arith),
            omega arith,
          )
    ]

Wants-short :
    (g h : Frame) (b : ℕ) (rest q : List ℕ)
    → 0 < length q
    → (parse_short h ((b ∷ rest) ++ q)).0 ≡ pos 0
    → (n : ℕ) × ((parse_short g (b ∷ rest)).0 ≡ pos (suc n)) × (suc n ≤ length q)
Wants-short g h b rest q some_left e =
    let whole : length ((b ∷ rest) ++ q) ≡ 5 = parse_short-done h _ e in
    let total = length-append rest q in
    (
      3 - length rest,
      rw (parse_short-part g (b ∷ rest) (omega arith)) (ap pos (omega arith)),
      omega arith,
    )

pub parse-long_start :
    (g : Frame) (b : ℕ) (rest : List ℕ)
    → b ≡ long_start
    → parse g (b ∷ rest) ≡ parse_long g (b ∷ rest)
unfolding parse
parse-long_start g b rest e = ground arith

pub parse-short_start :
    (g : Frame) (b : ℕ) (rest : List ℕ)
    → b ≡ short_start
    → parse g (b ∷ rest) ≡ parse_short g (b ∷ rest)
unfolding parse
parse-short_start g b rest e = ground arith

-- A result of 0 comes from one of the three start bytes.
pub parse-start :
    (g : Frame) (b : ℕ) (rest : List ℕ)
    → (parse g (b ∷ rest)).0 ≡ pos 0
    → (b ≡ ack_start) ⊎ (b ≡ short_start) ⊎ (b ≡ long_start)
unfolding parse
parse-start g b rest e = ground arith

-- Every part of a complete packet, of one byte at least and not all of it, makes `parse` ask for
-- more bytes, one at least and no more than the packet still has; this holds whatever frames the
-- part and the packet are stored in, and for every packet but an acknowledgement.
pub parse-part :
    (g h : Frame) (b : ℕ) (rest q : List ℕ)
    → 0 < length q
    → b ≢ ack_start
    → (parse h ((b ∷ rest) ++ q)).0 ≡ pos 0
    → Wants (length q) g (b ∷ rest)
parse-part g h b rest q some_left n e = elim (parse-start h b (rest ++ q) e) [
  | inl a ↦ absurd (n a)
  | inr (inl s) ↦
      rw (parse-short_start g b rest s)
        (Wants-short g h b rest q some_left (rw (parse-short_start h b (rest ++ q) s) at e))
  | inr (inr l) ↦
      rw (parse-long_start g b rest l)
        (Wants-long g h b rest q some_left (rw (parse-long_start h b (rest ++ q) l) at e))
]

-- ===== src/Data/Bounds.antt =====
-- The bounds of what `mbus_data_variable_parse` reads and writes, and that its loops end.
use libmbus.Base.{
  ℕ, zero, suc, ◌+◌, ◌-◌, ◌≤◌, ◌<◌, ◌==◌, ◌≡◌, ◌≢◌, refl, ◌⊎◌, inl, inr, true, bit_and, lt→ltb,
  List, [], byte_at, ◌∷◌, length, All, arith, get_elem?, some, ltb, leb, leb→le, le→leb,
  Option-cases, ltb→lt,
}
use libmbus.Frame.{Frame, frame_data_length}
use libmbus.Data.Outcome.{
  done, refused, exhausted, read, read_all, Meets, Meets-bind, check-Meets, in_bounds-Meets,
  Meets-if, Meets-done, Meets-refused, not_exhausted, settled,
}
use libmbus.Data.Record.{
  has_extension, extensions, parse_dife, parse_custom_vif, parse_vife, variable_length,
  parse_data_len, parse_plain, parse_special, is_special, parse_record, custom_vif_size,
  record_data_size, dife_size, dif_datalength_lookup,
}
use libmbus.Data.Variable.{DataVariable, records_loop, data_variable_parse, header_length}

All-get_elem? {ℓ} :
    {A : Type ℓ} (P : A → Type 0) (xs : List A) (i : ℕ)
    → All P xs
    → i < length xs
    → (x : A) × (get_elem? xs i ≡ some x) × P x
All-get_elem? P [] i h k = absurd (omega arith)
All-get_elem? P (x ∷ xs) zero h k = (x, refl, h.0)
All-get_elem? P (x ∷ xs) (suc i) h k = All-get_elem? P xs i h.1 (omega arith)

-- A payload for which the parser stays inside the arrays: it is short enough for the data of a
-- record, and no byte can be a length of 128, for which `custom_vif` has no room.
pub record HasRoom (d : List ℕ) (size : ℕ) : Type 0 where
  pub size_fits : size ≤ 247
  pub whole : length d ≡ frame_data_length
  pub no_128 : All (λ b. b ≢ 128) d

All-byte_at : (k : ℕ) (xs : List ℕ) (i : ℕ) → All (λ x. x ≤ k) xs → byte_at xs i ≤ k
All-byte_at k [] i h = omega arith
All-byte_at k (x ∷ xs) zero h = h.0
All-byte_at k (x ∷ xs) (suc i) h = All-byte_at k xs i h.1

pub dif_datalength_lookup-le : (dif : ℕ) → dif_datalength_lookup dif ≤ 8
unfolding dif_datalength_lookup
dif_datalength_lookup-le dif =
    All-byte_at 8 (0 ∷ 1 ∷ 2 ∷ 3 ∷ 4 ∷ 4 ∷ 6 ∷ 8 ∷ 0 ∷ 1 ∷ 2 ∷ 3 ∷ 4 ∷ 0 ∷ 6 ∷ 8 ∷ [])
      (bit_and dif 0x0F) (ground arith)

variable_length-le : (lvar n : ℕ) → variable_length lvar ≡ some n → n ≤ 0xBF
unfolding variable_length
variable_length-le lvar n h = ground arith

module _ (F : Type 0) (d : List ℕ) (size : ℕ) (room : F ⊎ HasRoom d size) where
  read-Meets : (i : ℕ) → i ≤ size + 2 → Meets F (λ b. F ⊎ (b ≢ 128)) (read d i)
  unfolding read
  read-Meets i h = elim room [
    | inl f ↦ elim (Option-cases (get_elem? d i)) [
      | inr (b, e) ↦ rw (e, read) (Meets-done (inl f))
      | inl e ↦ rw (e, read) (record { ends = f })
    ]
    | inr r ↦
        let (b, found, ne) =
          All-get_elem? (λ b. b ≢ 128) d i r.no_128 (omega (arith, r.size_fits, r.whole)) in
        rw (found, read) (Meets-done (inr ne))
  ]

  read_all-Meets : (n i : ℕ) → i + n ≤ size → Meets F (λ bs. Unit {0}) (read_all d i n)
  unfolding read_all
  read_all-Meets zero i h = Meets-done tt
  read_all-Meets (suc n) i h =
      Meets-bind (read-Meets i (omega arith))
        (λ b _. Meets-bind (read_all-Meets n (i + 1) (omega arith)) (λ bs _. Meets-done tt))

  extensions-Meets : (left i : ℕ) → i ≤ size + 1 → Meets F (λ r. i ≤ r.0) (extensions d size left i)
  unfolding extensions
  extensions-Meets zero i h =
      Meets-if (ltb i size)
        (λ lt.
          Meets-bind (read-Meets i (omega arith)) (λ b _.
            Meets-if (has_extension b) (λ _. Meets-refused) (λ _. Meets-done (omega arith))))
        (λ _. Meets-done (omega arith))
  extensions-Meets (suc left) i h =
      Meets-if (ltb i size)
        (λ lt. Meets-bind (read-Meets i (omega arith)) (λ b _.
          Meets-if (has_extension b)
            (λ _. Meets-bind (read-Meets (i + 1) (omega arith)) (λ e _.
              Meets-bind (extensions-Meets left (i + 1) (omega (arith, ltb→lt i size lt)))
                (λ r k. Meets-done (omega arith))))
            (λ _. Meets-done (omega arith))))
        (λ _. Meets-done (omega arith))

  parse_dife-Meets :
      (i : ℕ) → i < size → Meets F (λ r. (i < r.0) × (r.0 ≤ size)) (parse_dife d size i)
  unfolding parse_dife
  parse_dife-Meets i h = Meets-bind (extensions-Meets dife_size i (omega arith)) (λ r k.
      Meets-bind (check-Meets (leb (r.0 + 1) size))
        (λ _ le. Meets-done (omega arith, leb→le _ _ le)))

  has_place :
      (len : ℕ)
      → leb len custom_vif_size ≡ true
      → F ⊎ (len ≢ 128)
      → F ⊎ (ltb len custom_vif_size ≡ true)
  has_place len fits (inl f) = inl f
  has_place len fits (inr ne) = inr (lt→ltb _ _ (omega (arith, leb→le _ _ fits)))

  parse_custom_vif-Meets :
      (vif i : ℕ)
      → i ≤ size + 1
      → Meets F (λ r. (i ≤ r.0) × (r.0 ≤ size + 1)) (parse_custom_vif d size vif i)
  unfolding parse_custom_vif
  parse_custom_vif-Meets vif i h =
      Meets-if (bit_and vif 0x7F == 0x7C)
        (λ _. Meets-bind (read-Meets i (omega arith)) (λ len ne.
          Meets-bind (check-Meets (leb len custom_vif_size)) (λ _ fits.
            Meets-bind (check-Meets (leb (i + 1 + len) size)) (λ _ le.
              Meets-bind (in_bounds-Meets (ltb len custom_vif_size) (has_place len fits ne)) (λ _ _.
                Meets-bind (read_all-Meets len (i + 1) (leb→le _ _ le))
                  (λ src _. Meets-done (omega arith, omega (arith, leb→le _ _ le))))))))
        (λ _. Meets-done (omega arith, omega arith))

  parse_vife-Meets : (vif i : ℕ) → i ≤ size + 1 → Meets F (λ r. i ≤ r.0) (parse_vife d size vif i)
  unfolding parse_vife
  parse_vife-Meets vif i h =
      Meets-if (has_extension vif)
        (λ _. Meets-bind (read-Meets i (omega arith)) (λ e _.
          Meets-bind (extensions-Meets (dife_size - 1) i h) (λ r k. Meets-done (omega arith))))
        (λ _. Meets-done (omega arith))

  parse_data_len-Meets :
      (dif i : ℕ)
      → i ≤ size
      → Meets F (λ r. (i ≤ r.0) × (r.1 ≤ record_data_size)) (parse_data_len d dif i)
  unfolding parse_data_len
  parse_data_len-Meets dif i h =
      Meets-if (bit_and dif 0x0F == 0x0D)
        (λ _. Meets-bind (read-Meets i (omega arith)) (λ lvar _.
          elim (Option-cases (variable_length lvar)) [
            | inl e ↦ rw e (Meets-done (omega arith, omega (arith, dif_datalength_lookup-le dif)))
            | inr (n, e) ↦
                rw e (Meets-done (omega arith, omega (arith, variable_length-le lvar n e)))
          ]))
        (λ _. Meets-done (omega arith, omega (arith, dif_datalength_lookup-le dif)))

  parse_plain-Meets :
      (dif i : ℕ) → i < size → Meets F (λ r. (i < r.0) × (r.0 ≤ size)) (parse_plain d size dif i)
  unfolding parse_plain
  parse_plain-Meets dif i h = Meets-bind (parse_dife-Meets i h) (λ r1 k1.
      Meets-bind (read-Meets r1.0 (omega (arith, k1))) (λ vif _.
        Meets-bind (parse_custom_vif-Meets vif (r1.0 + 1) (omega (arith, k1))) (λ r2 k2.
          Meets-bind (parse_vife-Meets vif r2.0 k2.1) (λ r3 k3.
            Meets-bind (check-Meets (leb r3.0 size)) (λ _ le3.
              Meets-bind (parse_data_len-Meets dif r3.0 (leb→le _ _ le3)) (λ r4 k4.
                Meets-bind (check-Meets (leb (r4.0 + r4.1) size)) (λ _ le4.
                  Meets-bind (in_bounds-Meets (leb r4.1 record_data_size) (inr (le→leb _ _ k4.1)))
                    (λ _ _. Meets-bind (read_all-Meets r4.1 r4.0 (leb→le _ _ le4)) (λ bytes _.
                      Meets-done (omega (arith, k1, k2, k3, k4), leb→le _ _ le4))))))))))

  rest_fits : (i : ℕ) → header_length ≤ i → F ⊎ (leb (size - (i + 1)) record_data_size ≡ true)
  rest_fits i hi = elim room [
    | inl f ↦ inl f
    | inr r ↦ inr (le→leb _ _ (omega (arith, r.size_fits)))
  ]

  parse_special-Meets :
      (dif i : ℕ)
      → header_length ≤ i
      → i < size
      → Meets F (λ r. (i < r.0) × (r.0 ≤ size)) (parse_special d size dif i)
  unfolding parse_special
  parse_special-Meets dif i hi h =
      Meets-bind (in_bounds-Meets (leb (size - (i + 1)) record_data_size) (rest_fits i hi)) (λ _ _.
        Meets-bind (read_all-Meets (size - (i + 1)) (i + 1) (omega arith))
          (λ bytes _. Meets-done (omega arith, omega arith)))

  parse_record-Meets :
      (dif i : ℕ)
      → header_length ≤ i
      → i < size
      → Meets F (λ r. (i < r.0) × (r.0 ≤ size)) (parse_record d size dif i)
  unfolding parse_record
  parse_record-Meets dif i hi h =
      Meets-if (is_special dif) (λ _. parse_special-Meets dif i hi h)
        (λ _. parse_plain-Meets dif i h)

  records_loop-Meets :
      (fuel i : ℕ) (v : DataVariable)
      → header_length ≤ i
      → i ≤ size
      → size < fuel + i
      → Meets F (λ _. Unit {0}) (records_loop fuel d size i v)
  unfolding records_loop
  records_loop-Meets zero i v hi h enough = absurd (omega arith)
  records_loop-Meets (suc fuel) i v hi h enough =
      Meets-if (ltb i size)
        (λ lt. Meets-bind (read-Meets i (omega arith)) (λ dif _.
          Meets-if (dif == 0x2F)
            (λ _.
              records_loop-Meets fuel (i + 1) v (omega arith) (omega (arith, ltb→lt _ _ lt))
                (omega arith))
            (λ _.
              Meets-bind (parse_record-Meets dif i hi (ltb→lt _ _ lt))
                (λ r k. records_loop-Meets fuel r.0 _ (omega (arith, k)) k.1 (omega (arith, k))))))
        (λ _. Meets-done tt)

data_variable_parse-Meets :
    (F : Type 0) (f : Frame)
    → F ⊎ HasRoom f.content f.data_size
    → Meets F (λ _. Unit {0}) (data_variable_parse f)
unfolding data_variable_parse
data_variable_parse-Meets F f room =
    Meets-bind (check-Meets (leb header_length f.data_size)) (λ _ le.
      records_loop-Meets F f.content f.data_size room _ header_length _ (omega arith)
        (leb→le _ _ le) (omega arith))

-- `mbus_data_variable_parse` ends for every frame, whatever its bytes are: each turn of its loop
-- moves on, so that one turn a byte of the payload is enough.
pub data_variable_parse-total : (f : Frame) → data_variable_parse f ≢ exhausted
data_variable_parse-total f = not_exhausted (data_variable_parse-Meets (Unit {0}) f (inl tt))

-- With a payload of at most 247 bytes, in an array without a byte 128, `mbus_data_variable_parse`
-- neither reads nor writes outside an array, and its loop ends: it succeeds or it returns -1.
pub data_variable_parse-HasRoom :
    (f : Frame)
    → HasRoom f.content f.data_size
    → ((v : DataVariable) × (data_variable_parse f ≡ done v)) ⊎ (data_variable_parse f ≡ refused)
data_variable_parse-HasRoom f room = settled (data_variable_parse-Meets ⊥ f (inr room))

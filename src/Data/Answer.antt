-- ===== src/Data/Answer.antt =====
-- Answers packed by `mbus_frame_internal_pack` and parsed by `mbus_frame_data_parse`: whole ones.
use libmbus.Base.{
  ℕ, ◌≤◌, ◌<◌, ◌≡◌, refl, sym, ap, ap₂, subst, ◌∙◌, false, List, [], ◌∷◌, ◌++◌, length, drop, All,
  arith, overlay, take-overlay, take-append-drop, le→leb, lt→ltb, bit_and, append_assoc,
  length-append, byte_at, u8,
}
use libmbus.Frame.{Frame, payload}
use libmbus.Frame.Control
use libmbus.Data.Outcome.{done, check}
use libmbus.Data.Variable.{
  VariableHeader, DataVariable, data_variable_parse, parse_header, enough_fuel,
}
use libmbus.Data.Fixed.{
  DataFixed, FrameData, error, fixed, variable, data_fixed_parse, frame_data_parse, error_general,
  resp_fixed, resp_variable, fixed_bytes, header_bytes, records_bytes, data_bytes,
}
use libmbus.Data.RoundTrip.{IsPlain, records_loop-records}

-- The arrays of the structs have their lengths.
pub record IsHeader (h : VariableHeader) : Type 0 where
  pub id_length : length h.id_bcd ≡ 4
  pub manufacturer_length : length h.manufacturer ≡ 2
  pub signature_length : length h.signature ≡ 2

pub record IsFixed (d : DataFixed) : Type 0 where
  pub id_length : length d.id_bcd ≡ 4
  pub cnt1_length : length d.cnt1_val ≡ 4
  pub cnt2_length : length d.cnt2_val ≡ 4

-- The control information that goes with the kind of answer, and what the packer can write.
abbrev pub IsAnswer : Frame → FrameData → Type 0
IsAnswer f (error e) = (f.control_information ≡ error_general) × (e < 256)
IsAnswer f (fixed d) = (f.control_information ≡ resp_fixed) × IsFixed d
IsAnswer f (variable v) =
    (f.control_information ≡ resp_variable)
    × IsHeader v.header
    × All IsPlain v.records
    × (v.more_records_follow ≡ false)

header_fields :
    (id man sig : List ℕ) (version medium access_no status : ℕ) (t : List ℕ)
    → length id ≡ 4
    → length man ≡ 2
    → length sig ≡ 2
    → (h : VariableHeader) × (h ≡ record {
      id_bcd = id;
      manufacturer = man;
      version = version;
      medium = medium;
      access_no = access_no;
      status = status;
      signature = sig;
    })
      × (parse_header (header_bytes h ++ t) ≡ h)
      × (drop 12 (header_bytes h ++ t) ≡ t)
      × (length (header_bytes h) ≡ 12)
unfolding parse_header header_bytes
header_fields (a ∷ b ∷ c ∷ e ∷ []) (m ∷ n ∷ []) (p ∷ q ∷ []) version medium access_no status t h k
      l =
    (_, refl, refl, refl, refl)
header_fields _ _ _ version medium access_no status t h k l = absurd (omega arith)

header_bytes-IsHeader :
    (h : VariableHeader) (t : List ℕ)
    → IsHeader h
    → (parse_header (header_bytes h ++ t) ≡ h)
      × (drop 12 (header_bytes h ++ t) ≡ t)
      × (length (header_bytes h) ≡ 12)
header_bytes-IsHeader h t header =
    let (h', same, p, q, r) =
      header_fields h.id_bcd h.manufacturer h.signature h.version h.medium h.access_no h.status t
        header.id_length header.manufacturer_length header.signature_length in
    subst
      (λ x.
        (parse_header (header_bytes x ++ t) ≡ x)
        × (drop 12 (header_bytes x ++ t) ≡ t)
        × (length (header_bytes x) ≡ 12))
      same (p, q, r)

fixed_fields :
    (id one two : List ℕ) (tx status type1 type2 : ℕ) (f : Frame) (t : List ℕ)
    → length id ≡ 4
    → length one ≡ 4
    → length two ≡ 4
    → (d : DataFixed) × (d ≡ record {
      id_bcd = id;
      tx_cnt = tx;
      status = status;
      cnt1_type = type1;
      cnt2_type = type2;
      cnt1_val = one;
      cnt2_val = two;
    })
      × (data_fixed_parse (record f { content = fixed_bytes d ++ t; data_size = 16 }) ≡ done d)
      × (length (fixed_bytes d) ≡ 16)
unfolding data_fixed_parse fixed_bytes check
fixed_fields (a ∷ b ∷ c ∷ e ∷ []) (i ∷ j ∷ k ∷ l ∷ []) (p ∷ q ∷ r ∷ s ∷ []) tx status type1 type2 f
      t _ _ _ =
    (_, refl, refl, refl)
fixed_fields _ _ _ tx status type1 type2 f t h k l = absurd (omega arith)

overlay-append :
    (xs ys : List ℕ)
    → length xs ≤ length ys
    → overlay xs ys ≡ xs ++ drop (length xs) (overlay xs ys)
overlay-append xs ys h =
    sym (take-append-drop (length xs) (overlay xs ys))
    ∙ ap (λ t. t ++ drop (length xs) (overlay xs ys)) (take-overlay xs ys (length xs) refl h)

fixed_bytes-IsFixed :
    (f : Frame) (d : DataFixed) (t : List ℕ)
    → IsFixed d
    → (data_fixed_parse (record f { content = fixed_bytes d ++ t; data_size = 16 }) ≡ done d)
      × (length (fixed_bytes d) ≡ 16)
fixed_bytes-IsFixed f d t k =
    let (d', same, p, q) =
      fixed_fields d.id_bcd d.cnt1_val d.cnt2_val d.tx_cnt d.status d.cnt1_type d.cnt2_type f t
        k.id_length k.cnt1_length k.cnt2_length in
    subst
      (λ x.
        (data_fixed_parse (record f { content = fixed_bytes x ++ t; data_size = 16 }) ≡ done x)
        × (length (fixed_bytes x) ≡ 16))
      same (p, q)

data_variable_parse-bytes :
    (f : Frame) (v : DataVariable)
    → IsHeader v.header
    → All IsPlain v.records
    → v.more_records_follow ≡ false
    → f.data_size ≡ length (header_bytes v.header ++ records_bytes v.records)
    → f.content ≡ (header_bytes v.header ++ records_bytes v.records) ++ drop f.data_size f.content
    → data_variable_parse f ≡ done v
unfolding data_variable_parse check
data_variable_parse-bytes f v header plain more size at =
    let h = v.header in
    let rest = records_bytes v.records ++ drop f.data_size f.content in
    let cut : f.content ≡ header_bytes h ++ rest =
      at ∙ append_assoc (header_bytes h) (records_bytes v.records) _ in
    let (parsed, dropped, count) = header_bytes-IsHeader h rest header in
    let total = length-append (header_bytes h) (records_bytes v.records) in
    let here : parse_header f.content ≡ h = ap parse_header cut ∙ parsed in
    let start : drop 12 f.content ≡ rest = ap (λ t. drop 12 t) cut ∙ dropped in
    let loop =
      records_loop-records f.content f.data_size v.records (enough_fuel f.data_size) 12
        record { header = parse_header f.content; records = []; more_records_follow = false } plain
        start (omega (arith, total, count, size)) (omega arith) in
    rw (le→leb 12 f.data_size (omega (arith, total, count, size)))
      (loop ∙ ap₂ (λ x y. done (record v { header = x; more_records_follow = y })) here (sym more))

data_parse-error :
    (g : Frame) (e : ℕ)
    → bit_and g.control Control.dir ≡ 0
    → g.control_information ≡ error_general
    → 0 < g.data_size
    → byte_at g.content 0 ≡ e
    → frame_data_parse g ≡ done (error e)
unfolding frame_data_parse
data_parse-error g e dir ci some byte = simp (dir, ci, lt→ltb 0 g.data_size some, byte) refl

data_parse-fixed :
    (g : Frame) (d : DataFixed)
    → bit_and g.control Control.dir ≡ 0
    → g.control_information ≡ resp_fixed
    → 0 < g.data_size
    → data_fixed_parse g ≡ done d
    → frame_data_parse g ≡ done (fixed d)
unfolding frame_data_parse check
data_parse-fixed g d dir ci some parsed = simp (dir, ci, lt→ltb 0 g.data_size some, parsed) refl

data_parse-variable :
    (g : Frame) (v : DataVariable)
    → bit_and g.control Control.dir ≡ 0
    → g.control_information ≡ resp_variable
    → 0 < g.data_size
    → data_variable_parse g ≡ done v
    → frame_data_parse g ≡ done (variable v)
unfolding frame_data_parse check
data_parse-variable g v dir ci some parsed = simp (dir, ci, lt→ltb 0 g.data_size some, parsed) refl

-- The bytes that count decide what the parser reads, whatever stands behind them in the array.
pub frame_data_parse-payload :
    (g : Frame) (d : FrameData)
    → bit_and g.control Control.dir ≡ 0
    → IsAnswer g d
    → g.data_size ≡ length (data_bytes d)
    → payload g ≡ data_bytes d
    → frame_data_parse g ≡ done d
unfolding data_bytes
frame_data_parse-payload g (error e) dir answer size pay =
    let at : g.content ≡ (u8 e ∷ []) ++ drop g.data_size g.content =
      sym (take-append-drop g.data_size g.content)
      ∙ ap (λ t. t ++ drop g.data_size g.content) pay in
    let byte : byte_at g.content 0 ≡ u8 e = ap (λ t. byte_at t 0) at in
    data_parse-error g e dir answer.0 (omega (arith, size)) (omega (arith, byte, answer.1))
frame_data_parse-payload g (fixed d) dir answer size pay =
    let rest = drop g.data_size g.content in
    let at : g.content ≡ fixed_bytes d ++ rest =
      sym (take-append-drop g.data_size g.content) ∙ ap (λ t. t ++ rest) pay in
    let (parsed, count) = fixed_bytes-IsFixed g d rest answer.1 in
    data_parse-fixed g d dir answer.0 (omega (arith, size, count)) (
      ap₂ (λ c n. data_fixed_parse (record g { content = c; data_size = n })) at (size ∙ count)
      ∙ parsed)
frame_data_parse-payload g (variable v) dir answer size pay =
    let at : g.content
        ≡ (header_bytes v.header ++ records_bytes v.records) ++ drop g.data_size g.content =
      sym (take-append-drop g.data_size g.content)
      ∙ ap (λ t. t ++ drop g.data_size g.content) pay in
    let count = (header_bytes-IsHeader v.header [] answer.1).2 in
    data_parse-variable g v dir answer.0
      (omega (arith, size, count, length-append (header_bytes v.header) (records_bytes v.records)))
      (data_variable_parse-bytes g v answer.1 answer.2 answer.3 size at)

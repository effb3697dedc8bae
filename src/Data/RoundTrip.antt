-- ===== src/Data/RoundTrip.antt =====
-- Answers packed by `mbus_frame_internal_pack` and parsed by `mbus_frame_data_parse`: the records.
use libmbus.Base.{
  ℕ, zero, suc, ◌+◌, ◌≤◌, ◌<◌, ◌==◌, ◌≡◌, refl, sym, ap, ◌∙◌, true, false, List, [], ◌∷◌, ◌++◌,
  length, drop, All, arith, le→leb, lt→ltb, ge→ltb, bit_and, append_assoc, append-nil,
  length-append,
}
use libmbus.Data.Outcome.{done, read, check, in_bounds, read_all}
use libmbus.Data.Bounds.{dif_datalength_lookup-le}
use libmbus.Data.Record.{
  DataRecord, has_extension, extensions, parse_dife, parse_custom_vif, parse_vife, parse_data_len,
  dif_datalength_lookup, parse_plain, is_special, parse_record, more_records_follow_dif,
  idle_filler, dife_size,
}
use libmbus.Data.Variable.{DataVariable, records_loop, data_record_append, note_more}
use libmbus.Data.Fixed.{record_bytes, records_bytes}

plus_zero : (i : ℕ) → i ≡ i + 0
plus_zero i = omega arith

plus_suc : (i n : ℕ) → i + 1 + n ≡ i + suc n
plus_suc i n = omega arith

read-drop : (d : List ℕ) (i x : ℕ) (r : List ℕ) → drop i d ≡ x ∷ r → read d i ≡ done x
unfolding read
read-drop [] zero x r e = ground arith
read-drop [] (suc i) x r e = ground arith
read-drop (y ∷ d) zero x r e = let h : y ≡ x = cc in ap done h
read-drop (y ∷ d) (suc i) x r e = read-drop d i x r e

drop-next : (d : List ℕ) (i x : ℕ) (r : List ℕ) → drop i d ≡ x ∷ r → drop (i + 1) d ≡ r
drop-next [] zero x r e = ground arith
drop-next [] (suc i) x r e = ground arith
drop-next (y ∷ d) zero x r e = cc
drop-next (y ∷ d) (suc i) x r e =
    let p : suc i + 1 ≡ suc (i + 1) = omega arith in
    ap (λ t. drop t (y ∷ d)) p ∙ drop-next d i x r e

drop-length : (d : List ℕ) (i : ℕ) (xs r : List ℕ) → drop i d ≡ xs ++ r → drop (i + length xs) d ≡ r
drop-length d i [] r e = let p : i + 0 ≡ i = omega arith in ap (λ t. drop t d) p ∙ e
drop-length d i (x ∷ xs) r e =
    let p : i + suc (length xs) ≡ i + 1 + length xs = omega arith in
    ap (λ t. drop t d) p ∙ drop-length d (i + 1) xs r (drop-next d i x (xs ++ r) e)

read_all-drop :
    (d : List ℕ) (i : ℕ) (xs r : List ℕ) → drop i d ≡ xs ++ r → read_all d i (length xs) ≡ done xs
unfolding read_all
read_all-drop d i [] r e = refl
read_all-drop d i (x ∷ xs) r e =
    rw (read-drop d i x (xs ++ r) e, read_all-drop d (i + 1) xs r (drop-next d i x (xs ++ r) e))
      refl

-- Each byte of an information block says whether another one follows.
abbrev pub Chain : ℕ → List ℕ → Type 0
Chain b [] = has_extension b ≡ false
Chain b (e ∷ es) = (has_extension b ≡ true) × Chain e es

extensions-Chain :
    (d : List ℕ) (size left i b : ℕ) (es r : List ℕ)
    → drop i d ≡ b ∷ (es ++ r)
    → Chain b es
    → length es ≤ left
    → i < size
    → i + length es < size
    → extensions d size left i ≡ done (i + length es, es)
unfolding extensions
extensions-Chain d size zero i b [] r at chain fits h k =
    rw (lt→ltb i size h, read-drop d i b r at, chain) (ap (λ t. done (t, [])) (plus_zero i))
extensions-Chain d size zero i b (e ∷ es) r at chain fits h k = absurd (omega arith)
extensions-Chain d size (suc left) i b [] r at chain fits h k =
    rw (lt→ltb i size h, read-drop d i b r at, chain) (ap (λ t. done (t, [])) (plus_zero i))
extensions-Chain d size (suc left) i b (e ∷ es) r at chain fits h k =
    let next = drop-next d i b (e ∷ (es ++ r)) at in
    rw
      (
        lt→ltb i size h,
        read-drop d i b (e ∷ (es ++ r)) at,
        chain.0,
        read-drop d (i + 1) e (es ++ r) next,
        extensions-Chain d size left (i + 1) e es r next chain.1 (omega arith) (omega arith)
            (omega arith),
      )
      (ap (λ t. done (t, e ∷ es)) (plus_suc i (length es)))

-- A record that `mbus_frame_internal_pack` writes whole, with the length of the data that its DIF
-- says: no record of the manufacturer, no data or VIF of variable length.
pub record IsPlain (r : DataRecord) : Type 0 where
  pub not_special : is_special r.dif ≡ false
  pub not_filler : (r.dif == idle_filler) ≡ false
  pub known_length : (bit_and r.dif 0x0F == 0x0D) ≡ false
  pub dife_chain : Chain r.dif r.dife
  pub dife_fits : length r.dife ≤ dife_size
  pub known_unit : (bit_and r.vif 0x7F == 0x7C) ≡ false
  pub vife_chain : Chain r.vif r.vife
  pub vife_fits : length r.vife ≤ dife_size
  pub no_text : r.custom_vif ≡ []
  pub content_length : length r.content ≡ dif_datalength_lookup r.dif

parse_dife-Chain :
    (d : List ℕ) (size i b : ℕ) (es r : List ℕ)
    → drop i d ≡ b ∷ (es ++ r)
    → Chain b es
    → length es ≤ dife_size
    → i + 1 + length es ≤ size
    → parse_dife d size i ≡ done (i + 1 + length es, es)
unfolding parse_dife check
parse_dife-Chain d size i b es r at chain fits k =
    rw
      (
        extensions-Chain d size dife_size i b es r at chain fits (omega arith) (omega arith),
        le→leb (i + length es + 1) size (omega arith),
      )
      (let p : i + length es + 1 ≡ i + 1 + length es = omega arith in ap (λ t. done (t, es)) p)

parse_vife-Chain :
    (d : List ℕ) (size i vif : ℕ) (es r : List ℕ)
    → drop i d ≡ es ++ r
    → Chain vif es
    → length es ≤ dife_size
    → i + length es ≤ size
    → parse_vife d size vif i ≡ done (i + length es, es)
unfolding parse_vife
parse_vife-Chain d size i vif [] r at chain fits k = rw chain (ap (λ t. done (t, [])) (plus_zero i))
parse_vife-Chain d size i vif (e ∷ es) r at chain fits k =
    rw
      (
        chain.0,
        read-drop d i e (es ++ r) at,
        extensions-Chain d size 9 i e es r at chain.1 (omega arith) (omega arith) (omega arith),
      )
      (let p : i + length es + 1 ≡ i + suc (length es) = omega arith in
        ap (λ t. done (t, e ∷ es)) p)

record_bytes-append :
    (x : DataRecord) (r : List ℕ)
    → record_bytes x ++ r ≡ x.dif ∷ (x.dife ++ (x.vif ∷ (x.vife ++ (x.content ++ r))))
unfolding record_bytes
record_bytes-append x r =
    ap (λ t. x.dif ∷ t)
      (append_assoc x.dife (x.vif ∷ (x.vife ++ x.content)) r
        ∙ ap (λ t. x.dife ++ (x.vif ∷ t)) (append_assoc x.vife x.content r))

length-record_bytes :
    (x : DataRecord)
    → length (record_bytes x) ≡ 2 + length x.dife + length x.vife + length x.content
unfolding record_bytes
length-record_bytes x =
    omega
      (arith, length-append x.dife (x.vif ∷ (x.vife ++ x.content)), length-append x.vife x.content)

parse_plain-IsPlain :
    (d : List ℕ) (size i i2 i3 : ℕ) (x : DataRecord) (r : List ℕ)
    → IsPlain x
    → drop i d ≡ x.dif ∷ (x.dife ++ (x.vif ∷ (x.vife ++ (x.content ++ r))))
    → i2 ≡ i + 1 + length x.dife
    → i3 ≡ i2 + 1 + length x.vife
    → i3 + length x.content ≤ size
    → parse_plain d size x.dif i ≡ done (i3 + length x.content, x)
unfolding parse_plain parse_custom_vif parse_data_len check in_bounds
parse_plain-IsPlain d size i i2 i3 x r plain at e2 e3 k =
    let at2 : drop i2 d ≡ x.vif ∷ (x.vife ++ (x.content ++ r)) =
      ap (λ t. drop t d) e2 ∙ drop-length d (i + 1) x.dife _ (drop-next d i x.dif _ at) in
    let at3 = drop-next d i2 x.vif (x.vife ++ (x.content ++ r)) at2 in
    let at4 : drop i3 d ≡ x.content ++ r =
      ap (λ t. drop t d) e3 ∙ drop-length d (i2 + 1) x.vife (x.content ++ r) at3 in
    let dib : parse_dife d size i ≡ done (i2, x.dife) =
      parse_dife-Chain d size i x.dif x.dife _ at plain.dife_chain plain.dife_fits (omega arith)
      ∙ ap (λ t. done (t, x.dife)) (sym e2) in
    let vib : parse_vife d size x.vif (i2 + 1) ≡ done (i3, x.vife) =
      parse_vife-Chain d size (i2 + 1) x.vif x.vife (x.content ++ r) at3 plain.vife_chain
        plain.vife_fits (omega arith)
      ∙ ap (λ t. done (t, x.vife)) (sym e3) in
    rw
      (
        dib,
        read-drop d i2 x.vif _ at2,
        plain.known_unit,
        vib,
        le→leb i3 size (omega arith),
        plain.known_length,
        sym plain.content_length,
        le→leb (i3 + length x.content) size k,
        le→leb (length x.content) 234
            (omega (arith, plain.content_length, dif_datalength_lookup-le x.dif)),
        read_all-drop d i3 x.content r at4,
      )
      (ap (λ t. done (i3 + length x.content, record x { custom_vif = t })) (sym plain.no_text))

parse_record-IsPlain :
    (d : List ℕ) (size i : ℕ) (x : DataRecord) (r : List ℕ)
    → IsPlain x
    → drop i d ≡ record_bytes x ++ r
    → i + length (record_bytes x) ≤ size
    → parse_record d size x.dif i ≡ done (i + length (record_bytes x), x)
unfolding parse_record
parse_record-IsPlain d size i x r plain at k =
    let i2 = i + 1 + length x.dife in
    let i3 = i2 + 1 + length x.vife in
    let count = length-record_bytes x in
    let p : i3 + length x.content ≡ i + length (record_bytes x) = omega (arith, count) in
    rw plain.not_special (
      parse_plain-IsPlain d size i i2 i3 x r plain (at ∙ record_bytes-append x r) refl refl
        (omega (arith, p, k))
      ∙ ap (λ t. done (t, x)) p)

note_more-plain : (dif : ℕ) (v : DataVariable) → is_special dif ≡ false → note_more dif v ≡ v
unfolding note_more is_special
note_more-plain dif v h =
    let other : (dif == more_records_follow_dif) ≡ false = ground arith in
    rw (other, note_more) refl

plain_append :
    (v : DataVariable) (x : DataRecord) (rs : List DataRecord)
    → IsPlain x
    → record (data_record_append (note_more x.dif v) x) {
      records = (data_record_append (note_more x.dif v) x).records ++ rs;
    }
      ≡ record v { records = v.records ++ (x ∷ rs) }
unfolding data_record_append
plain_append v x rs plain =
    rw (note_more-plain x.dif v plain.not_special)
      (ap (λ t. record v { records = t }) (append_assoc v.records (x ∷ []) rs))

-- The loop reads back the records that `mbus_frame_internal_pack` wrote.
pub records_loop-records :
    (d : List ℕ) (size : ℕ) (rs : List DataRecord) (fuel i : ℕ) (v : DataVariable)
    → All IsPlain rs
    → drop i d ≡ records_bytes rs ++ drop size d
    → i + length (records_bytes rs) ≡ size
    → size < fuel + i
    → records_loop fuel d size i v ≡ done (record v { records = v.records ++ rs })
unfolding records_loop records_bytes
records_loop-records d size rs zero i v plain at ends enough = absurd (omega arith)
records_loop-records d size [] (suc fuel) i v plain at ends enough =
    rw (ge→ltb i size (omega arith))
      (ap (λ t. done (record v { records = t })) (sym (append-nil v.records)))
records_loop-records d size (x ∷ rs) (suc fuel) i v plain at ends enough =
    let all = append_assoc (record_bytes x) (records_bytes rs) (drop size d) in
    let here = at ∙ all in
    let count = length-append (record_bytes x) (records_bytes rs) in
    let j = i + length (record_bytes x) in
    let rest = drop-length d i (record_bytes x) (records_bytes rs ++ drop size d) here in
    rw
      (
        lt→ltb i size (omega (arith, count, length-record_bytes x)),
        read-drop d i x.dif _ (here ∙ record_bytes-append x (records_bytes rs ++ drop size d)),
        plain.0.not_filler,
        parse_record-IsPlain d size i x _ plain.0 here (omega (arith, count)),
        records_loop-records d size rs fuel j (data_record_append (note_more x.dif v) x) plain.1
            rest (omega (arith, count)) (omega (arith, count, length-record_bytes x)),
      )
      (ap done (plain_append v x rs plain.0))

-- ===== src/Report/Laws.antt =====
-- A document is whole where no record needs more room than the loop keeps free.
use libmbus.Base.{
  ℕ, suc, ◌+◌, ◌-◌, ◌≤◌, ◌<◌, ◌≡◌, refl, sym, subst, ap, true, ◌&&◌, List, [], ◌∷◌, ◌++◌, arith,
  none, leb, ltb, length, length-append, take, take_all, le→leb, append_assoc, append-nil,
  Bool-cases, inl, inr,
}
use libmbus.Data.Outcome.{done}
use libmbus.Data.Record.{DataRecord}
use libmbus.Data.Variable.{DataVariable}
use libmbus.Units.Text.{text}
use libmbus.Units.Double.{Double}
use libmbus.Report.Header.{variable_header_xml-short}
use libmbus.Report.{
  Document, empty_document, put, processing_instruction, variable_header_xml, variable_record_xml,
  grown, records_xml, variable_xml,
}

-- `out` is all that was put, and `room` characters are free behind it.
record Holds (doc : Document) (s : List ℕ) (size room : ℕ) : Type 0 where
  all : doc.out ≡ s
  counted : doc.len ≡ length s
  free : doc.len + room ≤ size

-- Where a text leaves one character for the NUL, nothing of it is cut off.
put-Holds :
    (size room : ℕ) (s t : List ℕ) (doc : Document)
    → Holds doc t size (length s + room)
    → 0 < room
    → (next : Document) × (put size s doc ≡ done next) × Holds next (t ++ s) size room
unfolding put
put-Holds size room s t doc h some_room =
    let fits : leb doc.len size ≡ true = le→leb _ _ (omega (arith, h.free)) in
    let whole : take (size - doc.len - 1) s ≡ s = take_all _ s (omega (arith, h.free)) in
    (
      record { len = doc.len + length s; out = doc.out ++ s },
      rw (fits, whole) refl,
      record {
        all = ap (λ x. x ++ s) h.all;
        counted = omega (arith, h.counted, length-append t s);
        free = omega (arith, h.free);
      },
    )

room-Holds :
    {doc : Document} {s : List ℕ} {size room : ℕ} {less : ℕ}
    → Holds doc s size room
    → less ≤ room
    → Holds doc s size less
room-Holds h k = record { all = h.all; counted = h.counted; free = omega (arith, h.free) }

-- The characters that `</MBusData>` and the NUL need.
abbrev last_room : ℕ
last_room = 13

module _ {ℓ} {W : Type ℓ} (d : Double W) (timestamp : DataRecord → List ℕ) where
  -- The texts of records from number `i` on, none of them longer than what the loop keeps free
  -- beside the last line.
  pub data Rendered : ℕ → List DataRecord → List ℕ → Type 0 where
    nothing : {i : ℕ} → Rendered i [] []
    next :
        {i : ℕ} {rs : List DataRecord} {t : List ℕ} (r : DataRecord) (s : List ℕ)
        → variable_record_xml d timestamp r i none ≡ done s
        → length s ≤ 1011
        → Rendered (suc i) rs t
        → Rendered i (r ∷ rs) (s ++ t)

  grown-Holds :
      (size : ℕ) (s : List ℕ) (doc : Document)
      → Holds doc s size last_room
      → 1024 ≤ size
      → Holds doc s (grown d timestamp size doc) 1024 × (1024 ≤ grown d timestamp size doc)
  grown-Holds size s doc h big = elim (Bool-cases (leb doc.len size && ltb (size - doc.len) 1024)) [
    | inl y ↦
        rw y
          (record { all = h.all; counted = h.counted; free = omega (arith, h.free) }, omega arith)
    | inr y ↦
        let wide : doc.len + 1024 ≤ size = ground (arith, h.free) in
        rw y (record { all = h.all; counted = h.counted; free = wide }, big)
  ]

  records_xml-Holds :
      {i : ℕ} {rs : List DataRecord} {t : List ℕ} (size : ℕ) (s : List ℕ) (doc : Document)
      → Rendered i rs t
      → Holds doc s size last_room
      → 1024 ≤ size
      → (room : ℕ) × (end : Document) × (records_xml d timestamp i size doc rs ≡ done (room, end))
        × Holds end (s ++ t) room last_room
  unfolding records_xml
  records_xml-Holds size s doc nothing h big =
      (size, doc, refl, subst (λ x. Holds doc x size last_room) (sym (append-nil s)) h)
  records_xml-Holds {i = i} size s doc (next r x e short more) h big =
      let (wide, still) = grown-Holds size s doc h big in
      let size1 = grown d timestamp size doc in
      let (doc1, stored, h1) =
        put-Holds size1 last_room x s doc
          (record { all = wide.all; counted = wide.counted; free = omega (arith, wide.free) })
          (omega arith) in
      let (room, end, out, h2) = records_xml-Holds size1 (s ++ x) doc1 more h1 still in
      (
        room,
        end,
        rw (e, stored) out,
        subst (λ y. Holds end y room last_room) (append_assoc s x _) h2,
      )

-- Where no record of the answer needs more than 1011 characters, `mbus_data_variable_xml` writes inside its
-- buffer, and the document is whole: the first two lines, the part for the slave, the records in
-- their order, and the last line.
pub variable_xml-whole {ℓ} :
    {W : Type ℓ} (d : Double W) (timestamp : DataRecord → List ℕ) (v : DataVariable) (t : List ℕ)
    → Rendered d timestamp 0 v.records t
    → variable_xml d timestamp v
      ≡ done (
          processing_instruction
          ++ text "<MBusData>\n\n"
          ++ variable_header_xml v.header
          ++ t
          ++ text "</MBusData>\n")
unfolding variable_xml
variable_xml-whole d timestamp v t h =
    let short = variable_header_xml-short v.header in
    let start : Holds empty_document [] 8192 8192 = record {
      all = refl;
      counted = refl;
      free = omega arith;
    } in
    let (doc0, e0, h0) =
      put-Holds 8192 8000 processing_instruction [] empty_document (room-Holds start (omega arith))
        (omega arith) in
    let (doc1, e1, h1) =
      put-Holds 8192 7000 (text "<MBusData>\n\n") _ doc0 (room-Holds h0 (omega arith))
        (omega arith) in
    let (doc2, e2, h2) =
      put-Holds 8192 last_room (variable_header_xml v.header) _ doc1 (room-Holds h1 (omega arith))
        (omega arith) in
    let (size, doc3, e3, h3) = records_xml-Holds d timestamp 8192 _ doc2 h h2 (omega arith) in
    let (doc4, e4, h4) =
      put-Holds size 1 (text "</MBusData>\n") _ doc3 (room-Holds h3 (omega arith)) (omega arith) in
    rw (e0, e1, e2, e3, e4) (ap done h4.all)

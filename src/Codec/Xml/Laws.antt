-- ===== src/Codec/Xml/Laws.antt =====
-- Text that is encoded for XML is read back.
use libmbus.Base.{
  ℕ, zero, suc, ◌+◌, ◌*◌, ◌≤◌, ◌<◌, ◌≡◌, ◌⊎◌, inl, inr, refl, ap, ◌∙◌, arith, Bool, true, false,
  ◌||◌, ◌&&◌, not, List, [], ◌∷◌, ◌++◌, All, All-append, length, length-append, if◌then◌else◌, ltb,
  ◌==◌, byte_at, take, Bool-cases,
}
use libmbus.Codec.Text.{c_string}
use libmbus.Codec.Xml.{iscntrl, xml_char, xml_loop, str_xml_encode}

-- A reader of the four entities: the first letter of the name tells which one it is, and how many
-- characters are skipped.
abbrev pub entity : ℕ → ℕ × ℕ
entity c =
    if c == b'a'
    then (b'&', 4)
    else (if c == b'l' then (b'<', 3) else (if c == b'g' then (b'>', 3) else (b'"', 5)))

abbrev pub unescape : ℕ → List ℕ → List ℕ
unescape skip [] = []
unescape (suc skip) (c ∷ cs) = unescape skip cs
unescape zero (c ∷ cs) =
    let plain = unescape zero cs in
    let named = unescape (entity (byte_at cs 0)).1 cs in
    if c == b'&' then (entity (byte_at cs 0)).0 ∷ named else c ∷ plain

-- The text with a blank for each control character.
abbrev pub blanked : List ℕ → List ℕ
blanked [] = []
blanked (c ∷ cs) = (if iscntrl c then b' ' else c) ∷ blanked cs

-- A character that may stand in the text of an element and in an attribute, but for `&`.
abbrev pub is_plain : ℕ → Bool
is_plain c = not (ltb c 32 || c == 127) && not (c == b'<') && not (c == b'>') && not (c == b'"')

abbrev pub IsPlain : ℕ → Type 0
IsPlain c = is_plain c ≡ true

unescape-xml_char :
    (c : ℕ) (rest : List ℕ)
    → unescape 0 (xml_char c ++ rest) ≡ (if iscntrl c then b' ' else c) ∷ unescape 0 rest
unfolding xml_char
unescape-xml_char c rest = ground arith

xml_char-IsPlain : (c : ℕ) → All IsPlain (xml_char c)
unfolding xml_char iscntrl
xml_char-IsPlain c = elim (Bool-cases (ltb c 32 || c == 127)) [
  | inl e ↦ rw e (refl, tt)
  | inr e ↦ rw e (elim (Bool-cases (c == b'&')) [
    | inl e₁ ↦ rw e₁ (refl, (refl, (refl, (refl, (refl, tt)))))
    | inr e₁ ↦ rw e₁ (elim (Bool-cases (c == b'<')) [
      | inl e₂ ↦ rw e₂ (refl, (refl, (refl, (refl, tt))))
      | inr e₂ ↦ rw e₂ (elim (Bool-cases (c == b'>')) [
        | inl e₃ ↦ rw e₃ (refl, (refl, (refl, (refl, tt))))
        | inr e₃ ↦ rw e₃ (elim (Bool-cases (c == b'"')) [
          | inl e₄ ↦ rw e₄ (refl, (refl, (refl, (refl, (refl, (refl, tt))))))
          | inr e₄ ↦ rw e₄ ((let p : is_plain c ≡ true = rw (e, e₂, e₃, e₄) refl in p), tt)
        ])
      ])
    ])
  ])
]

length-xml_char : (c : ℕ) → (1 ≤ length (xml_char c)) × (length (xml_char c) ≤ 6)
unfolding xml_char
length-xml_char c = ground arith

-- What the loop writes behind `len` characters.
record Written (max_len len : ℕ) (src out : List ℕ) : Type 0 where
  read : ℕ
  reads_back : unescape 0 out ≡ take read (blanked src)
  fits : (out ≡ []) ⊎ (len + length out < max_len)
  plain : All IsPlain out
  whole : len + 6 * length src < max_len → read ≡ length src

abbrev no_text : List ℕ
no_text = []

cut : (b : Bool) → (if b then no_text else no_text) ≡ []
cut true = refl
cut false = refl

xml_loop-Written :
    (max_len len : ℕ) (src : List ℕ) → Written max_len len (c_string src) (xml_loop max_len len src)
unfolding xml_loop c_string
xml_loop-Written max_len len [] = record {
  read = 0;
  reads_back = refl;
  fits = inl refl;
  plain = tt;
  whole = λ h. refl;
}
xml_loop-Written max_len len (c ∷ src) =
    let rest = xml_loop-Written max_len (len + length (xml_char c)) src in
    let (some_char, few) = length-xml_char c in
    elim (Bool-cases (c == 0)) [
      | inl z ↦
          rw (z, cut (ltb (len + 6) max_len))
            record { read = 0; reads_back = refl; fits = inl refl; plain = tt; whole = λ h. refl }
      | inr char ↦ rw char (elim (Bool-cases (ltb (len + 6) max_len)) [
        | inl e ↦ rw e record {
          read = suc rest.read;
          reads_back =
              unescape-xml_char c _ ∙ ap (λ t. (if iscntrl c then b' ' else c) ∷ t) rest.reads_back;
          fits = inr (
              let room : len + 6 < max_len = ground arith in
              let both =
                length-append (xml_char c) (xml_loop max_len (len + length (xml_char c)) src) in
              elim rest.fits [
                | inl z ↦ omega (arith, both, few, ap length z, room)
                | inr l ↦ omega (arith, both, l)
              ]);
          plain = All-append IsPlain (xml_char c) _ (xml_char-IsPlain c) rest.plain;
          whole = λ h. ap suc (rest.whole (omega (arith, few)));
        }
        | inr e ↦ rw e record {
          read = 0;
          reads_back = refl;
          fits = inl refl;
          plain = tt;
          whole = λ h. absurd (ground arith);
        }
      ])
    ]

-- `mbus_str_xml_encode` into an array of `max_len` characters: the text and its NUL fit into the
-- array; it has no control character, `<`, `>` or `"`; and a reader of entities reads from it the
-- first characters of the source in front of its NUL, with blanks for the control characters, and all
-- of them if the array has more than six times as many.
pub str_xml_encode-unescape :
    (src : List ℕ) (max_len : ℕ)
    → 0 < max_len
    → (length (str_xml_encode src max_len) < max_len)
      × All IsPlain (str_xml_encode src max_len)
      × ((read : ℕ) × (unescape 0 (str_xml_encode src max_len) ≡ take read (blanked (c_string src)))
          × (6 * length (c_string src) < max_len → read ≡ length (c_string src)))
unfolding str_xml_encode
str_xml_encode-unescape src max_len room =
    let w = xml_loop-Written max_len 0 src in
    (
      elim w.fits [ inl z ↦ omega (arith, ap length z) | inr l ↦ omega (arith, l) ],
      w.plain,
      (w.read, w.reads_back, (λ h. w.whole (omega (arith, h)))),
    )

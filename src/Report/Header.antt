-- ===== src/Report/Header.antt =====
-- The part of a document that describes the slave is short.
use Prim.Native.String.{String}
use libmbus.Base.{
  ℕ, zero, suc, ◌+◌, ◌*◌, ◌≤◌, ◌≡◌, refl, List, [], ◌∷◌, arith, length, length-append, ltb,
  Bool-cases, inl, inr, Option-cases, ◌/◌, ◌%◌,
}
use libmbus.Codec.Xml.Laws.{str_xml_encode-unescape}
use libmbus.Codec.Manufacturer.{letters_of, decode_manufacturer}
use libmbus.Codec.Integer.{int_decode}
use libmbus.Codec.Bcd.{bcd_decode_hex}
use libmbus.Units.Product.{product_name}
use libmbus.Units.Medium.{variable_medium_lookup}
use libmbus.Codec.Text.{hex_digit}
use libmbus.Data.Variable.{VariableHeader}
use libmbus.Units.Text.{text}
use libmbus.Units.Prefix.{print_int}
use libmbus.Units.Print.{hex_digits}
use libmbus.Units.Laws.Decimal.{length-decimal}
use libmbus.Report.{element, variable_header_xml}

length-element :
    (tag : String) (s : List ℕ) → length (element tag s) ≡ 14 + 2 * length (text tag) + length s
unfolding element
length-element tag s = simp (length-append) (omega arith)

length-hex : (places n : ℕ) → length (hex_digits places n) ≤ places
unfolding hex_digits
length-hex zero n = omega arith
length-hex (suc places) n = elim (Bool-cases (ltb n 16)) [
  | inl y ↦ rw y (omega arith)
  | inr y ↦
      rw (y, length-append (hex_digits places (n / 16)) (hex_digit (n % 16) ∷ []))
        (omega (arith, length-hex places (n / 16)))
]

length-decode_manufacturer : (a b : ℕ) → length (decode_manufacturer a b) ≡ 3
unfolding decode_manufacturer letters_of
length-decode_manufacturer a b = elim (Option-cases (int_decode (a ∷ b ∷ []))) [
  | inl e ↦ rw (decode_manufacturer, e) refl
  | inr (i, e) ↦ rw (decode_manufacturer, e) refl
]

-- The longest parts are the names of the product and of the medium.
pub variable_header_xml-short : (h : VariableHeader) → length (variable_header_xml h) ≤ 4000
unfolding variable_header_xml print_int
variable_header_xml-short h =
    let product = str_xml_encode-unescape (product_name h) 768 (omega arith) in
    let medium = str_xml_encode-unescape (variable_medium_lookup h.medium) 768 (omega arith) in
    simp (length-append, length-element, length-decode_manufacturer)
      (omega (
        arith,
        length-hex 16 (bcd_decode_hex h.id_bcd),
        length-decimal 20 h.version,
        length-decimal 20 h.access_no,
        product.0,
        medium.0,
      ))

-- ===== src/Tests/Report.antt =====
-- A document of an answer with one record.
use libmbus.Base.{ℕ, ◌≡◌, refl, List, [], ◌∷◌, ◌++◌, arith, none, false, replicate}
use libmbus.Codec.Bcd.{bcd_decode_hex}
use libmbus.Codec.Integer.{int_decode, int_loop}
use libmbus.Codec.Manufacturer.{decode_manufacturer, letters_of, manufacturer_id, isalpha, toupper}
use libmbus.Data.Storage.{storage_number, tariff, device, collect}
use libmbus.Units.Lookup.{
  duration, power_text, more_vif_text, vif_unit_text, vif_unit_lookup, vib_unit_lookup,
}
use libmbus.Units.Medium.{record_function, variable_medium_lookup, variable_medium_text}
use libmbus.Units.Product.{
  is_from, product_name, products_abb_to_els, products_elv_to_slb, products_hyd_to_sbc,
  products_seo_to_zrm,
}
use libmbus.Codec.Text.{c_string, bin_loop, bin_decode, str_loop, str_decode}
use libmbus.Codec.Xml.{iscntrl, xml_char, xml_loop, str_xml_encode}
use libmbus.Data.Outcome.{done, fault}
use libmbus.Data.Record.{DataRecord}
use libmbus.Data.Variable.{DataVariable}
use libmbus.Units.Text.{text, switch, is_among}
use libmbus.Units.Value.{coding}
use libmbus.Units.Print.{hex_digits, print_as, record_decode, record_value, record_unit}
use libmbus.Units.Prefix.{decimal_digits, print_int, prefix_of, unit_prefix}
use libmbus.Report.{
  put, tariff_xml, numbers_xml, records_xml, element, function_xml, record_start_xml,
  variable_record_xml, variable_xml, variable_header_xml, processing_instruction,
}
use libmbus.Report.Laws.{nothing, next, variable_xml-whole}
use libmbus.Tests.Answers.{water_header}
use libmbus.Tests.Units.{term_double}

abbrev own_record : DataRecord
own_record = record {
  dif = 0x0F;
  dife = [];
  vif = 0;
  vife = [];
  custom_vif = [];
  content = 1 ∷ 0xAB ∷ [];
}

abbrev no_time : DataRecord → List ℕ
no_time r = []

abbrev own_text : List ℕ
own_text =
    text "    <DataRecord id=\"0\">\n        <Function>Manufacturer specific</Function>\n"
    ++ text "        <Value>01 AB</Value>\n    </DataRecord>\n\n"

own_run : variable_record_xml term_double no_time own_record 0 none ≡ done own_text
unfolding variable_record_xml function_xml record_start_xml element record_value record_decode
    print_as coding switch is_among bin_decode bin_loop str_xml_encode xml_loop xml_char iscntrl
    print_int decimal_digits
own_run = refl

variable_xml-whole_example :
    variable_xml term_double no_time
      record { header = water_header; records = own_record ∷ []; more_records_follow = false }
    ≡ done (
        processing_instruction
        ++ text "<MBusData>\n\n"
        ++ variable_header_xml water_header
        ++ (own_text ++ [])
        ++ text "</MBusData>\n")
variable_xml-whole_example =
    variable_xml-whole term_double no_time
      record { header = water_header; records = own_record ∷ []; more_records_follow = false }
      (own_text ++ []) (next own_record own_text own_run (omega arith) nothing)

-- An answer of 247 bytes for which `mbus_data_variable_xml` writes behind its buffer: records without
-- data, and one of a custom unit and a text of characters that are escaped.
abbrev small_record : ℕ → DataRecord
small_record v = record { dif = 0x30; dife = []; vif = v; vife = []; custom_vif = []; content = [] }

abbrev escaped_record : DataRecord
escaped_record = record {
  dif = 0x3D;
  dife = [];
  vif = 0x7C;
  vife = [];
  custom_vif = replicate 127 b'&';
  content = replicate 42 b'&';
}

abbrev overflowing : DataVariable
overflowing = record {
  header = water_header;
  records =
      replicate 24 (small_record 0x65) ++ replicate 7 (small_record 0x61) ++ (escaped_record ∷ []);
  more_records_follow = false;
}

overflow_run : variable_xml term_double no_time overflowing ≡ fault
unfolding variable_xml records_xml put variable_header_xml variable_record_xml function_xml
    numbers_xml tariff_xml record_start_xml element storage_number tariff device collect
    record_value record_decode print_as record_function record_unit vib_unit_lookup vif_unit_lookup
    vif_unit_text power_text more_vif_text duration unit_prefix prefix_of coding switch is_among
    str_xml_encode xml_loop xml_char iscntrl print_int decimal_digits hex_digits c_string str_decode
    str_loop bcd_decode_hex decode_manufacturer letters_of int_decode int_loop product_name is_from
    products_abb_to_els products_elv_to_slb products_hyd_to_sbc products_seo_to_zrm manufacturer_id
    isalpha toupper variable_medium_lookup variable_medium_text
overflow_run = refl

-- A text record with a NUL: what stands behind it is not in the document.
abbrev cut_record : DataRecord
cut_record = record own_record { dif = 0x0D; vif = 0x13; content = 65 ∷ 0 ∷ 66 ∷ [] }

cut_run : record_value term_double cut_record ≡ 66 ∷ []
unfolding record_value record_decode print_as coding switch is_among c_string str_decode str_loop
cut_run = refl

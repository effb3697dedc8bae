-- ===== src/Report.antt =====
-- The documents in XML of mbus/mbus-protocol.c: `mbus_data_variable_header_xml`,
-- `mbus_data_variable_record_xml`, `mbus_data_variable_xml`, `mbus_data_fixed_xml`,
-- `mbus_data_error_xml` and `mbus_frame_data_xml`, where `malloc` and `realloc` succeed.
pub mod Header
pub mod Laws
use Prim.Native.String.{String}
use libmbus.Base.{
  ℕ, suc, ◌+◌, ◌-◌, ◌*◌, ◌==◌, ◌&&◌, List, [], ◌∷◌, ◌++◌, pos, Option, none, some, if◌then◌else◌,
  ltb, leb, length, take, byte_at, bit_and,
}
use libmbus.Codec.Bcd.{bcd_decode_hex}
use libmbus.Codec.Integer.{int_decode}
use libmbus.Codec.Manufacturer.{decode_manufacturer}
use libmbus.Codec.Text.{hex_byte}
use libmbus.Codec.Xml.{str_xml_encode}
use libmbus.Data.Outcome.{Outcome, done, refused, fault, ◌>>=◌, ◌>>◌}
use libmbus.Data.Record.{DataRecord, manufacturer_specific, more_records_follow_dif}
use libmbus.Data.Storage.{storage_number, tariff, device}
use libmbus.Data.Variable.{VariableHeader, DataVariable}
use libmbus.Data.Fixed.{DataFixed, FrameData}
use libmbus.Units.Text.{text}
use libmbus.Units.Double.{Double}
use libmbus.Units.Prefix.{print_int}
use libmbus.Units.Lookup.{data_error_lookup}
use libmbus.Units.Medium.{
  fixed_medium, fixed_unit, variable_medium_lookup, record_function, fixed_function,
}
use libmbus.Units.Product.{product_name}
use libmbus.Units.Print.{hex_digits, record_value, record_unit}

-- A buffer with `len`, and what was stored.
pub record Document : Type 0 where
  pub len : ℕ
  pub out : List ℕ

abbrev pub empty_document : Document
empty_document = record { len = 0; out = [] }

-- `len += snprintf(&buff[len], buff_size - len, ...)`. What does not fit is cut off, but counted;
-- behind the end the difference wraps, and `snprintf` writes outside the array.
unfoldable pub put : ℕ → List ℕ → Document → Outcome Document
put buff_size s doc =
    if leb doc.len buff_size
    then done record { len = doc.len + length s; out = doc.out ++ take (buff_size - doc.len - 1) s }
    else fault

-- `"        <tag>%s</tag>\n"`
unfoldable pub element : String → List ℕ → List ℕ
element tag s = text "        <" ++ text tag ++ text ">" ++ s ++ text "</" ++ text tag ++ text ">\n"

-- `mbus_data_variable_header_xml`: its 8192 characters are more than the texts fill.
unfoldable pub variable_header_xml : VariableHeader → List ℕ
variable_header_xml h =
    text "    <SlaveInformation>\n"
    ++ element "Id" (hex_digits 16 (bcd_decode_hex h.id_bcd))
    ++ element "Manufacturer"
        (decode_manufacturer (byte_at h.manufacturer 0) (byte_at h.manufacturer 1))
    ++ element "Version" (print_int (pos h.version))
    ++ element "ProductName" (str_xml_encode (product_name h) 768)
    ++ element "Medium" (str_xml_encode (variable_medium_lookup h.medium) 768)
    ++ element "AccessNumber" (print_int (pos h.access_no))
    ++ element "Status" (hex_byte h.status)
    ++ element "Signature" (hex_byte (byte_at h.signature 1) ++ hex_byte (byte_at h.signature 0))
    ++ text "    </SlaveInformation>\n\n"

-- `tariff >= 0` and what is printed then.
unfoldable pub tariff_xml : Option ℕ → Option ℕ → List ℕ
tariff_xml none dev = []
tariff_xml (some t) dev =
    element "Tariff" (print_int (pos t))
    ++ element "Device" (elim dev [ some n ↦ print_int (pos n) | none ↦ text "-1" ])

-- What a record that is interpreted has more than the others.
unfoldable pub numbers_xml : DataRecord → Outcome (List ℕ)
numbers_xml r = do
  storage ← storage_number r
  t ← tariff r
  dev ← device r
  done (
      element "Function" (str_xml_encode (record_function r) 768)
      ++ element "StorageNumber" (print_int (pos storage))
      ++ tariff_xml t dev
      ++ element "Unit" (str_xml_encode (record_unit r) 768))

unfoldable pub function_xml : DataRecord → Outcome (List ℕ)
function_xml r =
    if r.dif == manufacturer_specific
    then done (element "Function" (text "Manufacturer specific"))
    else (if r.dif == more_records_follow_dif
        then done (element "Function" (text "More records follow"))
        else numbers_xml r)

-- The first line: `frame_cnt` is -1 (`none`) for a single frame.
unfoldable pub record_start_xml : ℕ → Option ℕ → List ℕ
record_start_xml record_cnt none =
    text "    <DataRecord id=\"" ++ print_int (pos record_cnt) ++ text "\">\n"
record_start_xml record_cnt (some frame_cnt) =
    text "    <DataRecord id=\""
    ++ print_int (pos record_cnt)
    ++ text "\" frame=\""
    ++ print_int (pos frame_cnt)
    ++ text "\">\n"

-- The two counters in `mbus_data_fixed_xml`, behind the first line of the record.
unfoldable pub counter_xml : DataFixed → ℕ → List ℕ → List ℕ
counter_xml f cnt_type cnt_val =
    element "Function" (str_xml_encode (fixed_function f.status) 256)
    ++ element "Unit" (str_xml_encode (fixed_unit cnt_type) 256)
    ++ element "Value" (
        if bit_and f.status 0x80 == 0x00
        then hex_digits 16 (bcd_decode_hex cnt_val)
        else elim (int_decode cnt_val) [ some i ↦ print_int i | none ↦ text "0" ])
    ++ text "    </DataRecord>\n\n"

-- `MBUS_XML_PROCESSING_INSTRUCTION`
abbrev pub processing_instruction : List ℕ
processing_instruction = text "<?xml version=\"1.0\" encoding=\"ISO-8859-1\"?>\n"

-- `mbus_data_fixed_xml`, whose texts are less than its 8192 characters.
unfoldable pub fixed_xml : DataFixed → List ℕ
fixed_xml f =
    processing_instruction
    ++ text "<MBusData>\n\n"
    ++ text "    <SlaveInformation>\n"
    ++ element "Id" (hex_digits 16 (bcd_decode_hex f.id_bcd))
    ++ element "Medium" (str_xml_encode (fixed_medium f) 256)
    ++ element "AccessNumber" (print_int (pos f.tx_cnt))
    ++ element "Status" (hex_byte f.status)
    ++ text "    </SlaveInformation>\n\n"
    ++ text "    <DataRecord id=\"0\">\n"
    ++ counter_xml f f.cnt1_type f.cnt1_val
    ++ text "    <DataRecord id=\"1\">\n"
    ++ counter_xml f f.cnt2_type f.cnt2_val
    ++ text "</MBusData>\n"

-- `mbus_data_error_xml`, whose texts are less than its 512 characters.
unfoldable pub error_xml : ℕ → List ℕ
error_xml error_byte =
    processing_instruction
    ++ text "<MBusData>\n\n"
    ++ text "    <SlaveInformation>\n"
    ++ element "Error" (str_xml_encode (data_error_lookup error_byte) 256)
    ++ text "    </SlaveInformation>\n\n"
    ++ text "</MBusData>\n"

-- `d` is the arithmetic on `double`, and `timestamp` the element for the time of a record, which is
-- empty where there is none.
module _ {ℓ} {W : Type ℓ} (d : Double W) (timestamp : DataRecord → List ℕ) where
  -- `mbus_data_variable_record_xml`: its 8192 characters are more than the texts fill.
  unfoldable pub variable_record_xml : DataRecord → ℕ → Option ℕ → Outcome (List ℕ)
  variable_record_xml r record_cnt frame_cnt = do
    function ← function_xml r
    done (
        record_start_xml record_cnt frame_cnt
        ++ function
        ++ element "Value" (str_xml_encode (record_value d r) 768)
        ++ timestamp r
        ++ text "    </DataRecord>\n\n")

  -- The test `(buff_size - len) < 1024`, where the difference is that of two `size_t`.
  abbrev pub grown : ℕ → Document → ℕ
  grown buff_size doc =
      if leb doc.len buff_size && ltb (buff_size - doc.len) 1024 then buff_size * 2 else buff_size

  -- The loop over the records, from record `i` on; it returns the size of the buffer too.
  unfoldable pub records_xml : ℕ → ℕ → Document → List DataRecord → Outcome (ℕ × Document)
  records_xml i buff_size doc [] = done (buff_size, doc)
  records_xml i buff_size doc (r ∷ rs) = do
    s ← variable_record_xml r i none
    next ← put (grown buff_size doc) s doc
    records_xml (suc i) (grown buff_size doc) next rs

  -- `mbus_data_variable_xml`
  unfoldable pub variable_xml : DataVariable → Outcome (List ℕ)
  variable_xml v = do
    doc0 ← put 8192 processing_instruction empty_document
    doc1 ← put 8192 (text "<MBusData>\n\n") doc0
    doc2 ← put 8192 (variable_header_xml v.header) doc1
    (buff_size, doc3) ← records_xml 0 8192 doc2 v.records
    doc4 ← put buff_size (text "</MBusData>\n") doc3
    done doc4.out

  -- `mbus_frame_data_xml`
  unfoldable pub frame_data_xml : FrameData → Outcome (List ℕ)
  frame_data_xml (FrameData.error e) = done (error_xml e)
  frame_data_xml (FrameData.fixed f) = done (fixed_xml f)
  frame_data_xml (FrameData.variable v) = variable_xml v

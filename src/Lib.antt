-- ===== src/Lib.antt =====
-- libmbus, the C library for the M-Bus (Meter-Bus) protocol: a model of its frames, its codecs, the
-- data of answers, the units and values of records, its transports and the protocol of the master,
-- with the theorems that make them correct.
--
-- A master sends a frame (an acknowledgement, a short, a control or a long frame) to a slave and
-- receives a frame with data from it. A transport moves the packed bytes; `mbus_parse` is asked
-- after each `read` how many bytes are missing; the data of a long frame from a slave are parsed as
-- an error, as an answer of fixed length, or as a list of data records, whose values the codecs
-- read.
--
-- Which file models which part:
--   * Base: native numbers, bytes, C arrays as lists, integers, and laws of the bit operations.
--   * Frame: `mbus_frame` of mbus/mbus-protocol.h, and of mbus/mbus-protocol.c `mbus_frame_new`,
--     `calc_checksum`, `calc_length`, `mbus_frame_verify` and their kin; Frame/Control has the
--     control codes, Frame/Pack is `mbus_frame_pack`, Frame/Parse is `mbus_parse`. The other files
--     below Frame are proofs: Valid (checksum and verification), Packet, RoundTrip, Prefix (parts of
--     packets), Room and Repack.
--   * Codec: of mbus/mbus-protocol.c, Bcd (`mbus_data_bcd_*`), Integer (`mbus_data_int_*`,
--     `mbus_data_long_*`), Manufacturer (`mbus_manufacturer_id` and its kin), Time
--     (`mbus_data_tm_decode`), Text (`mbus_data_str_decode`, `mbus_data_bin_decode`, and
--     `mbus_hex2bin` of mbus/mbus-protocol-aux.c) and Xml (`mbus_str_xml_encode`); the files Laws
--     below them are proofs.
--   * Data: of mbus/mbus-protocol.c, Outcome (how a function on arrays ends), Record and Variable
--     (`mbus_data_variable_parse`), Fixed (`mbus_data_fixed_parse`, `mbus_frame_data_parse`,
--     `mbus_frame_internal_pack`) and Storage (`mbus_data_record_storage_number` and its kin);
--     Bounds, RoundTrip, Answer and Delivery are proofs.
--   * Units: Table is `vif_table` and `fixed_table` of mbus/mbus-protocol-aux.c, in parts, and Normalize
--     the functions that use them (`mbus_vib_unit_normalize`, `mbus_vif_unit_normalize`,
--     `mbus_fixed_normalize`); Value is `mbus_variable_value_decode`, Value32
--     `mbus_variable_value_decode_32` of the same file. Of mbus/mbus-protocol.c, Prefix is
--     `mbus_unit_prefix`, Lookup `mbus_vif_unit_lookup`, `mbus_vib_unit_lookup` and
--     `mbus_data_error_lookup`, Medium the texts for media, units of counters and functions
--     (`mbus_data_fixed_medium` and its kin), Product `mbus_data_product_name`, and Print
--     `mbus_data_record_value` and `mbus_data_record_unit`. Record is `mbus_parse_fixed_record` and
--     `mbus_parse_variable_record` of mbus/mbus-protocol-aux.c. Double is the interface to the
--     arithmetic on `double`. Below Units/Laws are the proofs: Standard has the decades of the
--     standard, Check and Agree hold the tables to them, Decades, Known, Counters, Decimal, Printed,
--     Narrow, Products and Records state what follows.
--   * Report: the documents of `mbus_frame_data_xml` in mbus/mbus-protocol.c; Header and Laws below it
--     are proofs.
--   * Address: `mbus_frame_get_secondary_address`, `mbus_frame_select_secondary_pack`,
--     `mbus_is_primary_address` and `mbus_is_secondary_address` of mbus/mbus-protocol.c, with the
--     proofs in Address/Laws.
--   * Link: Port is the interface to `read`, `write` and `isatty`; Serial is
--     `mbus_serial_recv_frame` and `mbus_serial_send_frame` of mbus/mbus-serial.c, with the proofs in
--     Serial/Total, Serial/Stream and Serial/Delivery; Tcp is `mbus_tcp_recv_frame` and
--     `mbus_tcp_send_frame` of mbus/mbus-tcp.c, with the proofs in Tcp/Total and Tcp/Stream.
--   * Master: of mbus/mbus-protocol-aux.c, Handle (`mbus_context_set_option`, and the functions `send`
--     and `recv` of `mbus_handle` as the interface Transport), Receive (`mbus_recv_frame`,
--     `mbus_purge_frames`, `mbus_send_frame`), Send (the functions that send one frame), Request
--     (`mbus_sendrecv_request`), Select (`mbus_select_secondary_address`,
--     `mbus_probe_secondary_address`, `mbus_read_slave`) and Scan (`mbus_probe_secondary_range`,
--     `mbus_scan_2nd_address_range`). Proofs: Keeps and Leads (what a computation on the state of a
--     transport keeps, and what it leads to), Options, Sendable, Guarded and the files below it (the
--     frames that are sent, and that the loops end), Scan/Slaves, Scan/Digits and Scan/Complete (the
--     slaves that a scan finds if each probe tells what is there), Bus (slaves as the master hears
--     them, and what a probe finds), Slave (one that answers requests of data, and what the master
--     gets) and Wire (the serial transport as that of the master).
--   * Tests: the theorems at concrete inputs, and test runs.
--
-- State and errors: a C function that changes a struct returns the new struct; a return code is an
-- integer, an `Option` or a result type. A read or a write outside an array is the outcome `fault`
-- of Data/Outcome where the code does not test for it. An array with a counter beside it is a list
-- of that length, except the data of a frame, which are an array of 252 bytes and a size, since
-- bytes behind the size are read.
--
-- Bounds and fuel: an `unsigned char` is a number below 256, with its wrap-around written out. The
-- receive loop of the serial transport has 388 rounds, one for each of the 384 bytes of its buffer
-- and one for each of up to three timeouts; the loop over records has one round a byte of data. For
-- both it is proved that this is enough. The loop of `mbus_purge_frames` ends only when the line is
-- quiet, and has its fuel, `drain`, as a parameter; the loop of `mbus_sendrecv_request` has
-- `enough_turns`, one turn more for each frame than there are tries. The receive loop of the TCP
-- transport has its fuel as a parameter, since signals may interrupt `read` any number of times. The
-- search over masks may nest seventeen calls, one for each position from 0 to 16, and it is proved that
-- this is enough. A number is printed with at most twenty digits, which is enough for 64 bits. A
-- `long long` of the BCD codecs is the number of its 64 bits.
--
-- Not modelled: NULL arguments, failing `malloc`, error strings, the callbacks for traces, debug
-- output and timestamps; the arithmetic on `double` and how it is printed, which are parameters; the
-- decoder for machines without IEEE 754; `mbus_frame_xml`, the normalised documents and the
-- functions that print to the terminal; opening and closing of transports and settings of the
-- serial line; the tools in bin, and lib, test and the packaging.
pub mod Base
pub mod Frame
pub mod Codec
pub mod Data
pub mod Address
pub mod Link
pub mod Master
pub mod Tests
pub mod Units
pub mod Report

-- ===== src/Data.antt =====
-- What an answer carries: the structs `mbus_data_*` of mbus/mbus-protocol.h, and the parsers and
-- the packer of mbus/mbus-protocol.c between them and the bytes of a frame.
pub mod Outcome
pub mod Record
pub mod Variable
pub mod Fixed
pub mod Storage
pub mod Bounds
pub mod RoundTrip
pub mod Answer
pub mod Delivery

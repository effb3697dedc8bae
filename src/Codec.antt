-- ===== src/Codec.antt =====
-- The functions that encode and decode values in mbus/mbus-protocol.c.
pub mod Bytes
pub mod Bcd
pub mod Integer
pub mod Manufacturer
pub mod Time
pub mod Text
pub mod Xml

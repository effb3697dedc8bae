-- ===== src/Units.antt =====
-- The units and values of data records in mbus/mbus-protocol.c and mbus/mbus-protocol-aux.c.
pub mod Text
pub mod Table
pub mod Double
pub mod Normalize
pub mod Prefix
pub mod Lookup
pub mod Medium
pub mod Product
pub mod Value
pub mod Value32
pub mod Print
pub mod Record
pub mod Laws

-- ===== src/Units/Laws.antt =====
-- The units and values of records agree with the standard and with each other.
pub mod Standard
pub mod Check
pub mod Agree
pub mod Decades
pub mod Counters
pub mod Known
pub mod Narrow
pub mod Decimal
pub mod Printed
pub mod Products
pub mod Records

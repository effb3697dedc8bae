-- ===== src/Tests.antt =====
-- The theorems at concrete inputs, and test runs.
pub mod Data
pub mod Frames
pub mod Line
pub mod Codecs
pub mod Answers
pub mod Addresses
pub mod Dialogue
pub mod Bus
pub mod Slave
pub mod Units
pub mod Report

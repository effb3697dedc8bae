-- ===== src/Master.antt =====
-- The master's side of the protocol: mbus/mbus-protocol-aux.c from `mbus_context_set_option` on,
-- over a transport that sends and receives frames.
pub mod Handle
pub mod Receive
pub mod Send
pub mod Request
pub mod Select
pub mod Scan
pub mod Keeps
pub mod Leads
pub mod Options
pub mod Sendable
pub mod Guarded
pub mod Bus
pub mod Slave
pub mod Wire

-- ===== src/Link.antt =====
-- The two transports, mbus/mbus-serial.c and mbus/mbus-tcp.c.
pub mod Port
pub mod Serial
pub mod Tcp

-- ===== src/Transport.antt =====
-- src/transport.rs: packets on the connection, and the answers that a camera sends.
pub mod Header
pub mod Send
pub mod Receive
pub mod Strings
pub mod Infos
pub mod Options

-- ===== src/Foreign.antt =====
-- src/utils.rs, src/discovery.rs, src/session.rs: the functions for C callers, and their memory.
pub mod Memory
pub mod Cells
pub mod Strings
pub mod Cameras
pub mod Sessions

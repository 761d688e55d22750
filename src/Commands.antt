-- ===== src/Commands.antt =====
-- src/commands.rs: commands to the camera and its answers.
pub mod Request
pub mod Response
pub mod Parsing
pub mod Listener
pub mod Client
pub mod Download
pub mod World
pub mod Resume
pub mod Transfer

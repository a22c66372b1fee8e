-- ===== src/Server.antt =====
-- Package server: the command's options and the HTTP API.
pub mod Options
pub mod Answer
pub mod V1
pub mod Validation
pub mod Limits
pub mod Created
pub mod Process
pub mod Router
pub mod Deployed
pub mod Unserved
pub mod Started
pub mod Mapped

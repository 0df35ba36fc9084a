-- ===== src/Server.antt =====
-- src/server.rs: requests are read as lines, parsed, dispatched and answered, on stdio and for
-- HTTP.
pub mod Lines
pub mod Parsing
pub mod Handlers
pub mod Dispatch
pub mod Stdio

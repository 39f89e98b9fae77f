-- ===== src/Server.antt =====
-- The MCP server of native/src/server.rs: its tools, their calls and its answers.
pub mod Tools
pub mod Route
pub mod Envelope
pub mod Call

-- ===== src/Http.antt =====
-- src/main/c/src/core/http-server.c: the web server of the consumer agent.
pub mod Types
pub mod Decoder
pub mod Io
pub mod Server
mod Tests

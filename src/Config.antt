-- ===== src/Config.antt =====
-- The configuration of the server, internal/config.
pub mod Crypto
mod Tests

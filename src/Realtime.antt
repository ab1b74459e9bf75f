-- ===== src/Realtime.antt =====
-- The WebSocket hub, internal/realtime.
pub mod Hub
mod Tests

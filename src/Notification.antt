-- ===== src/Notification.antt =====
-- internal/notification: who is told of an incident, and over which channel.
pub mod Contact
pub mod Bucket
pub mod Dispatch
mod Tests

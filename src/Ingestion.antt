-- ===== src/Ingestion.antt =====
-- The Kafka ingestion, internal/ingestion: the offsets that may be committed (partition_tracker.go).
pub mod Tracker
pub mod KafkaFilter
pub mod KafkaManager
pub mod Adapters
mod Tests

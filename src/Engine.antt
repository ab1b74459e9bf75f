-- ===== src/Engine.antt =====
-- The rule engine, internal/engine: matchers and routes (routing.go), silences (silence.go),
-- deduplication (dedup.go), inhibition (inhibition.go), grouping (aggregation.go) and the pipeline
-- that chains them (pipeline.go).
pub mod Alert
mod Tests
pub mod Matcher
pub mod Router
pub mod Silence
pub mod Dedup
pub mod Inhibit
pub mod Severity
pub mod GroupKey
pub mod Aggregate
pub mod Pipeline

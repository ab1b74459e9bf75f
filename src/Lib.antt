-- ===== src/Lib.antt =====
-- AlertMesh: alerts come in through adapters (internal/ingestion), pass the rule engine
-- (internal/engine), and become incidents (internal/incident) that are notified and analysed. This
-- library models the adapters, the filter, the mapping and the offset bookkeeping of the ingestion, the
-- rule engine, the life of an incident, the dispatch of its notifications (internal/notification), the
-- hub that tells browsers of it (internal/realtime), the encryption of secrets (internal/config), and
-- the endpoints that roles are given (internal/auth).
--
-- Parts and files:
--   Prelude             names shared by all files, Go maps as association lists, integers
--   Engine/Alert        `RawAlert` of internal/ingestion/normalizer.go
--   Engine/Matcher      `LabelMatcher`, `UnmarshalJSON`, `Matches`, `matchesAll`, and the compile pass
--                       of `SetRoutes`, internal/engine/routing.go
--   Engine/Router       `Router` of routing.go, `loadRoutes` of internal/engine/pipeline.go
--   Engine/Silence      `Silencer` of internal/engine/silence.go, `loadSilences`
--   Engine/Dedup        `Deduplicator` of internal/engine/dedup.go; Dedup/Race interleaves its calls
--   Engine/Inhibit      `Inhibitor` of internal/engine/inhibition.go, `loadInhibits`
--   Engine/Severity     `severityRank`, `mapSeverity`, `maxSeverity` of internal/engine/aggregation.go
--   Engine/GroupKey     `computeGroupKey` of aggregation.go
--   Engine/Aggregate    `Aggregator` of aggregation.go, `loadAggregations`
--   Engine/Pipeline     `Pipeline`: `Process`, the timers' callback, `Reload`
--   Ingestion/Tracker   `partitionTracker` of internal/ingestion/partition_tracker.go
--   Ingestion/KafkaFilter  internal/ingestion/kafka_filter.go: `CompileKafkaProgram` here, `evalField` in
--                       Cells, `Apply` in Apply, `parseFlexibleTime` in Times, `stripQuery`,
--                       `normalizePath`, `coalesce` and the tests of a path in Helpers
--   Ingestion/KafkaManager  `Reload`, `spawnReaderGroup` up to its readers, and a round of `processorLoop`
--                       of internal/ingestion/kafka_manager.go
--   Ingestion/Adapters  `Adapt` of internal/ingestion/alertmanager_v2.go, alertmanager.go, prometheus.go and
--                       cloud.go, and in Webhook that of webhook.go
--   Incident/Schedule   `computeInterval`, `tierFor`, `nextTier` of internal/incident/service.go
--   Incident/Store      internal/incident/repository.go, the tables of incidents and alerts
--   Incident/Service    `maybeRepeatNotify`, `escalateAndReset`, and the gates of
--                       internal/ai/eligibility.go
--   Incident/Handle     `HandleAlertGroup` with `createIncident`, `appendToIncident`, `reopenIncident`
--   Incident/Resolve    `HandleResolvedAlert`, `autoResolve`, internal/incident/staleness.go, `Ack`,
--                       `Resolve`, `Close`
--   Incident/Lifecycle  the operations of the service in any order
--   Incident/Active     lemmas on the number of active incidents of a key
--   Notification/Contact   `resolveRecipients` and the settings of internal/notification/contact.go
--   Notification/Bucket    `groupByChannelTarget` and `dispatchBuckets` of contact.go
--   Notification/Dispatch  `DispatchForIncident` of internal/notification/dispatcher.go
--   Realtime/Hub        `Hub` of internal/realtime/hub.go
--   Config/Crypto       `Encrypt` and `Decrypt` of internal/config/crypto.go
--   Auth/Rbac           `StoreRouter` of internal/auth/rbac.go
-- The children of a file hold its proofs, and Tests its runs.
--
-- How the parts interact: `Pipeline.process` asks the deduplicator, the silencer and the router in turn
-- and files the alert in a shard of the aggregator; `Pipeline.fire` is the timer of a group, which asks
-- the inhibitor and hands the group to the incident callback, `handle_alert_group`; a resolved alert
-- goes to `handle_resolved_alert` under the group key that the pipeline computes. Callbacks and
-- counters are the events of a step, and messages and timeline rows the effects of an incident's.
--
-- Correspondence and bounds. A struct is a record, a method a function from the old state to the
-- new one with its result. A time is a number of nanoseconds, and each operation is given the time
-- that it reads. A method under a mutex is one step. A query is given as the rows of its table, or
-- `none` where it fails; a JSON column as its decoded value, or `none`. Offsets, times and counters
-- are unbounded numbers; they stay far below 2^63 in use. The loop of `Ack` has the length of its
-- bucket as fuel, which is enough because each round but the last takes an entry out. Of the
-- packages that are not of the repository, `regexp` is the parameter `Regexp`, the two hashes of
-- the engine are the parameter `Digest`, and gjson, expr, time.Parse and the hash of the
-- fingerprints are the parameter `Libs`; `Primitives` and `Scalars` stand for the cipher and for
-- gjson's values, and `Links` for the SASL library. The 64-bit arithmetic of `parseInt` and
-- `parseFlexibleTime`, and that of `computeInterval`, keeps its wrap-around.
--
-- Not modelled: the database connection and its notifications, HTTP handlers, logins, notification
-- channels, language models, the Kubernetes cache, metrics and logs, and the web interface. Of the
-- consumer manager, the readers, the debouncer and the shutdown are left out. Of the Kafka filter,
-- comparisons of floats, `regex_replace` and the cache of patterns are left out. Of the incident
-- service, the parsing of its settings and the texts of titles and messages are left out; its
-- statements are atomic within an operation.
pub mod Prelude
pub mod Auth
pub mod Config
pub mod Engine
pub mod Incident
pub mod Ingestion
pub mod Notification
pub mod Realtime

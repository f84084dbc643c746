-- ===== src/Consumer.antt =====
-- The stream consumers, apps/inference-consumer and apps/app-log-consumer: from stream messages to
-- ClickHouse rows, with a dead-letter stream for what fails.
pub mod Decode
pub mod Columns
pub mod Row
pub mod Batch
pub mod AppLog
pub mod Arrival
pub mod Routing
pub mod Returns

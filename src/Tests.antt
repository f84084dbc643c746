-- ===== src/Tests.antt =====
-- The theorems at concrete inputs, over servers held in memory.
mod Memory
mod Sdk
mod Ingest
mod Control
mod Consume
mod Spans
mod Anchors
mod Chats
mod Redaction
mod Http
mod Anomalies
mod Kills
mod Streams
mod Clients
mod Reads

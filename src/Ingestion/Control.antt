-- ===== src/Ingestion/Control.antt =====
-- The control plane of the ingestion service: the outbox of each host, and the commands put in it.
pub mod Queue
pub mod Delivery
pub mod Service
pub mod Commands

-- ===== src/Ingestion.antt =====
-- apps/ingestion-service: from a batch of raw events to the streams, and the control plane.
pub mod Validation
pub mod Pii
pub mod Pipeline
pub mod Control
pub mod Http
